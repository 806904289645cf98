-- ===== src/Values/Path/Steps/Laws.antt =====
-- Paths as sequences of components: how taking them apart and putting them together fit.
use yast_core.Prelude.{
  ℕ, zero, suc, ◌↔◌, ◌≤◌, ◌≡◌, refl, Bool, true, false, ◌&&◌, Option, none, some, [], ◌∷◌, ◌++◌,
  append_assoc, append-nil, Bytes, length, arith, List,
}
use yast_core.Prelude.Texts.{same_text, same_text_refl, same_text-path}
use yast_core.Prelude.Int.{pos}
use yast_core.Prelude.Fault.{◌>>=◌}
use yast_core.Values.Defs.{Component, Components}
use yast_core.Values.Path.Steps.{
  append, same_components, is_prefix_of, drop_components, at, take_components, prefix,
}

pub append-join : (p q : Components) → append p q ≡ p ++ q
unfolding append
append-join p [] = rw (append-nil p)
append-join p (c ∷ q) = rw (append-join (p ++ c ∷ []) q, append_assoc p (c ∷ []) q)

consed :
    (c : Component) (o : Option Components) (b p : Components)
    → (o >>= λ a. some (a ++ b)) ≡ some p
    → ((o >>= λ r. some (c ∷ r)) >>= λ a. some (a ++ b)) ≡ some (c ∷ p)
consed c none b p h = absurd cc
consed c (some a) b p h = cc

take-drop :
    (i : ℕ) (p : Components)
    → i ≤ length p
    → (take_components i p >>= λ a. some (a ++ drop_components i p)) ≡ some p
unfolding take_components drop_components
take-drop zero p h = refl
take-drop (suc i) [] h = absurd (omega arith)
take-drop (suc i) (c ∷ p) h =
    consed c (take_components i p) (drop_components i p) p (take-drop i p (omega arith))

appended :
    (o : Option Components) (b p : Components)
    → (o >>= λ a. some (a ++ b)) ≡ some p
    → (o >>= λ a. some (append a b)) ≡ some p
appended none b p h = absurd cc
appended (some a) b p h = rw (append-join a b) h

-- A path is its prefix up to an index, followed by what is from that index on, for every index up
-- to its length.
pub prefix-at :
    (p : Components) (i : ℕ)
    → i ≤ length p
    → (prefix p (pos i) >>= λ a. at p (pos i) >>= λ b. some (append a b)) ≡ some p
unfolding prefix at
prefix-at p i h = appended (take_components i p) (drop_components i p) p (take-drop i p h)

-- The texts of a path's components.
abbrev pub texts : Components → List Bytes
texts [] = []
texts (c ∷ p) = c.component ∷ texts p

split_and : (a b : Bool) → (a && b) ≡ true → (a ≡ true) × (b ≡ true)
split_and true b h = (refl, h)
split_and false b h = absurd cc

same_components-texts :
    (p q : Components) → same_components p q ≡ true → (r : List Bytes) × (texts q ≡ texts p ++ r)
unfolding same_components
same_components-texts [] q h = (texts q, refl)
same_components-texts (c ∷ p) [] h = absurd cc
same_components-texts (c ∷ p) (d ∷ q) h =
    let parts = split_and (same_text c.component d.component) (same_components p q) h in
    let (r, e) = same_components-texts p q parts.1 in
    let first = same_text-path c.component d.component parts.0 in (r, cc)

texts-same_components :
    (p q : Components) (r : List Bytes)
    → texts q ≡ texts p ++ r
    → (same_components p q ≡ true) × (length p ≤ length q)
unfolding same_components
texts-same_components [] q r e = (refl, omega arith)
texts-same_components (c ∷ p) [] r e = absurd cc
texts-same_components (c ∷ p) (d ∷ q) r e =
    let first : c.component ≡ d.component = cc in
    let rest = texts-same_components p q r cc in
    (rw (first, same_text_refl d.component, rest.0), omega (arith, rest.1))

-- isPrefixOf holds exactly if the texts of the other path's components begin with those of this
-- one.
pub is_prefix_of-texts :
    (p q : Components) → (is_prefix_of p q ≡ true) ↔ ((r : List Bytes) × (texts q ≡ texts p ++ r))
unfolding is_prefix_of
is_prefix_of-texts p q = (
  (λ h. same_components-texts p q (ground (arith, h))),
  (λ (r, e). ground (arith, texts-same_components p q r e)),
)
