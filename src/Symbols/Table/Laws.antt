-- ===== src/Symbols/Table/Laws.antt =====
-- Entering, finding and removing symbols.
use mathlib.Core.Path.{fun_ext}
use yast_core.Prelude.{
  ℕ, ◌≡◌, refl, sym, ap, ◌∙◌, inl, inr, Bool, true, false, none, some, List, [], ◌∷◌, ◌++◌, Bytes,
  ◌==◌, ==_iff, ==_refl, Bool-cases, arith, if◌then◌else◌,
}
use yast_core.Prelude.Texts.{same_text, same_text-path}
use yast_core.Symbols.Table.{
  Category, TableEntry, Scope, Chain, Bucket, SymbolTable, hash, update, chain_key, overloads,
  enter_chain, enter_bucket, enter, fits, find_scope, find_bucket, lookup, removed, hangs, among,
  in_scopes, in_bucket, unlink, unshadow, unshadow_at, remove_bucket, put_bucket, remove,
}

-- An entry overloads the innermost definition of its key, if there is one.
unfoldable pub overloads_in : TableEntry → Bucket → Bool
overloads_in e [] = false
overloads_in e (c ∷ cs) = if same_text e.key (chain_key c) then overloads e c else overloads_in e cs

abbrev pub is_overloading : TableEntry → SymbolTable → Bool
is_overloading e t = overloads_in e (t.buckets (hash t.prime e.key))

same_text_trans :
    (r s t : Bytes) → same_text r s ≡ true → same_text r t ≡ true → same_text s t ≡ true
same_text_trans r s t h k = ap (λ x. same_text x t) (sym (same_text-path r s h)) ∙ k

module _ (e : TableEntry) (key : Bytes) (category : Category) where
  find_bucket-enter_bucket :
      (cs : Bucket)
      → find_bucket key category (enter_bucket e cs) ≡ (
          if same_text key e.key
          then (if overloads_in e cs
              then find_bucket key category cs
              else if fits category e.category
              then some e
              else find_bucket key category cs)
          else find_bucket key category cs)
  unfolding find_bucket enter_bucket enter_chain overloads_in find_scope
  find_bucket-enter_bucket [] = refl
  find_bucket-enter_bucket (c ∷ cs) = elim (Bool-cases (same_text e.key (chain_key c))) [
    | inl h ↦ rw h (ground (arith, ap (same_text key) (same_text-path e.key (chain_key c) h)))
    | inr h ↦
        rw h (ground (arith, find_bucket-enter_bucket cs, same_text_trans key e.key (chain_key c)))
  ]

  find_bucket-update :
      (i j : ℕ) (f : ℕ → Bucket)
      → (same_text key e.key ≡ true → i ≡ j)
      → find_bucket key category (update f j (enter_bucket e (f j)) i) ≡ (
          if same_text key e.key
          then (if overloads_in e (f j)
              then find_bucket key category (f i)
              else if fits category e.category
              then some e
              else find_bucket key category (f i))
          else find_bucket key category (f i))
  find_bucket-update i j f h = elim (Bool-cases (i == j)) [
    | inl at ↦ rw ((==_iff i j).0 at) (rw (==_refl j) (find_bucket-enter_bucket (f j)))
    | inr at ↦ elim (Bool-cases (same_text key e.key)) [
      | inl same ↦ absurd (ground (arith, at, h same))
      | inr same ↦ rw (at, same) refl
    ]
  ]

-- After `enter` a search finds the new entry under its key, if it fits the category that is looked
-- for and overloads no other, and in all other cases, under other keys too, what it found before.
pub lookup-enter :
    (e : TableEntry) (key : Bytes) (category : Category) (t : SymbolTable)
    → lookup key category (enter e t) ≡ (
        if same_text key e.key
        then (if is_overloading e t
            then lookup key category t
            else if fits category e.category
            then some e
            else lookup key category t)
        else lookup key category t)
unfolding lookup enter
lookup-enter e key category t =
    find_bucket-update e key category (hash t.prime key) (hash t.prime e.key) t.buckets
      (λ h. ap (hash t.prime) (same_text-path key e.key h))

among-append : (e : TableEntry) (ds : List TableEntry) → among e (ds ++ e ∷ []) ≡ true
unfolding among
among-append e [] = rw (==_refl e.address) refl
among-append e (d ∷ ds) = ground (arith, among-append e ds)

in_bucket-enter_bucket : (e : TableEntry) (cs : Bucket) → in_bucket e (enter_bucket e cs) ≡ true
unfolding in_bucket enter_bucket enter_chain
in_bucket-enter_bucket e [] = rw (==_refl e.address) refl
in_bucket-enter_bucket e (c ∷ cs) =
    ground
      (arith, in_bucket-enter_bucket e cs, among-append e c.inner.overloaded, ==_refl e.address)

module _ (e : TableEntry) where
  unlink-in_bucket : (cs : Bucket) → in_bucket e cs ≡ false → unlink e cs ≡ none
  unfolding unlink in_bucket in_scopes
  unlink-in_bucket [] h = refl
  unlink-in_bucket (c ∷ cs) h = ground (arith, unlink-in_bucket cs)

  unlink-enter_bucket :
      (cs : Bucket)
      → in_bucket e cs ≡ false
      → unlink e (enter_bucket e cs) ≡ (if overloads_in e cs then none else some cs)
  unfolding unlink enter_bucket enter_chain overloads_in in_bucket in_scopes
  unlink-enter_bucket [] h = rw (==_refl e.address) refl
  unlink-enter_bucket (c ∷ cs) h = elim (Bool-cases (same_text e.key (chain_key c))) [
    | inl k ↦ rw k (ground (arith, unlink-in_bucket cs, ==_refl e.address))
    | inr k ↦ rw k (ground (arith, unlink-enter_bucket cs))
  ]

  unshadow_at-hangs :
      (c : Chain) (cs : Bucket) (ss : List Scope)
      → in_scopes e ss ≡ false
      → unshadow_at e true c cs ss ≡ hangs
  unfolding unshadow_at in_scopes
  unshadow_at-hangs c cs [] h = refl
  unshadow_at-hangs c cs (s ∷ ss) h = ground arith

  enter_chain-outer : (c : Chain) → overloads e c ≡ true → (enter_chain e c).outer ≡ c.outer
  unfolding enter_chain
  enter_chain-outer c h = rw h refl

  unshadow-cons :
      (c : Chain) (cs : Bucket)
      → in_bucket e (c ∷ cs) ≡ true
      → in_scopes e c.outer ≡ false
      → unshadow e (c ∷ cs) ≡ hangs
  unfolding unshadow
  unshadow-cons c cs h k =
      (λ i. unshadow_at e (h i) c cs c.outer) ∙ unshadow_at-hangs c cs c.outer k

  in_scopes-outer :
      (c : Chain) (cs : Bucket) → in_bucket e (c ∷ cs) ≡ false → in_scopes e c.outer ≡ false
  unfolding in_bucket in_scopes
  in_scopes-outer c cs h = ground arith

  unshadow-enter_bucket :
      (cs : Bucket)
      → in_bucket e cs ≡ false
      → overloads_in e cs ≡ true
      → unshadow e (enter_bucket e cs) ≡ hangs
  unfolding enter_bucket overloads_in
  unshadow-enter_bucket [] h k = cc
  unshadow-enter_bucket (c ∷ cs) h k =
      let inside = in_bucket-enter_bucket e (c ∷ cs) in
      elim (Bool-cases (same_text e.key (chain_key c))) [
        | inl s ↦
            let over : overloads e c ≡ true = rw s at k in
            rw s (
              unshadow-cons (enter_chain e c) cs (rw s at inside)
                (ap (in_scopes e) (enter_chain-outer c over) ∙ in_scopes-outer c cs h))
        | inr s ↦
            rw s (unshadow-cons c (enter_bucket e cs) (rw s at inside) (in_scopes-outer c cs h))
      ]

  remove_bucket-enter_bucket :
      (cs : Bucket)
      → in_bucket e cs ≡ false
      → remove_bucket e (enter_bucket e cs) ≡ (if overloads_in e cs then hangs else removed cs)
  unfolding remove_bucket
  remove_bucket-enter_bucket cs h = elim (Bool-cases (overloads_in e cs)) [
    | inl k ↦
        rw (unlink-enter_bucket cs h, remove_bucket)
          (rw (k, remove_bucket) (unshadow-enter_bucket cs h k))
    | inr k ↦ rw (unlink-enter_bucket cs h, remove_bucket) (rw (k, remove_bucket) refl)
  ]

update-same {ℓ} : {A : Type ℓ} (f : ℕ → A) (i : ℕ) (a : A) → update (update f i a) i (f i) ≡ f
update-same f i a = fun_ext λ j. elim (Bool-cases (j == i)) [
  | inl h ↦ rw h (ap f (sym ((==_iff j i).0 h)))
  | inr h ↦ rw h refl
]

-- Removing an entry that was just entered gives the table back as it was; but if the entry overloads
-- another one, `remove` never ends.
pub remove-enter :
    (e : TableEntry) (t : SymbolTable)
    → in_bucket e (t.buckets (hash t.prime e.key)) ≡ false
    → remove e (enter e t) ≡ (if is_overloading e t then hangs else removed t)
unfolding remove enter
remove-enter e t h =
    let i = hash t.prime e.key in
    let cs = t.buckets i in
    ap (λ b. put_bucket (enter e t) i (remove_bucket e (if b then enter_bucket e cs else cs)))
      (==_refl i)
    ∙ ap (put_bucket (enter e t) i) (remove_bucket-enter_bucket e cs h)
    ∙ elim (Bool-cases (overloads_in e cs)) [
      | inl k ↦ rw k refl
      | inr k ↦ rw k (
          ap (λ f. removed (record t { buckets = f }))
            (update-same t.buckets i (enter_bucket e cs)))
    ]
