-- ===== src/Code/Convert/Typing.antt =====
-- What YEPropagate lets through is of the type, by Type::matchvalue.
use yast_core.Prelude.{◌≡◌, refl, Bool, true, false, ◌||◌, ◌&&◌, Option, none, some, if◌then◌else◌}
use yast_core.Prelude.Int.{ℤ, pos}
use yast_core.Types.Kind.{Kind}
use yast_core.Types.Defs.{
  Quals, YcpType, base, list as list_type, map as map_type, is_any, is_unspec,
}
use yast_core.Values.Defs.{
  Value, Values, Pairs, null, void, list, map, return_value, nil, cons, end, entry, is_null,
}
use yast_core.Values.Typing.{match_value, match_elements, match_entries}
use yast_core.Code.Convert.Kinds.{IsValueKind, base_fits, no_list}
use yast_core.Code.Convert.{also, fits, can_propagate, can_propagate_all, can_propagate_pairs}

-- Such a type, or a list or a map of such types.
unfoldable pub IsDataType : YcpType → Type 0
IsDataType (base k q) = IsValueKind k
IsDataType (list_type q t) = IsDataType t
IsDataType (map_type q k v) = IsDataType k × IsDataType v
IsDataType _ = ⊥

-- No null handle inside.
unfoldable mutual
  pub IsDefined : Value → Type 0
  IsDefined null = ⊥
  IsDefined (list vs) = AreDefined vs
  IsDefined (map m) = PairsAreDefined m
  IsDefined _ = Unit

  pub AreDefined : Values → Type 0
  AreDefined nil = Unit
  AreDefined (cons v vs) = IsDefined v × AreDefined vs

  pub PairsAreDefined : Pairs → Type 0
  PairsAreDefined end = Unit
  PairsAreDefined (entry k v m) = IsDefined k × IsDefined v × PairsAreDefined m

not_null : (v : Value) → IsDefined v → is_null v ≡ false
unfolding IsDefined
not_null null h = absurd h
not_null v h = refl

tested : (b : Bool) → (if b then some true else some false) ≡ some true → b ≡ true
tested true h = refl
tested false h = cc

also-cases : (m n : Option Bool) → also m n ≡ some true → (m ≡ some true) × (n ≡ some true)
also-cases none n h = cc
also-cases (some true) n h = (refl, h)
also-cases (some false) n h = cc

-- Where the test of the parts is skipped, by each side's condition.
skipped :
    (b : Bool) (m : Option Bool) (n : Option ℤ)
    → (m ≡ some true → n ≡ some (pos 0))
    → (if b then some true else m) ≡ some true
    → (if b then some (pos 0) else n) ≡ some (pos 0)
skipped true m n f h = refl
skipped false m n f h = f h

map_skipped :
    (any any_key unspec unspec_key : Bool) (m : Option Bool) (n : Option ℤ)
    → (m ≡ some true → n ≡ some (pos 0))
    → (if (any && any_key) || (unspec && unspec_key) then some true else m) ≡ some true
    → (if any || unspec then some (pos 0) else n) ≡ some (pos 0)
map_skipped true a u k m n f h = refl
map_skipped false a true k m n f h = refl
map_skipped false a false k m n f h = f h

base_matches :
    (q : Quals) (k : Kind) (v : Value)
    → IsValueKind k
    → IsDefined v
    → can_propagate v (base k q) ≡ some true
    → match_value (base k q) v ≡ some (pos 0)
unfolding can_propagate
base_matches q k (list vs) h d e =
    base_fits q k (list vs) h refl
      (tested (fits (list vs) (base k q)) (rw ((no_list q k h).0) at e))
base_matches q k (map m) h d e =
    base_fits q k (map m) h refl (tested (fits (map m) (base k q)) (rw ((no_list q k h).1) at e))
base_matches q k v h d e = base_fits q k v h (not_null v d) cc

mutual
  unfolding can_propagate match_value IsDefined IsDataType

  matches :
      (v : Value) (t : YcpType)
      → IsDataType t
      → IsDefined v
      → can_propagate v t ≡ some true
      → match_value t v ≡ some (pos 0)
  matches null t h d e = absurd d
  matches v (base k q) h d e = base_matches q k v h d e
  matches void (list_type q u) h d e = refl
  matches return_value (list_type q u) h d e = refl
  matches (list vs) (list_type q u) h d e =
      skipped (is_any u || is_unspec u) (can_propagate_all vs u) (match_elements u vs)
        (elements_match vs u h d) e
  matches v (list_type q u) h d e = cc
  matches void (map_type q k u) h d e = refl
  matches return_value (map_type q k u) h d e = refl
  matches (map m) (map_type q k u) h d e =
      map_skipped (is_any u) (is_any k) (is_unspec u) (is_unspec k) (can_propagate_pairs m k u)
        (match_entries k u m) (entries_match m k u (h.0) (h.1) d) e
  matches v (map_type q k u) h d e = cc
  matches v t h d e = absurd h

  elements_match :
      (vs : Values) (u : YcpType)
      → IsDataType u
      → AreDefined vs
      → can_propagate_all vs u ≡ some true
      → match_elements u vs ≡ some (pos 0)
  elements_match nil u h d e = refl
  elements_match (cons v vs) u h d e =
      let (a, b) = also-cases (can_propagate v u) (can_propagate_all vs u) e in
      rw (matches v u h (d.0) a, elements_match vs u h (d.1) b) refl

  entries_match :
      (m : Pairs) (k u : YcpType)
      → IsDataType k
      → IsDataType u
      → PairsAreDefined m
      → can_propagate_pairs m k u ≡ some true
      → match_entries k u m ≡ some (pos 0)
  entries_match end k u hk hu d e = refl
  entries_match (entry key v m) k u hk hu d e =
      let (a, b) = also-cases _ _ e in
      let (a₁, b₁) = also-cases _ _ b in
      rw (matches key k hk (d.0) a, matches v u hu (d.1) a₁, entries_match m k u hk hu (d.2) b₁)
        refl
