-- ===== src/Symbols/Table.antt =====
-- TableEntry and SymbolTable (libycp/src/SymbolTable.cc, libycp/src/include/ycp/SymbolTable.h): a
-- hash table whose buckets hold, for each key, the stack of its definitions, innermost first. What
-- the pointers of the entries link is nested here: m_next a bucket, m_outer the stack of a key, and
-- m_overloaded_next the entries behind the first one of a scope.
pub mod Laws
pub mod References
use Prim.Native.Nat.{bit_and, bit_xor}
use yast_core.Prelude.{
  ℕ, zero, suc, ◌+◌, ◌-◌, ◌*◌, ◌/◌, ◌%◌, ◌^◌, Bool, true, false, ◌&&◌, ◌||◌, not, Option, none,
  some, List, [], ◌∷◌, ◌++◌, Bytes, length, ◌==◌, ltb, if◌then◌else◌,
}
use yast_core.Prelude.Texts.{same_text}

-- SymbolEntry::category_t, by its numbers: 0 is c_unspec.
abbrev pub Category : Type 0
Category = ℕ

abbrev pub unspec : Category
unspec = 0

-- An entry is an object, known by its address, with its key, which is a pointer to a text, and of
-- its symbol the object, the namespace and the category.
pub record TableEntry : Type 0 where
  pub address : ℕ
  pub key : Bytes
  pub key_address : ℕ
  pub sentry : ℕ
  pub name_space : ℕ
  pub category : Category

-- A scope of a key: its entry, and those that overload it.
pub record Scope : Type 0 where
  pub entry : TableEntry
  pub overloaded : List TableEntry

-- The scopes of a key: the one in the hash chain, and those around it.
pub record Chain : Type 0 where
  pub inner : Scope
  pub outer : List Scope

abbrev pub Bucket : Type 0
Bucket = List Chain

-- A null m_used, m_xrefs or vector is `none`. m_used is a map from addresses of keys, and
-- `positions` is what setPosition stores in the symbols.
pub record SymbolTable : Type 0 where
  pub prime : ℕ
  pub buckets : ℕ → Bucket
  pub track_usage : Bool
  pub used : Option (List (ℕ × TableEntry))
  pub xrefs : Option (List (List TableEntry))
  pub positions : ℕ → ℕ

-- `h << 4` and `+ *p` of an unsigned int, where a char from 128 on is negative.
unfoldable pub hash_step : ℕ → ℕ → ℕ
hash_step h c =
    let shifted = (h * 16 + c + (if ltb c 128 then 0 else 2 ^ 32 - 256)) % 2 ^ 32 in
    let g = bit_and shifted 0xff000000 in
    if g == 0 then shifted else bit_xor (bit_xor shifted (g / 2 ^ 24)) g

unfoldable pub hash_from : ℕ → Bytes → ℕ
unfolding hash_step
hash_from h [] = h
hash_from h (c ∷ s) = hash_from (hash_step h c) s

unfoldable pub hash : ℕ → Bytes → ℕ
unfolding hash_from
hash prime s = hash_from 0 s % prime

abbrev pub update {ℓ} : {A : Type ℓ} → (ℕ → A) → ℕ → A → ℕ → A
update f i a j = if j == i then a else f j

-- An empty table. `prime` is the argument of the constructor, or 31 where that is not positive.
unfoldable pub new_table : ℕ → SymbolTable
new_table prime = record {
  prime = if prime == 0 then 31 else prime;
  buckets = λ i. [];
  track_usage = true;
  used = none;
  xrefs = none;
  positions = λ i. 0;
}

abbrev pub chain_key : Chain → Bytes
chain_key c = c.inner.entry.key

abbrev pub new_scope : TableEntry → Scope
new_scope e = record { entry = e; overloaded = [] }

-- The innermost definition is of the same namespace and category.
unfoldable pub overloads : TableEntry → Chain → Bool
overloads e c = c.inner.entry.name_space == e.name_space && c.inner.entry.category == e.category

-- An entry with a key that is there: overloading, or a new scope.
unfoldable pub enter_chain : TableEntry → Chain → Chain
unfolding overloads
enter_chain e c =
    if overloads e c
    then record c {
      inner = record { entry = c.inner.entry; overloaded = c.inner.overloaded ++ e ∷ [] };
    }
    else record { inner = new_scope e; outer = c.inner ∷ c.outer }

unfoldable pub enter_bucket : TableEntry → Bucket → Bucket
unfolding enter_chain same_text
enter_bucket e [] = record { inner = new_scope e; outer = [] } ∷ []
enter_bucket e (c ∷ cs) =
    if same_text e.key (chain_key c) then enter_chain e c ∷ cs else c ∷ enter_bucket e cs

unfoldable pub enter : TableEntry → SymbolTable → SymbolTable
unfolding hash enter_bucket
enter e t =
    let h = hash t.prime e.key in
    record t { buckets = update t.buckets h (enter_bucket e (t.buckets h)) }

-- The search in the scopes of a key: the wildcard takes the first.
abbrev pub fits : Category → Category → Bool
fits category c = category == unspec || c == category

unfoldable pub find_scope : Category → List Scope → Option TableEntry
find_scope category [] = none
find_scope category (s ∷ ss) =
    if fits category s.entry.category then some s.entry else find_scope category ss

unfoldable pub find_bucket : Bytes → Category → Bucket → Option TableEntry
unfolding find_scope same_text
find_bucket key category [] = none
find_bucket key category (c ∷ cs) =
    if same_text key (chain_key c)
    then find_scope category (c.inner ∷ c.outer)
    else find_bucket key category cs

unfoldable pub lookup : Bytes → Category → SymbolTable → Option TableEntry
unfolding hash find_bucket
lookup key category t = find_bucket key category (t.buckets (hash t.prime key))

-- `m_used->find`.
unfoldable pub is_used : ℕ → List (ℕ × TableEntry) → Bool
is_used k [] = false
is_used k ((j, e) ∷ u) = j == k || is_used k u

-- The insertion into the map, which is ordered by the addresses.
unfoldable pub insert_used : ℕ → TableEntry → List (ℕ × TableEntry) → List (ℕ × TableEntry)
insert_used k e [] = (k, e) ∷ []
insert_used k e ((j, d) ∷ u) = if ltb k j then (k, e) ∷ (j, d) ∷ u else (j, d) ∷ insert_used k e u

-- What `find` notes of an entry that it found.
abbrev pub note_in : TableEntry → SymbolTable → Option (List (ℕ × TableEntry)) → SymbolTable
note_in e t none = t
note_in e t (some u) =
    if t.track_usage && not (is_used e.key_address u)
    then record t {
      positions = update t.positions e.sentry (length u);
      used = some (insert_used e.key_address e u);
    }
    else t

unfoldable pub note_usage : TableEntry → SymbolTable → SymbolTable
unfolding is_used insert_used
note_usage e t = note_in e t t.used

abbrev pub noted : Option TableEntry → SymbolTable → SymbolTable
noted none t = t
noted (some e) t = note_usage e t

unfoldable pub find : Bytes → Category → SymbolTable → Option TableEntry × SymbolTable
unfolding lookup note_usage
find key category t = (lookup key category t, noted (lookup key category t) t)

-- `xref`: `none` is the fault of `top ()` on an empty stack.
abbrev pub push_xref : TableEntry → List (List TableEntry) → Option (List (List TableEntry))
push_xref e [] = none
push_xref e (refs ∷ stack) = some ((refs ++ e ∷ []) ∷ stack)

abbrev pub stack_of : Option (List (List TableEntry)) → List (List TableEntry)
stack_of none = []
stack_of (some stack) = stack

abbrev pub with_xrefs :
    TableEntry
    → SymbolTable
    → Option (List (List TableEntry))
    → Option (Option TableEntry × SymbolTable)
with_xrefs e t none = none
with_xrefs e t (some stack) = some (some e, record t { xrefs = some stack })

abbrev pub xref_found : Option TableEntry → SymbolTable → Option (Option TableEntry × SymbolTable)
xref_found none t = some (none, t)
xref_found (some e) t = with_xrefs e t (push_xref e (stack_of t.xrefs))

unfoldable pub xref : Bytes → SymbolTable → Option (Option TableEntry × SymbolTable)
unfolding find
xref key t = xref_found (find key unspec t).0 (find key unspec t).1

unfoldable pub open_xrefs : SymbolTable → SymbolTable
open_xrefs t = record t { xrefs = some ([] ∷ stack_of t.xrefs) }

-- Without an open vector it only complains.
unfoldable pub close_xrefs : SymbolTable → SymbolTable
close_xrefs t = elim t.xrefs [
  | none ↦ t
  | some stack ↦ elim stack [ [] ↦ t | refs ∷ rest ↦ record t { xrefs = some rest } ]
]

abbrev pub nth_sentry : List TableEntry → ℕ → Option ℕ
nth_sentry [] i = none
nth_sentry (e ∷ es) zero = some e.sentry
nth_sentry (e ∷ es) (suc i) = nth_sentry es i

-- A null pointer is `none`.
abbrev pub get_from : List (List TableEntry) → ℕ → Option ℕ
get_from [] position = none
get_from (refs ∷ stack) position = nth_sentry refs position

unfoldable pub get_xref : SymbolTable → ℕ → Option ℕ
get_xref t position = get_from (stack_of t.xrefs) position

unfoldable pub start_usage : SymbolTable → SymbolTable
start_usage t = elim t.used [ none ↦ record t { used = some [] } | some u ↦ t ]

unfoldable pub count_usage : SymbolTable → ℕ
count_usage t = elim t.used [ none ↦ 0 | some u ↦ length u ]

unfoldable pub end_usage : SymbolTable → SymbolTable
end_usage t = record t { used = none }

unfoldable pub enable_usage : SymbolTable → SymbolTable
enable_usage t = record t { track_usage = true }

unfoldable pub disable_usage : SymbolTable → SymbolTable
disable_usage t = record t { track_usage = false }

-- What `remove` does: it ends with a bucket, or it never ends; `absent` is an entry that is not in
-- the bucket, whose pointers say nothing of it.
pub data Removal {ℓ} (A : Type ℓ) : Type ℓ where
  removed : A → Removal A
  hangs : Removal A
  absent : Removal A

abbrev pub is_entry : TableEntry → TableEntry → Bool
is_entry e d = d.address == e.address

unfoldable pub among : TableEntry → List TableEntry → Bool
among e [] = false
among e (d ∷ ds) = is_entry e d || among e ds

unfoldable pub in_scopes : TableEntry → List Scope → Bool
unfolding among
in_scopes e [] = false
in_scopes e (s ∷ ss) = is_entry e s.entry || among e s.overloaded || in_scopes e ss

unfoldable pub in_bucket : TableEntry → Bucket → Bool
unfolding in_scopes
in_bucket e [] = false
in_bucket e (c ∷ cs) = in_scopes e (c.inner ∷ c.outer) || in_bucket e cs

-- An entry in the hash chain: the scope around it takes its place, or it is taken out.
unfoldable pub pop_scope : List Scope → Bucket → Bucket
pop_scope [] cs = cs
pop_scope (s ∷ ss) cs = record { inner = s; outer = ss } ∷ cs

unfoldable pub unlink : TableEntry → Bucket → Option Bucket
unfolding pop_scope
unlink e [] = none
unlink e (c ∷ cs) =
    if is_entry e c.inner.entry
    then some (pop_scope c.outer cs)
    else elim (unlink e cs) [ none ↦ none | some ds ↦ some (c ∷ ds) ]

-- Any other entry: the loop over `shadow`, which never leaves the first entry of the bucket.
unfoldable pub unshadow_at : TableEntry → Bool → Chain → Bucket → List Scope → Removal Bucket
unshadow_at e inside c cs [] = if inside then hangs else absent
unshadow_at e inside c cs (s ∷ ss) =
    if is_entry e s.entry
    then removed (record c { outer = ss } ∷ cs)
    else if inside
    then hangs
    else absent

unfoldable pub unshadow : TableEntry → Bucket → Removal Bucket
unfolding in_bucket unshadow_at
unshadow e [] = absent
unshadow e (c ∷ cs) = unshadow_at e (in_bucket e (c ∷ cs)) c cs c.outer

unfoldable pub remove_bucket : TableEntry → Bucket → Removal Bucket
unfolding unlink unshadow
remove_bucket e cs = elim (unlink e cs) [ some ds ↦ removed ds | none ↦ unshadow e cs ]

abbrev pub put_bucket : SymbolTable → ℕ → Removal Bucket → Removal SymbolTable
put_bucket t h (removed cs) = removed (record t { buckets = update t.buckets h cs })
put_bucket t h hangs = hangs
put_bucket t h absent = absent

unfoldable pub remove : TableEntry → SymbolTable → Removal SymbolTable
unfolding hash remove_bucket
remove e t = let h = hash t.prime e.key in put_bucket t h (remove_bucket e (t.buckets h))
