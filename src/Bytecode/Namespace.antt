-- ===== src/Bytecode/Namespace.antt =====
-- The namespace stack of libycp/src/Bytecode.cc. The array is a list with its top first, so its
-- nesting level is the length less one, and the index of an entry is the number of entries below
-- it. A namespace is its pointer, with 0 for null. The cross references that a push opens and a pop
-- closes in the symbol table of the namespace are a log of the calls, the last one first.
mod Tests
pub mod Laws
use yast_core.Prelude.{
  ℕ, zero, suc, ◌+◌, ◌-◌, Bool, Option, none, some, List, [], ◌∷◌, length, ◌==◌, ltb, leb,
  if◌then◌else◌,
}
use yast_core.Prelude.Int.{ℤ, pos, negsuc}

-- namespaceentry_t
pub record NamespaceEntry : Type 0 where
  pub name_space : ℕ
  pub with_xrefs : Bool

pub data XrefCall : Type 0 where
  open_xrefs close_xrefs : ℕ → XrefCall

pub record NamespaceStack : Type 0 where
  pub entries : List NamespaceEntry
  pub tare_level : ℕ
  pub calls : List XrefCall

-- The difference of two numbers as an `int`.
abbrev pub minus : ℕ → ℕ → ℤ
minus a b = if ltb a b then negsuc (b - a - 1) else pos (a - b)

abbrev pub opened : NamespaceEntry → List XrefCall → List XrefCall
opened e calls = if e.with_xrefs then open_xrefs e.name_space ∷ calls else calls

abbrev pub closed : NamespaceEntry → List XrefCall → List XrefCall
closed e calls = if e.with_xrefs then close_xrefs e.name_space ∷ calls else calls

unfoldable pub push_namespace : ℕ → Bool → NamespaceStack → ℤ × NamespaceStack
push_namespace zero with_xrefs s = (negsuc 0, s)
push_namespace (suc n) with_xrefs s =
    let e : NamespaceEntry = record { name_space = suc n; with_xrefs = with_xrefs } in
    (
      minus (length s.entries) s.tare_level,
      record { entries = e ∷ s.entries; tare_level = s.tare_level; calls = opened e s.calls },
    )

-- Behind the test for null: an empty stack and another namespace on top change nothing.
unfoldable pub pop_top : ℕ → List NamespaceEntry → NamespaceStack → NamespaceStack
pop_top n [] s = s
pop_top n (e ∷ es) s =
    if leb (suc (length es)) s.tare_level
    then s
    else if e.name_space == n
    then record { entries = es; tare_level = s.tare_level; calls = closed e s.calls }
    else s

unfoldable pub pop_namespace : ℕ → NamespaceStack → ℤ × NamespaceStack
unfolding pop_top
pop_namespace zero s = (negsuc 0, s)
pop_namespace (suc n) s = (pos 0, pop_top (suc n) s.entries s)

-- The loop of popUptoNamespace: the entries and the calls.
unfoldable pub pop_until :
    ℕ → ℕ → List NamespaceEntry → List XrefCall → List NamespaceEntry × List XrefCall
pop_until n tare [] calls = ([], calls)
pop_until n tare (e ∷ es) calls =
    let rest = pop_until n tare es (closed e calls) in
    if leb (suc (length es)) tare
    then (e ∷ es, calls)
    else if e.name_space == n
    then (es, closed e calls)
    else rest

unfoldable pub pop_upto_namespace : ℕ → NamespaceStack → NamespaceStack
unfolding pop_until
pop_upto_namespace zero s = s
pop_upto_namespace (suc n) s =
    let (es, calls) = pop_until (suc n) s.tare_level s.entries s.calls in
    record { entries = es; tare_level = s.tare_level; calls = calls }

-- The stack looks empty from here on; the result undoes it. (The level is at least the tare less
-- one, so the difference is not negative.)
unfoldable pub tare_stack : NamespaceStack → ℕ × NamespaceStack
tare_stack s = (length s.entries - s.tare_level, record s { tare_level = length s.entries })

unfoldable pub untare_stack : ℕ → NamespaceStack → NamespaceStack
untare_stack tare_id s = record s { tare_level = s.tare_level - tare_id }

-- The first index from the tare on that has the namespace.
unfoldable pub id_from : ℕ → ℕ → List NamespaceEntry → Option ℕ
id_from n tare [] = none
id_from n tare (e ∷ es) =
    let here = if e.name_space == n then some (length es) else none in
    let found : Option ℕ = elim (id_from n tare es) [ some i ↦ some i | none ↦ here ] in
    if ltb (length es) tare then none else found

unfoldable pub namespace_id : ℕ → NamespaceStack → ℤ
unfolding id_from
namespace_id n s = elim (id_from n s.tare_level s.entries) [
  | some i ↦ minus i s.tare_level
  | none ↦ negsuc 0
]

unfoldable pub namespace_at : ℕ → List NamespaceEntry → ℕ
namespace_at i [] = 0
namespace_at i (e ∷ es) = if i == length es then e.name_space else namespace_at i es

unfoldable pub namespace_ptr : ℤ → NamespaceStack → ℕ
unfolding namespace_at
namespace_ptr (negsuc id) s = 0
namespace_ptr (pos id) s =
    if ltb (id + s.tare_level) (length s.entries)
    then namespace_at (id + s.tare_level) s.entries
    else 0
