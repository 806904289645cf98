-- ===== src/Symbols/Table/References.antt =====
-- What searches note in a symbol table: the used entries and the cross references.
use yast_core.Prelude.{
  ℕ, zero, suc, ◌<◌, ◌≡◌, refl, ap, ◌∙◌, inl, inr, Bool, true, false, not, ◌&&◌, Option, none, some,
  List, [], ◌∷◌, ◌++◌, Bytes, ==_refl, Bool-cases, arith, length,
}
use yast_core.Symbols.Table.{
  Category, unspec, TableEntry, SymbolTable, lookup, is_used, insert_used, note_in, note_usage,
  noted, find, push_xref, stack_of, with_xrefs, xref_found, xref, close_xrefs, nth_sentry, get_xref,
}

is_used-insert_used :
    (k : ℕ) (e : TableEntry) (u : List (ℕ × TableEntry)) → is_used k (insert_used k e u) ≡ true
unfolding is_used insert_used
is_used-insert_used k e [] = rw (==_refl k) refl
is_used-insert_used k e ((j, d) ∷ u) = ground (arith, is_used-insert_used k e u)

and_false : (b : Bool) → (b && false) ≡ false
and_false true = refl
and_false false = refl

note_in-again :
    (e : TableEntry) (t : SymbolTable) (o : Option (List (ℕ × TableEntry)))
    → t.used ≡ o
    → note_usage e (note_in e t o) ≡ note_in e t o
unfolding note_usage
note_in-again e t none h = ap (note_in e t) h
note_in-again e t (some u) h = elim (Bool-cases (t.track_usage && not (is_used e.key_address u))) [
  | inl new ↦
      rw new (rw (is_used-insert_used e.key_address e u) (rw (and_false t.track_usage) refl))
  | inr old ↦ rw old (ap (note_in e t) h ∙ rw old refl)
]

lookup-note_in :
    (key : Bytes) (category : Category) (e : TableEntry) (t : SymbolTable)
    (o : Option (List (ℕ × TableEntry)))
    → lookup key category (note_in e t o) ≡ lookup key category t
unfolding lookup
lookup-note_in key category e t none = refl
lookup-note_in key category e t (some u) =
    elim (Bool-cases (t.track_usage && not (is_used e.key_address u))) [
      | inl new ↦ rw new refl
      | inr old ↦ rw old refl
    ]

lookup-noted :
    (key : Bytes) (category : Category) (o : Option TableEntry) (t : SymbolTable)
    → lookup key category (noted o t) ≡ lookup key category t
unfolding note_usage
lookup-noted key category none t = refl
lookup-noted key category (some e) t = lookup-note_in key category e t t.used

noted-again : (o : Option TableEntry) (t : SymbolTable) → noted o (noted o t) ≡ noted o t
unfolding note_usage
noted-again none t = refl
noted-again (some e) t = note_in-again e t t.used refl

-- A second search for the same finds the same entry and changes nothing.
pub find-find :
    (key : Bytes) (category : Category) (t : SymbolTable)
    → find key category (find key category t).1 ≡ find key category t
unfolding find
find-find key category t =
    (λ i.
      let o = lookup-noted key category (lookup key category t) t i in
      (o, noted o (noted (lookup key category t) t)))
    ∙ (λ i. (lookup key category t, noted-again (lookup key category t) t i))

xrefs-noted : (o : Option TableEntry) (t : SymbolTable) → (noted o t).xrefs ≡ t.xrefs
unfolding note_usage
xrefs-noted none t = refl
xrefs-noted (some e) t = of t.used
  where
    of : (u : Option (List (ℕ × TableEntry))) → (note_in e t u).xrefs ≡ t.xrefs
    of none = refl
    of (some u) = elim (Bool-cases (t.track_usage && not (is_used e.key_address u))) [
      | inl new ↦ rw new refl
      | inr old ↦ rw old refl
    ]

nth_sentry-append :
    (es : List TableEntry) (e : TableEntry) → nth_sentry (es ++ e ∷ []) (length es) ≡ some e.sentry
nth_sentry-append [] e = refl
nth_sentry-append (d ∷ es) e = nth_sentry-append es e

nth_sentry-append_lt :
    (es ds : List TableEntry) (i : ℕ) → i < length es → nth_sentry (es ++ ds) i ≡ nth_sentry es i
nth_sentry-append_lt [] ds i h = absurd (omega arith)
nth_sentry-append_lt (d ∷ es) ds zero h = refl
nth_sentry-append_lt (d ∷ es) ds (suc i) h = nth_sentry-append_lt es ds i (omega arith)

-- A symbol that xref finds gets the next position in the open vector of cross references, where
-- getXRef finds it, the positions before it stay as they were, and closing the vector leaves what
-- was open around it.
pub get_xref-xref :
    (key : Bytes) (t : SymbolTable) (e : TableEntry) (refs : List TableEntry)
    (stack : List (List TableEntry))
    → lookup key unspec t ≡ some e
    → t.xrefs ≡ some (refs ∷ stack)
    → (t' : SymbolTable) × (xref key t ≡ some (some e, t'))
      × (get_xref t' (length refs) ≡ some e.sentry)
      × ((i : ℕ) → i < length refs → get_xref t' i ≡ get_xref t i)
      × ((close_xrefs t').xrefs ≡ some stack)
unfolding xref find get_xref close_xrefs
get_xref-xref key t e refs stack found opened = (
  record (note_usage e t) { xrefs = some ((refs ++ e ∷ []) ∷ stack) },
  ap (λ o. xref_found o (noted o t)) found
      ∙ ap (λ st. with_xrefs e (note_usage e t) (push_xref e (stack_of st)))
          (xrefs-noted (some e) t ∙ opened),
  nth_sentry-append refs e,
  λ i lt. rw opened (nth_sentry-append_lt refs (e ∷ []) i lt),
  refl,
)
