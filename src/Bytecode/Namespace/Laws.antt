-- ===== src/Bytecode/Namespace/Laws.antt =====
-- What the operations of the namespace stack undo of each other.
use yast_core.Prelude.{
  ℕ, suc, ◌+◌, ◌≤◌, ◌<◌, ◌≡◌, ◌≢◌, refl, ap, ◌∙◌, Bool, false, none, some, List, [], ◌∷◌, ◌++◌,
  length, length-append, All, ◌==◌, ltb, leb, if◌then◌else◌, arith, ==_refl, lt→ltb, Option-cases,
  inl, inr,
}
use yast_core.Prelude.Int.{pos, negsuc}
use yast_core.Bytecode.Namespace.{
  NamespaceEntry, NamespaceStack, XrefCall, minus, opened, closed, push_namespace, pop_top,
  pop_namespace, pop_until, pop_upto_namespace, tare_stack, untare_stack, id_from, namespace_id,
  namespace_at, namespace_ptr,
}

-- The tare level is not above the stack.
abbrev pub IsTared : NamespaceStack → Type 0
IsTared s = s.tare_level ≤ length s.entries

not_below : (n tare : ℕ) → tare ≤ n → leb (suc n) tare ≡ false
not_below n tare h = ground arith

-- Popping the namespace that was pushed succeeds and gives the stack back, with the cross
-- references closed if they were opened, for a namespace that is not null.
pub pop_namespace-push_namespace :
    (n : ℕ) (with_xrefs : Bool) (s : NamespaceStack)
    → IsTared s
    → (let e : NamespaceEntry = record { name_space = suc n; with_xrefs = with_xrefs } in
        pop_namespace (suc n) (push_namespace (suc n) with_xrefs s).1
        ≡ (pos 0, record s { calls = closed e (opened e s.calls) }))
unfolding pop_namespace pop_top push_namespace
pop_namespace-push_namespace n with_xrefs s h =
    rw (not_below (length s.entries) s.tare_level h, ==_refl (suc n)) refl

-- untareStack with the result of tareStack restores the stack.
pub untare_stack-tare_stack :
    (s : NamespaceStack) → IsTared s → (let (id, t) = tare_stack s in untare_stack id t ≡ s)
unfolding tare_stack untare_stack
untare_stack-tare_stack s h = ap (λ (t : ℕ). record s { tare_level = t }) (omega (arith, h))

ne_test : (a b : ℕ) → a ≢ b → (a == b) ≡ false
ne_test a b h = ground (arith, h)

-- The two ways in which the search succeeds.
found_here :
    (l tare m n i : ℕ)
    → (if ltb l tare then none else if m == n then some l else none) ≡ some i
    → (tare ≤ i) × (i ≡ l) × (m ≡ n)
found_here l tare m n i h = ground arith

found_below : (l tare j i : ℕ) → (if ltb l tare then none else some j) ≡ some i → i ≡ j
found_below l tare j i h = ground arith

-- What the search for a namespace says of the index that it finds.
id_from-at :
    (n tare i : ℕ) (es : List NamespaceEntry)
    → id_from n tare es ≡ some i
    → (tare ≤ i) × (i < length es) × (namespace_at i es ≡ n)
unfolding id_from namespace_at
id_from-at n tare i [] h = absurd cc
id_from-at n tare i (e ∷ es) h = elim (Option-cases (id_from n tare es)) [
  | inl none_there ↦
      let (above_tare, at_top, same) =
        found_here (length es) tare e.name_space n i (rw none_there at h) in
      (above_tare, omega (arith, at_top), rw (at_top, ==_refl (length es)) same)
  | inr (j, there) ↦
      let same = found_below (length es) tare j i (rw there at h) in
      let (above_tare, inside, leads) = id_from-at n tare j es there in
      (
        omega (arith, same, above_tare),
        omega (arith, same, inside),
        rw (ne_test i (length es) (λ eq. absurd (omega (arith, eq, same, inside))))
            (ap (λ k. namespace_at k es) same ∙ leads),
      )
]

no_id : {i : ℕ} → negsuc 0 ≡ pos i → ⊥
no_id h = absurd cc

id_sum : (j tare i : ℕ) → tare ≤ j → minus j tare ≡ pos i → i + tare ≡ j
id_sum j tare i h e = ground arith

-- The identifier of a namespace leads back to it, unless there is none.
pub namespace_ptr-namespace_id :
    (n i : ℕ) (s : NamespaceStack) → namespace_id n s ≡ pos i → namespace_ptr (pos i) s ≡ n
unfolding namespace_id namespace_ptr
namespace_ptr-namespace_id n i s h = elim (Option-cases (id_from n s.tare_level s.entries)) [
  | inl nothing ↦ absurd (no_id (rw (nothing, namespace_id) at h))
  | inr (j, there) ↦
      let (above_tare, inside, leads) = id_from-at n s.tare_level j s.entries there in
      let sum = id_sum j s.tare_level i above_tare (rw (there, namespace_id) at h) in
      rw (sum, lt→ltb j (length s.entries) inside) leads
]

pop_until-append :
    (n tare : ℕ) (above below : List NamespaceEntry) (w : Bool) (calls : List XrefCall)
    → All (λ e. e.name_space ≢ n) above
    → tare ≤ length below
    → (pop_until n tare (above ++ record { name_space = n; with_xrefs = w } ∷ below) calls).0
      ≡ below
unfolding pop_until
pop_until-append n tare [] below w calls h k = rw (not_below (length below) tare k, ==_refl n) refl
pop_until-append n tare (e ∷ above) below w calls h k =
    let top : NamespaceEntry = record { name_space = n; with_xrefs = w } in
    rw
      (
        not_below (length (above ++ top ∷ below)) tare
            (omega (arith, k, length-append above (top ∷ below))),
        ne_test e.name_space n h.0,
      )
      (pop_until-append n tare above below w (closed e calls) h.1 k)

-- popUptoNamespace leaves what is below the topmost entry of the namespace, if that entry is not
-- below the tare level.
pub pop_upto_namespace-append :
    (n : ℕ) (above below : List NamespaceEntry) (with_xrefs : Bool) (s : NamespaceStack)
    → s.entries ≡ above ++ record { name_space = suc n; with_xrefs = with_xrefs } ∷ below
    → All (λ e. e.name_space ≢ suc n) above
    → s.tare_level ≤ length below
    → (pop_upto_namespace (suc n) s).entries ≡ below
unfolding pop_upto_namespace
pop_upto_namespace-append n above below with_xrefs s e h k =
    rw e (pop_until-append (suc n) s.tare_level above below with_xrefs s.calls h k)
