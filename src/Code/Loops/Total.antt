-- ===== src/Code/Loops/Total.antt =====
-- While loops that end.
use yast_core.Prelude.{
  ℕ, zero, suc, ◌+◌, ◌≡◌, ◌≢◌, ◌<◌, ◌≤◌, ◌⊎◌, inl, inr, refl, ap, ◌∙◌, true, false, arith,
}
use yast_core.Values.Defs.{Value, null, void, boolean}
use yast_core.Code.Syntax.{Code, while_loop, Body}
use yast_core.Code.State.{State}
use yast_core.Code.Outcome.{Outcome, done, no_fuel}
use yast_core.Code.Eval.{Machine, evaluate, execute, run_body}
use yast_core.Code.Fuel.Eval.{evaluate-add_fuel, run_body-add_fuel}

-- What has to be shown of one round from a state that satisfies `Inv`: with `fuel` for its parts,
-- the condition is false and `Post` holds, or it is true and the body ends normally or with
-- `continue`, in a state that satisfies `Inv` and has a smaller measure.
abbrev pub Round :
    (mc : Machine) (fuel : ℕ) (c : Code) (b : Body) (Inv Post : State → Type 0)
    (measure : State → ℕ)
    → State
    → Type 0
Round mc fuel c b Inv Post measure s =
    ((t : State) × (evaluate mc fuel c s ≡ done (boolean false) t) × Post t)
    ⊎ ((t : State) × (u : State) × (v : Value) × (evaluate mc fuel c s ≡ done (boolean true) t)
        × (run_body mc fuel b t ≡ done v u)
        × ((v ≡ null) ⊎ (v ≡ void))
        × Inv u
        × (measure u < measure s))

done-ne : (o : Outcome) (v : Value) (s : State) → o ≡ done v s → o ≢ no_fuel
done-ne o v s e z = cc

module _ (mc : Machine) (fuel : ℕ) (c : Code) (b : Body) where
  more_condition :
      (k : ℕ) (s t : State) (v : Value)
      → evaluate mc fuel c s ≡ done v t
      → evaluate mc (k + fuel) c s ≡ done v t
  more_condition k s t v e = evaluate-add_fuel mc k fuel c s (done-ne _ v t e) ∙ e

  more_body :
      (k : ℕ) (s t : State) (v : Value)
      → run_body mc fuel b s ≡ done v t
      → run_body mc (k + fuel) b s ≡ done v t
  more_body k s t v e = run_body-add_fuel mc k fuel b s (done-ne _ v t e) ∙ e

  while_false :
      (k : ℕ) (s t : State)
      → evaluate mc fuel c s ≡ done (boolean false) t
      → execute mc (suc (k + fuel)) (while_loop c b) s ≡ done null t
  unfolding evaluate
  while_false k s t e = rw (more_condition k s t (boolean false) e) refl

  while_true :
      (k : ℕ) (s t u : State) (v : Value)
      → evaluate mc fuel c s ≡ done (boolean true) t
      → run_body mc fuel b t ≡ done v u
      → (v ≡ null) ⊎ (v ≡ void)
      → execute mc (suc (k + fuel)) (while_loop c b) s ≡ execute mc (k + fuel) (while_loop c b) u
  unfolding evaluate
  while_true k s t u v e d (inl n) =
      rw (more_condition k s t (boolean true) e, more_body k t u v d, n) refl
  while_true k s t u v e d (inr n) =
      rw (more_condition k s t (boolean true) e, more_body k t u v d, n) refl

  while_within :
      (Inv Post : State → Type 0) (measure : State → ℕ) (k : ℕ) (s : State)
      → ((s : State) → Inv s → Round mc fuel c b Inv Post measure s)
      → Inv s
      → measure s ≤ k
      → (t : State) × (execute mc (suc (k + fuel)) (while_loop c b) s ≡ done null t) × Post t
  while_within Inv Post measure zero s round i le = elim (round s i) [
    | inl (t, e, p) ↦ (t, while_false 0 s t e, p)
    | inr (t, u, v, e, d, n, j, lt) ↦ absurd (omega arith)
  ]
  while_within Inv Post measure (suc k) s round i le = elim (round s i) [
    | inl (t, e, p) ↦ (t, while_false (suc k) s t e, p)
    | inr (t, u, v, e, d, n, j, lt) ↦
        let (r, g, p) = while_within Inv Post measure k u round j (omega arith) in
        let one : suc k + fuel ≡ suc (k + fuel) = omega arith in
        (r, while_true (suc k) s t u v e d n ∙ ap (λ m. execute mc m (while_loop c b) u) one ∙ g, p)
  ]

-- A while loop ends with null, in a state that satisfies `Post`, if each round from a state that
-- satisfies the invariant ends with `Post` or keeps the invariant and makes the measure smaller:
-- one unit of fuel for each round and what a round needs are enough.
pub while_loop_total :
    (mc : Machine) (fuel : ℕ) (c : Code) (b : Body) (Inv Post : State → Type 0)
    (measure : State → ℕ) (s : State)
    → ((s : State) → Inv s → Round mc fuel c b Inv Post measure s)
    → Inv s
    → (t : State) × (execute mc (suc (measure s + fuel)) (while_loop c b) s ≡ done null t) × Post t
while_loop_total mc fuel c b Inv Post measure s round i =
    while_within mc fuel c b Inv Post measure (measure s) s round i (omega arith)
