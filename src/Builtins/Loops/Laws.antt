-- ===== src/Builtins/Loops/Laws.antt =====
-- The loops, for code that tests its element.
use yast_core.Prelude.{ℕ, ◌≡◌, refl, ap, ◌∙◌, Bool, if◌then◌else◌, Bool-cases, inl, inr}
use yast_core.Values.Defs.{Value, Values, null, boolean, list, nil, cons}
use yast_core.Values.List.{push_back, append_all}
use yast_core.Values.List.Laws.{append_all-nil}
use yast_core.Code.State.{State, set_value}
use yast_core.Code.Outcome.{Outcome, done}
use yast_core.Builtins.Loops.{l_find, l_filter}

-- The elements that satisfy the test, in order.
unfoldable pub satisfying : (Value → Bool) → Values → Values
satisfying p nil = nil
satisfying p (cons v vs) = if p v then cons v (satisfying p vs) else satisfying p vs

abbrev pub first_of : Values → Value
first_of nil = null
first_of (cons v vs) = v

-- From any state the code ends, with the test's result for the value that the entry has.
abbrev pub Tests : (s : ℕ) (expr : State → Outcome) (p : Value → Bool) → Type 0
Tests s expr p =
    (v : Value) (t : State) → (u : State) × (expr (set_value s v t) ≡ done (boolean (p v)) u)

module _ (s : ℕ) (expr : State → Outcome) (p : Value → Bool) (tests : Tests s expr p) where
  l_filter-satisfying :
      (vs ret : Values) (t : State)
      → (u : State) × (l_filter s expr vs ret t ≡ done (list (append_all ret (satisfying p vs))) u)
  unfolding l_filter satisfying append_all
  l_filter-satisfying nil ret t = (t, refl)
  l_filter-satisfying (cons v vs) ret t =
      let (u, e) = tests v t in
      elim (Bool-cases (p v)) [
        | inl k ↦ let (r, d) = l_filter-satisfying vs (push_back ret v) u in (r, rw (e, k) d)
        | inr k ↦ let (r, d) = l_filter-satisfying vs ret u in (r, rw (e, k) d)
      ]

  l_find-satisfying :
      (vs : Values) (t : State)
      → (u : State) × (l_find s expr vs t ≡ done (first_of (satisfying p vs)) u)
  unfolding l_find satisfying
  l_find-satisfying nil t = (t, refl)
  l_find-satisfying (cons v vs) t =
      let (u, e) = tests v t in
      elim (Bool-cases (p v)) [
        | inl k ↦ (u, rw (e, k) refl)
        | inr k ↦ let (r, d) = l_find-satisfying vs u in (r, rw (e, k) d)
      ]

  -- For code that ends with a boolean, whatever else it changes, filter gives the elements for which
  -- it is true, in their order, and find the first of these, or null.
  pub l_filter-l_find :
      (vs : Values) (t : State)
      → ((u : State) × (l_filter s expr vs nil t ≡ done (list (satisfying p vs)) u))
        × ((u : State) × (l_find s expr vs t ≡ done (first_of (satisfying p vs)) u))
  l_filter-l_find vs t =
      let (u, e) = l_filter-satisfying vs nil t in
      (
        (u, e ∙ ap (λ x. done (list x) u) (append_all-nil (satisfying p vs))),
        l_find-satisfying vs t,
      )
