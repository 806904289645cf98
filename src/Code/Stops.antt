-- ===== src/Code/Stops.antt =====
-- Evaluation that has enough fuel, and leaves the number of call frames as it was.
pub mod Calls
pub mod Eval
pub mod Limit
use yast_core.Prelude.{ℕ, ◌+◌, ◌≡◌, refl, ◌∙◌, arith}
use yast_core.Values.Defs.{Value}
use yast_core.Code.State.{State}
use yast_core.Code.Outcome.{Outcome, done, fault, no_fuel, ◌>>=◌}
use yast_core.Code.Steps.Rules.{Accepts}

unfoldable pub Stops : State → Outcome → Type 0
Stops s (done v t) = t.frames ≡ s.frames
Stops s fault = Unit
Stops s no_fuel = ⊥

module _ (limit : ℕ) where
  -- `d` more calls may be open at once.
  abbrev pub Within : ℕ → State → Type 0
  Within d s = s.frames + d ≡ limit

  pub Stops-rules : (d : ℕ) (s : State) → Within d s → Accepts (Stops s) s
  unfolding Stops
  Stops-rules d s r = record { at_done = λ v. refl; at_fault = tt; at_set_value = λ n v. refl }

  pub Stops-bind :
      (d : ℕ) (s : State) (m : Outcome) (k : Value × State → Outcome)
      → Within d s
      → Stops s m
      → ((v : Value) (t : State) → Within d t → Stops t (k (v, t)))
      → Stops s (m >>= k)
  unfolding Stops
  Stops-bind d s (done v t) k w h r = Stops-trans (k (v, t)) (r v t (omega (arith, h, w)))
    where
      Stops-trans : (o : Outcome) → Stops t o → Stops s o
      Stops-trans (done w u) q = q ∙ h
      Stops-trans fault q = tt
      Stops-trans no_fuel q = q
  Stops-bind d s fault k w h r = tt
  Stops-bind d s no_fuel k w h r = h

-- Where what stands around the part leaves the number of frames.
pub Stops-left :
    (s s' : State) (m : Outcome) (result : Value → Value) (restore : State → State)
    → s'.frames ≡ s.frames
    → ((t : State) → (restore t).frames ≡ t.frames)
    → Stops s' m
    → Stops s (m >>= λ (v, t). done (result v) (restore t))
unfolding Stops
Stops-left s s' (done v t) result restore e r h = r t ∙ h ∙ e
Stops-left s s' fault result restore e r h = tt
Stops-left s s' no_fuel result restore e r h = h
