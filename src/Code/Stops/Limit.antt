-- ===== src/Code/Stops/Limit.antt =====
-- The recursion limit makes evaluation end.
use yast_core.Prelude.{ℕ, zero, suc, ◌+◌, ◌-◌, ◌*◌, ◌≡◌, ◌≢◌, ◌≤◌, ap, subst, ◌∙◌, arith}
use native.Mathlib.Nat.{suc-mul}
use yast_core.Code.Syntax.{Code}
use yast_core.Code.State.{State}
use yast_core.Code.Outcome.{Outcome, no_fuel}
use yast_core.Code.Eval.{Machine, evaluate}
use yast_core.Code.LoopFree.{IsLoopFree, code_size}
use yast_core.Code.Stops.{Stops}
use yast_core.Code.Stops.Eval.{AreLoopFreeFunctions, room, evaluate-Stops}

room-mul : (bound d : ℕ) → room bound d ≡ d * bound
unfolding room
room-mul bound zero = omega arith
room-mul bound (suc d) = ap (λ m. bound + m) (room-mul bound d) ∙ omega (arith, suc-mul d bound)

Stops-ne : (s : State) (o : Outcome) → Stops s o → o ≢ no_fuel
unfolding Stops
Stops-ne s o h e = subst (Stops s) e h

-- Evaluation of code without loops ends, however the functions that it calls recur, if none of
-- their definitions has a loop: with as many units of fuel as the code has nodes, and `bound` more
-- for each call that the recursion limit still allows, the fuel is enough, where `bound` is as
-- large as the largest definition.
pub evaluate-ne-no_fuel :
    (mc : Machine) (bound f : ℕ) (c : Code) (s : State)
    → AreLoopFreeFunctions bound mc
    → IsLoopFree c
    → s.frames ≤ mc.recursion_limit
    → code_size c + (mc.recursion_limit - s.frames) * bound ≤ f
    → evaluate mc f c s ≢ no_fuel
evaluate-ne-no_fuel mc bound f c s free h w le = Stops-ne s (evaluate mc f c s) (
    evaluate-Stops mc bound free (mc.recursion_limit - s.frames) f c h
      (omega (arith, le, room-mul bound (mc.recursion_limit - s.frames))) s (omega (arith, w)))
