-- ===== src/Code/Stops/Calls.antt =====
-- Blocks and calls have enough fuel where their statements and definitions do.
use yast_core.Prelude.{
  ◌↔◌, ℕ, zero, suc, ◌≡◌, refl, ◌∙◌, Bool, true, false, not, ◌&&◌, List, [], ◌∷◌, Option, none,
  some, ◌==◌, if◌then◌else◌, ==_iff, arith,
}
use yast_core.Values.Defs.{Value, Values, null, void, nil, cons, list}
use yast_core.Code.Syntax.{Code, YcpFunction}
use yast_core.Code.State.{State, push_to_stack, set_value}
use yast_core.Code.State.Stacks.{frames-push_to_stack, frames-pop_from_stack}
use yast_core.Code.Outcome.{Outcome, done, fault, no_fuel, ◌>>=◌}
use yast_core.Code.Steps.{
  enter, enter_from, leave, set_parameters, call_with, evaluate_call, push_frame, pop_frame,
  call_function,
}
use yast_core.Code.Stops.{Stops, Stops-left, Within}

frames-if : (b : Bool) (s t : State) → s.frames ≡ t.frames → (if b then s else t).frames ≡ t.frames
frames-if true s t h = h
frames-if false s t h = refl

pub frames-enter :
    (is_module : Bool) (b : ℕ) (ns : List ℕ) (s : State)
    → (enter is_module b ns s).frames ≡ s.frames
unfolding enter
frames-enter is_module b ns s =
    frames-if (not is_module && s.running b) (push_to_stack ns s) s (frames-push_to_stack ns s)

pub frames-enter_from : (b : ℕ) (ns : List ℕ) (s : State) → (enter_from b ns s).frames ≡ s.frames
unfolding enter_from
frames-enter_from b ns s =
    frames-if (s.running b) (push_to_stack ns s) s (frames-push_to_stack ns s)

pub frames-leave :
    (is_module : Bool) (b : ℕ) (ns : List ℕ) (old : Bool) (s : State)
    → (leave is_module b ns old s).frames ≡ s.frames
unfolding leave
frames-leave true b ns old s = refl
frames-leave false b ns true s = frames-pop_from_stack ns _
frames-leave false b ns false s = refl

frames-set_parameters :
    (ns : List ℕ) (vs : Values) (s : State) → ((set_parameters ns vs s).1).frames ≡ s.frames
unfolding set_parameters
frames-set_parameters [] vs s = refl
frames-set_parameters (n ∷ ns) nil s = refl
frames-set_parameters (n ∷ ns) (cons null vs) s = refl
frames-set_parameters (n ∷ ns) (cons v vs) s = frames-set_parameters ns vs (set_value n v s)

module _ (limit : ℕ) where
  call_with-Stops :
      (d : ℕ) (ns : List ℕ) (body : State → Outcome) (s : State) (r : Bool × State)
      → Within limit d s
      → ((r.1).frames ≡ s.frames)
      → ((t : State) → Within limit d t → Stops t (body t))
      → Stops s (call_with ns body r)
  unfolding Stops
  call_with-Stops d ns body s (false, t) w e h = frames-pop_from_stack ns t ∙ e
  call_with-Stops d ns body s (true, t) w e h =
      Stops-left s t (body t) _ _ e (frames-pop_from_stack ns) (h t (omega (arith, e, w)))

  pub evaluate_call-Stops :
      (d : ℕ) (fn : YcpFunction) (run : Code → State → Outcome) (vs : Values) (s : State)
      → Within limit d s
      → ((c : Code) → fn.definition ≡ some c → (t : State) → Within limit d t → Stops t (run c t))
      → Stops s (evaluate_call fn run vs s)
  unfolding evaluate_call Stops
  evaluate_call-Stops d fn run vs s w h = by_definition fn.definition h
    where
      by_definition :
          (o : Option Code)
          → ((c : Code) → o ≡ some c → (t : State) → Within limit d t → Stops t (run c t))
          → Stops s (elim o [
            | none ↦ done null (push_to_stack fn.parameters s)
            | some c ↦
                call_with fn.parameters
                  (run c)
                  (set_parameters fn.parameters vs (push_to_stack fn.parameters s))
          ])
      by_definition none h = frames-push_to_stack fn.parameters s
      by_definition (some c) h =
          call_with-Stops d fn.parameters (run c) s _ w
            (frames-set_parameters fn.parameters vs (push_to_stack fn.parameters s)
              ∙ frames-push_to_stack fn.parameters s)
            (h c refl)

  Stops-pop_frame :
      (s : State) (m : Outcome)
      → Stops (push_frame s) m
      → Stops s (m >>= λ (v, s₁). done v (pop_frame s₁))
  unfolding Stops
  Stops-pop_frame s (done v t) h = omega (arith, h)
  Stops-pop_frame s fault h = tt
  Stops-pop_frame s no_fuel h = h

  -- A call at the limit is refused; below it, one frame less is left to the definition.
  pub call_function-Stops :
      (d : ℕ) (fn : YcpFunction) (run : Code → State → Outcome) (v : Value) (s : State)
      → Within limit d s
      → ((d' : ℕ)
          → d ≡ suc d'
          → (c : Code) → fn.definition ≡ some c
          → (t : State) → Within limit d' t
          → Stops t (run c t))
      → Stops s (call_function limit fn run v s)
  unfolding call_function Stops
  call_function-Stops d fn run (list vs) s w h =
      by_limit (s.frames == limit) d w (==_iff s.frames limit) h
    where
      by_limit :
          (b : Bool) (d : ℕ)
          → Within limit d s
          → (b ≡ true) ↔ (s.frames ≡ limit)
          → ((d' : ℕ)
              → d ≡ suc d'
              → (c : Code) → fn.definition ≡ some c
              → (t : State) → Within limit d' t
              → Stops t (run c t))
          → Stops s (
              if b
              then done void s
              else evaluate_call fn run vs (push_frame s) >>= λ (v, s₁). done v (pop_frame s₁))
      by_limit true d w e h = refl
      by_limit false zero w e h = ground arith
      by_limit false (suc d) w e h =
          Stops-pop_frame s _
            (evaluate_call-Stops d fn run vs (push_frame s) (omega (arith, w)) (h d refl))
  call_function-Stops d fn run v s w h = refl
