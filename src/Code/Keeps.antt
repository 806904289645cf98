-- ===== src/Code/Keeps.antt =====
-- Evaluation gives back what it takes of the state for recursion: the stacks, the running flags and
-- the call frames.
pub mod Calls
pub mod Eval
pub mod Recursion
use yast_core.Prelude.{ℕ, ◌≡◌, refl, ◌∙◌}
use yast_core.Values.Defs.{Value}
use yast_core.Code.State.{State}
use yast_core.Code.Steps.Rules.{Accepts}
use yast_core.Code.Outcome.{Outcome, done, fault, no_fuel, ◌>>=◌, Ends}

-- Both states have the same stacks, running flags and number of frames.
pub record Same (s s' : State) : Type 0 where
  pub stacks : (n : ℕ) → s'.stack_of n ≡ s.stack_of n
  pub flags : (n : ℕ) → s'.running n ≡ s.running n
  pub depth : s'.frames ≡ s.frames

pub Same-refl : (s : State) → Same s s
Same-refl s = record { stacks = λ n. refl; flags = λ n. refl; depth = refl }

pub Same-trans : {s t u : State} → Same s t → Same t u → Same s u
Same-trans p q = record {
  stacks = λ n. q.stacks n ∙ p.stacks n;
  flags = λ n. q.flags n ∙ p.flags n;
  depth = q.depth ∙ p.depth;
}

unfoldable pub Keeps : State → Outcome → Type 0
Keeps s o = Ends (λ v s'. Same s s') o

pub Keeps-done : (s : State) (v : Value) → Keeps s (done v s)
unfolding Keeps
Keeps-done s v = Same-refl s

pub Keeps-rules : (s : State) → Unit {0} → Accepts (Keeps s) s
unfolding Keeps
Keeps-rules s r = record {
  at_done = λ v. Same-refl s;
  at_fault = tt;
  at_set_value = λ n v. record { stacks = λ j. refl; flags = λ j. refl; depth = refl };
}

-- Where the part is followed by code that keeps them from any state.
pub Keeps-bind :
    (s : State) (m : Outcome) (k : Value × State → Outcome)
    → Keeps s m
    → ((v : Value) (t : State) → Unit {0} → Keeps t (k (v, t)))
    → Keeps s (m >>= k)
unfolding Keeps
Keeps-bind s (done v t) k h r = Keeps-trans s t (k (v, t)) h (r v t tt)
  where
    Keeps-trans : (s t : State) (o : Outcome) → Same s t → Keeps t o → Keeps s o
    Keeps-trans s t (done w u) p q = Same-trans p q
    Keeps-trans s t fault p q = tt
    Keeps-trans s t no_fuel p q = tt
Keeps-bind s fault k h r = tt
Keeps-bind s no_fuel k h r = tt

-- Where what follows takes the changes of `s'` back.
pub Keeps-left :
    (s s' : State) (m : Outcome) (result : Value → Value) (restore : State → State)
    → Keeps s' m
    → ((t : State) → Same s' t → Same s (restore t))
    → Keeps s (m >>= λ (v, t). done (result v) (restore t))
unfolding Keeps
Keeps-left s s' (done v t) result restore h r = r t h
Keeps-left s s' fault result restore h r = tt
Keeps-left s s' no_fuel result restore h r = tt
