-- ===== src/Code/State/Stacks.antt =====
-- The stacks for recursion: what is pushed is popped again.
use yast_core.Prelude.{
  ℕ, zero, suc, ◌≡◌, ◌<◌, refl, ap, ap₂, ◌∙◌, List, [], ◌∷◌, ◌==◌, arith, if◌then◌else◌,
}
use yast_core.Values.Defs.{Value}
use yast_core.Code.State.{State, push, pop_to, pop, push_to_stack, pop_from_stack}

-- How often an entry is among the variables.
unfoldable pub count : ℕ → List ℕ → ℕ
count j [] = 0
count j (n ∷ ns) = if j == n then suc (count j ns) else count j ns

unfoldable pub repeat : ℕ → Value → List Value → List Value
repeat zero v vs = vs
repeat (suc k) v vs = repeat k v (v ∷ vs)

abbrev drop_first : List Value → List Value
drop_first [] = []
drop_first (v ∷ vs) = vs

unfoldable pub drop : ℕ → List Value → List Value
drop zero vs = vs
drop (suc k) vs = drop k (drop_first vs)

abbrev first_or : Value → List Value → Value
first_or v [] = v
first_or v (w ∷ ws) = w

-- What is left in an entry after `k` pops.
unfoldable pub popped : ℕ → Value → List Value → Value
popped zero w vs = w
popped (suc k) w vs = popped k (first_or w vs) (drop_first vs)

repeat-cons : (k : ℕ) (v : Value) (vs : List Value) → repeat k v (v ∷ vs) ≡ v ∷ repeat k v vs
unfolding repeat
repeat-cons zero v vs = refl
repeat-cons (suc k) v vs = repeat-cons k v (v ∷ vs)

drop-repeat : (k : ℕ) (v : Value) (vs : List Value) → drop k (repeat k v vs) ≡ vs
unfolding repeat drop
drop-repeat zero v vs = refl
drop-repeat (suc k) v vs = ap (λ l. drop k (drop_first l)) (repeat-cons k v vs) ∙ drop-repeat k v vs

popped-repeat : (k : ℕ) (v : Value) (vs : List Value) → popped k v (repeat k v vs) ≡ v
unfolding repeat popped
popped-repeat zero v vs = refl
popped-repeat (suc k) v vs =
    ap (λ l. popped k (first_or v l) (drop_first l)) (repeat-cons k v vs) ∙ popped-repeat k v vs

pub value_of-push_to_stack : (ns : List ℕ) (s : State) → (push_to_stack ns s).value_of ≡ s.value_of
unfolding push_to_stack
value_of-push_to_stack [] s = refl
value_of-push_to_stack (n ∷ ns) s = value_of-push_to_stack ns (push n s)

pub running-push_to_stack : (ns : List ℕ) (s : State) → (push_to_stack ns s).running ≡ s.running
unfolding push_to_stack
running-push_to_stack [] s = refl
running-push_to_stack (n ∷ ns) s = running-push_to_stack ns (push n s)

pub frames-push_to_stack : (ns : List ℕ) (s : State) → (push_to_stack ns s).frames ≡ s.frames
unfolding push_to_stack
frames-push_to_stack [] s = refl
frames-push_to_stack (n ∷ ns) s = frames-push_to_stack ns (push n s)

running-pop_to : (n : ℕ) (vs : List Value) (s : State) → (pop_to n vs s).running ≡ s.running
running-pop_to n [] s = refl
running-pop_to n (v ∷ vs) s = refl

frames-pop_to : (n : ℕ) (vs : List Value) (s : State) → (pop_to n vs s).frames ≡ s.frames
frames-pop_to n [] s = refl
frames-pop_to n (v ∷ vs) s = refl

pub running-pop_from_stack : (ns : List ℕ) (s : State) → (pop_from_stack ns s).running ≡ s.running
unfolding pop_from_stack
running-pop_from_stack [] s = refl
running-pop_from_stack (n ∷ ns) s =
    running-pop_from_stack ns (pop n s) ∙ running-pop_to n (s.stack_of n) s

pub frames-pop_from_stack : (ns : List ℕ) (s : State) → (pop_from_stack ns s).frames ≡ s.frames
unfolding pop_from_stack
frames-pop_from_stack [] s = refl
frames-pop_from_stack (n ∷ ns) s =
    frames-pop_from_stack ns (pop n s) ∙ frames-pop_to n (s.stack_of n) s

pub stack_of-push_to_stack :
    (ns : List ℕ) (s : State) (j : ℕ)
    → (push_to_stack ns s).stack_of j ≡ repeat (count j ns) (s.value_of j) (s.stack_of j)
unfolding push_to_stack count repeat
stack_of-push_to_stack [] s j = refl
stack_of-push_to_stack (n ∷ ns) s j = stack_of-push_to_stack ns (push n s) j ∙ grind arith

stack_of-pop_to :
    (n j : ℕ) (vs : List Value) (s : State)
    → vs ≡ s.stack_of n
    → (pop_to n vs s).stack_of j ≡ (if j == n then drop_first (s.stack_of j) else s.stack_of j)
stack_of-pop_to n j [] s h = grind arith
stack_of-pop_to n j (v ∷ vs) s h = grind arith

value_of-pop_to :
    (n j : ℕ) (vs : List Value) (s : State)
    → vs ≡ s.stack_of n
    → (pop_to n vs s).value_of j
      ≡ (if j == n then first_or (s.value_of j) (s.stack_of j) else s.value_of j)
value_of-pop_to n j [] s h = grind arith
value_of-pop_to n j (v ∷ vs) s h = grind arith

pub stack_of-pop_from_stack :
    (ns : List ℕ) (s : State) (j : ℕ)
    → (pop_from_stack ns s).stack_of j ≡ drop (count j ns) (s.stack_of j)
unfolding pop_from_stack count drop
stack_of-pop_from_stack [] s j = refl
stack_of-pop_from_stack (n ∷ ns) s j =
    stack_of-pop_from_stack ns (pop n s) j
    ∙ ap (drop (count j ns)) (stack_of-pop_to n j (s.stack_of n) s refl)
    ∙ grind arith

pub value_of-pop_from_stack :
    (ns : List ℕ) (s : State) (j : ℕ)
    → (pop_from_stack ns s).value_of j ≡ popped (count j ns) (s.value_of j) (s.stack_of j)
unfolding pop_from_stack count popped
value_of-pop_from_stack [] s j = refl
value_of-pop_from_stack (n ∷ ns) s j =
    value_of-pop_from_stack ns (pop n s) j
    ∙ ap₂ (popped (count j ns)) (value_of-pop_to n j (s.stack_of n) s refl)
        (stack_of-pop_to n j (s.stack_of n) s refl)
    ∙ grind arith

-- Where the stacks are again as they were behind the pushes, the pops restore them.
pub stack_of-pop_from_stack-push_to_stack :
    (ns : List ℕ) (s s' : State) (j : ℕ)
    → s'.stack_of j ≡ (push_to_stack ns s).stack_of j
    → (pop_from_stack ns s').stack_of j ≡ s.stack_of j
stack_of-pop_from_stack-push_to_stack ns s s' j h =
    stack_of-pop_from_stack ns s' j
    ∙ ap (drop (count j ns)) (h ∙ stack_of-push_to_stack ns s j)
    ∙ drop-repeat (count j ns) (s.value_of j) (s.stack_of j)

popped-repeat_suc : (k : ℕ) (v w : Value) (vs : List Value) → 0 < k → popped k w (repeat k v vs) ≡ v
unfolding repeat popped
popped-repeat_suc zero v w vs h = absurd (omega arith)
popped-repeat_suc (suc k) v w vs h =
    ap (λ l. popped k (first_or w l) (drop_first l)) (repeat-cons k v vs) ∙ popped-repeat k v vs

-- And they restore the entries, too.
pub value_of-pop_from_stack-push_to_stack :
    (ns : List ℕ) (s s' : State) (j : ℕ)
    → 0 < count j ns
    → s'.stack_of j ≡ (push_to_stack ns s).stack_of j
    → (pop_from_stack ns s').value_of j ≡ s.value_of j
value_of-pop_from_stack-push_to_stack ns s s' j c h =
    value_of-pop_from_stack ns s' j
    ∙ ap (popped (count j ns) (s'.value_of j)) (h ∙ stack_of-push_to_stack ns s j)
    ∙ popped-repeat_suc (count j ns) (s.value_of j) (s'.value_of j) (s.stack_of j) c
