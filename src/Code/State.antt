-- ===== src/Code/State.antt =====
-- The state that evaluation changes: the symbol entries (liby2/src/SymbolEntry.cc) with the stacks
-- for recursion (Y2Namespace::pushToStack), the running flags of the blocks, and the number of call
-- frames (libycp/src/ExecutionEnvironment.cc). The execution environment's file names and lines
-- serve the messages only.
pub mod Stacks
use yast_core.Prelude.{ℕ, Bool, List, [], ◌∷◌, ◌==◌, if◌then◌else◌}
use yast_core.Values.Defs.{Value, null, void}

pub record State : Type 0 where
  pub value_of : ℕ → Value
  pub stack_of : ℕ → List Value
  pub running : ℕ → Bool
  pub frames : ℕ

abbrev pub update {ℓ} : {A : Type ℓ} → (ℕ → A) → ℕ → A → ℕ → A
update f n v j = if j == n then v else f j

-- What most users of a null value put in its place.
abbrev pub void_if_null : Value → Value
void_if_null null = void
void_if_null v = v

-- SymbolEntry::setValue, for an entry that is no reference.
abbrev pub set_value : ℕ → Value → State → State
set_value n v s = record s { value_of = update s.value_of n (void_if_null v) }

-- SymbolEntry::push and pop. An entry that has no stack is left as it is; one with an empty stack,
-- which pops without pushes would leave, is here the same.
abbrev pub push : ℕ → State → State
push n s = record s { stack_of = update s.stack_of n (s.value_of n ∷ s.stack_of n) }

abbrev pop_to : ℕ → List Value → State → State
pop_to n [] s = s
pop_to n (v ∷ vs) s = record s {
  value_of = update s.value_of n v;
  stack_of = update s.stack_of n vs;
}

abbrev pub pop : ℕ → State → State
pop n s = pop_to n (s.stack_of n) s

-- Y2Namespace::pushToStack and popFromStack over the variables of a block, and the same for the
-- parameters of a function.
unfoldable pub push_to_stack : List ℕ → State → State
push_to_stack [] s = s
push_to_stack (n ∷ ns) s = push_to_stack ns (push n s)

unfoldable pub pop_from_stack : List ℕ → State → State
pop_from_stack [] s = s
pop_from_stack (n ∷ ns) s = pop_from_stack ns (pop n s)

abbrev pub set_running : ℕ → Bool → State → State
set_running b r s = record s { running = update s.running b r }
