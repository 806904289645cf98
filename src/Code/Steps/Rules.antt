-- ===== src/Code/Steps/Rules.antt =====
-- A property of a state and an outcome that holds of the end in a state, of a fault and of an assignment passes
-- from the parts of code to what stands between them.
use yast_core.Prelude.{ℕ, Bool, true, false, not, ◌&&◌, Option, none, some, if◌then◌else◌}
use yast_core.Values.Defs.{Value, Pairs, Doubles, null, void, boolean, list, return_value}
use yast_core.Values.Map
use yast_core.Code.State.{State, void_if_null, set_value}
use yast_core.Code.Outcome.{Outcome, done, fault, ended}
use yast_core.Code.Convert.{is_nil}
use yast_core.Code.Bracket.{select, commit}
use yast_core.Code.Steps.{
  unless_null, branch, choose, while_test, after_while, after_body, until_test, do_test, while_null,
  truth, or_else, and_also, checked, key_or_null, add_pair, structure, access, store,
  assign_bracket,
}

-- The property for one state.
pub record Accepts (P : Outcome → Type 0) (s : State) : Type 0 where
  pub at_done : (v : Value) → P (done v s)
  pub at_fault : P fault
  pub at_set_value : (n : ℕ) (v : Value) → P (done null (set_value n v s))

module _ {R : State → Type 0} {P : State → Outcome → Type 0}
    (acc : (s : State) → R s → Accepts (P s) s) where
  -- Parts that have the property in the states that satisfy `R`.
  abbrev Kept : (State → Outcome) → Type 0
  Kept k = (s : State) → R s → P s (k s)

  abbrev KeptFor : (Value → State → Outcome) → Type 0
  KeptFor k = (v : Value) (s : State) → R s → P s (k v s)

  either : (b : Bool) (s : State) (o p : Outcome) → P s o → P s p → P s (if b then o else p)
  either true s o p h k = h
  either false s o p h k = k

  pub ended_rule : (o : Option Value) (s : State) → R s → P s (ended o s)
  ended_rule none s r = (acc s r).at_fault
  ended_rule (some v) s r = (acc s r).at_done v

  pub unless_null_rule : (k : Value → State → Outcome) → KeptFor k → KeptFor (unless_null k)
  unless_null_rule k h null s r = (acc s r).at_done null
  unless_null_rule k h v s r = h v s r

  pub branch_rule : (a b : State → Outcome) → Kept a → Kept b → KeptFor (branch a b)
  branch_rule a b h k null s r = (acc s r).at_done null
  branch_rule a b h k (boolean true) s r = h s r
  branch_rule a b h k v s r = k s r

  pub choose_rule : (a b : State → Outcome) → Kept a → Kept b → KeptFor (choose a b)
  choose_rule a b h k (boolean true) s r = h s r
  choose_rule a b h k (boolean false) s r = k s r
  choose_rule a b h k v s r = either (is_nil v) s _ _ (k s r) ((acc s r).at_done null)

  pub while_test_rule : (a : State → Outcome) → Kept a → KeptFor (while_test a)
  while_test_rule a h (boolean true) s r = h s r
  while_test_rule a h v s r = (acc s r).at_done null

  pub after_while_rule : (a : State → Outcome) → Kept a → KeptFor (after_while a)
  after_while_rule a h null s r = h s r
  after_while_rule a h void s r = h s r
  after_while_rule a h v s r = (acc s r).at_done _

  pub after_body_rule : (a : State → Outcome) → Kept a → KeptFor (after_body a)
  after_body_rule a h null s r = h s r
  after_body_rule a h void s r = h s r
  after_body_rule a h return_value s r = h s r
  after_body_rule a h v s r = (acc s r).at_done _

  pub until_test_rule : (a : State → Outcome) → Kept a → KeptFor (until_test a)
  until_test_rule a h (boolean false) s r = h s r
  until_test_rule a h v s r = (acc s r).at_done null

  pub do_test_rule : (a : State → Outcome) → Kept a → KeptFor (do_test a)
  do_test_rule a h (boolean true) s r = h s r
  do_test_rule a h v s r = (acc s r).at_done null

  pub while_null_rule : (a : State → Outcome) → Kept a → KeptFor (while_null a)
  while_null_rule a h null s r = h s r
  while_null_rule a h v s r = (acc s r).at_done v

  pub truth_rule : KeptFor truth
  truth_rule (boolean b) s r = (acc s r).at_done (boolean b)
  truth_rule v s r =
      either (is_nil v) s _ _ ((acc s r).at_done (boolean false)) ((acc s r).at_fault)

  pub or_else_rule : (a : State → Outcome) → Kept a → KeptFor (or_else a)
  or_else_rule a h (boolean true) s r = (acc s r).at_done (boolean true)
  or_else_rule a h (boolean false) s r = h s r
  or_else_rule a h v s r = either (is_nil v) s _ _ (h s r) ((acc s r).at_fault)

  pub and_also_rule : (a : State → Outcome) → Kept a → KeptFor (and_also a)
  and_also_rule a h (boolean true) s r = h s r
  and_also_rule a h (boolean false) s r = (acc s r).at_done (boolean false)
  and_also_rule a h v s r =
      either (is_nil v) s _ _ ((acc s r).at_done (boolean false)) ((acc s r).at_fault)

  pub checked_rule : (b : Bool) (k : Value → State → Outcome) → KeptFor k → KeptFor (checked b k)
  checked_rule b k h v s r = either (not b && is_nil v) s _ _ ((acc s r).at_done null) (h v s r)

  pub key_or_null_rule :
      (b : Bool) (k : Value → State → Outcome) → KeptFor k → KeptFor (key_or_null b k)
  key_or_null_rule true k h null s r = (acc s r).at_done null
  key_or_null_rule true k h v s r = h v s r
  key_or_null_rule false k h v s r = h v s r

  pub add_pair_rule :
      (doubles : Doubles) (k v : Value) (m : Pairs) (s : State) (rest : Pairs → Outcome)
      → R s
      → ((n : Pairs) → P s (rest n))
      → P s (add_pair doubles k v m s rest)
  add_pair_rule doubles k v m s rest r h = found (Map.add doubles k v m)
    where
      found : (o : Option Pairs) → P s (elim o [ none ↦ fault | some n ↦ rest n ])
      found none = (acc s r).at_fault
      found (some n) = h n

  pub structure_rule :
      (a : State → Outcome) (k : Value → State → Outcome)
      → Kept a
      → KeptFor k
      → KeptFor (structure a k)
  structure_rule a k h p v s r = either (is_nil v) s _ _ (h s r) (p v s r)

  pub access_rule :
      (doubles : Doubles) (var : Value) (a : State → Outcome)
      → Kept a
      → KeptFor (access doubles var a)
  access_rule doubles var a h (list is) s r = found (select doubles var is)
    where
      found : (w : Value) → P s (elim w [ null ↦ a s | v ↦ done v s ])
      found null = h s r
      found v = (acc s r).at_done v
  access_rule doubles var a h v s r = h s r

  store_rule : (n : ℕ) (o : Option Value) (s : State) → R s → P s (store n s o)
  store_rule n none s r = (acc s r).at_fault
  store_rule n (some null) s r = (acc s r).at_done null
  store_rule n (some v) s r = (acc s r).at_set_value n v

  pub assign_bracket_rule :
      (doubles : Doubles) (n : ℕ) (is v : Value) (s : State)
      → R s
      → P s (assign_bracket doubles n is v s)
  assign_bracket_rule doubles n (list is) v s r =
      store_rule n (commit doubles (void_if_null (s.value_of n)) is (void_if_null v)) s r
  assign_bracket_rule doubles n is v s r = (acc s r).at_done null
