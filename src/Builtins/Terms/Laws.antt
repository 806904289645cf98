-- ===== src/Builtins/Terms/Laws.antt =====
-- What the builtins on terms have to do with each other.
use yast_core.Prelude.{suc, ◌≡◌, refl, ap, ◌∙◌, true, false, Bytes, some, lt→ltb, arith}
use yast_core.Prelude.Int.{pos}
use yast_core.Values.Defs.{Value, Values, integer, term, nil, cons, size, is_null}
use yast_core.Values.List.{in_range, append_all, push_back, erase_at, remove, value, at}
use yast_core.Values.List.Laws.{append_all-nil, functional_add_lem, size-push_back}
use yast_core.Builtins.Terms.{
  t_size, t_add, t_symbolof, t_select, add_each, t_toterm2, remove_from_one, t_remove, t_argsof,
}

add_each-append_all : (args vs : Values) → add_each args vs ≡ append_all args vs
unfolding add_each append_all
add_each-append_all args nil = refl
add_each-append_all args (cons v vs) = add_each-append_all (push_back args v) vs

add_each-nil : (vs : Values) → add_each nil vs ≡ vs
add_each-nil vs = add_each-append_all nil vs ∙ append_all-nil vs

erase_at-push_back : (vs : Values) (v : Value) → erase_at (push_back vs v) (size vs) ≡ some vs
unfolding erase_at push_back
erase_at-push_back nil v = refl
erase_at-push_back (cons w vs) v = rw (erase_at-push_back vs v) refl

at-size : (vs : Values) (v : Value) → at (push_back vs v) (size vs) ≡ v
unfolding at push_back
at-size nil v = refl
at-size (cons w vs) v = at-size vs v

t_add_lem :
    (s : Bytes) (vs : Values) (v : Value)
    → is_null v ≡ false
    → t_add (term s vs) v ≡ term s (push_back vs v)
unfolding t_add
t_add_lem s vs v h = rw h (ap (term s) (functional_add_lem vs v).0)

last-in_range : (vs : Values) (v : Value) → in_range (push_back vs v) (pos (size vs)) ≡ true
last-in_range vs v = lt→ltb (size vs) (size (push_back vs v)) (omega (arith, size-push_back vs v))

-- A term is made again of its symbol and its list of arguments.
pub t_toterm2-t_symbolof-t_argsof :
    (s : Bytes) (vs : Values)
    → t_toterm2 (t_symbolof (term s vs)) (t_argsof (term s vs)) ≡ term s vs
unfolding t_toterm2 t_symbolof t_argsof
t_toterm2-t_symbolof-t_argsof s vs = ap (term s) (add_each-nil vs)

-- select finds the argument that add appended at the former number of arguments, whatever the default
-- and its type, and remove at one more takes it away again, unless the argument was null.
pub t_remove-t_add :
    (s : Bytes) (vs : Values) (v def : Value)
    → is_null v ≡ false
    → (t_select (t_add (term s vs) v) (t_size (term s vs)) def ≡ v)
      × (t_remove (t_add (term s vs) v) (integer (pos (suc (size vs)))) ≡ some (term s vs))
unfolding t_select t_remove t_size remove_from_one value remove
t_remove-t_add s vs v def h =
    rw (t_add_lem s vs v h) (
      rw (last-in_range vs v) (at-size vs v),
      rw (last-in_range vs v, erase_at-push_back vs v) refl,
    )
