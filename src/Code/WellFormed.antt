-- ===== src/Code/WellFormed.antt =====
-- What the parser sees to: the block of a switch is not that of a module, and a function that code
-- calls is defined.
use yast_core.Prelude.{ℕ, ◌≡◌, false, Option, none, some}
use yast_core.Code.Syntax.{
  Code, comparison, logic_and, logic_or, unary, binary, triple, propagate, is_type, list_of, map_of,
  term_of, bracket, call, block_code, Codes, no_codes, codes, CodePairs, no_pairs, pairs, Statement,
  return, expression, block_statement, assign, bracket_assign, if_statement, while_loop,
  repeat_loop, do_loop, switch, Body, no_body, single, block_body, Statements, finish, next, Block,
  block_of,
}
use yast_core.Code.Eval.{Machine}

abbrev pub IsNoModule : Block → Type 0
IsNoModule (block_of b is_statement is_module vars xs) = is_module ≡ false

unfoldable mutual
  pub IsSound : Code → Type 0
  IsSound (comparison op l r) = IsSound l × IsSound r
  IsSound (logic_and a b) = IsSound a × IsSound b
  IsSound (logic_or a b) = IsSound a × IsSound b
  IsSound (unary u a) = IsSound a
  IsSound (binary u a b) = IsSound a × IsSound b
  IsSound (triple c a b) = IsSound c × IsSound a × IsSound b
  IsSound (propagate t a) = IsSound a
  IsSound (is_type t a) = IsSound a
  IsSound (list_of cs) = AreSound cs
  IsSound (map_of ps) = ArePairsSound ps
  IsSound (term_of name cs) = AreSound cs
  IsSound (bracket a b c) = IsSound a × IsSound b × IsSound c
  IsSound (call n cs) = AreSound cs
  IsSound (block_code b) = IsSoundBlock b
  IsSound _ = Unit

  pub AreSound : Codes → Type 0
  AreSound no_codes = Unit
  AreSound (codes c cs) = IsSound c × AreSound cs

  pub ArePairsSound : CodePairs → Type 0
  ArePairsSound no_pairs = Unit
  ArePairsSound (pairs k c ps) = IsSound k × IsSound c × ArePairsSound ps

  pub IsSoundStatement : Statement → Type 0
  IsSoundStatement (return c) = IsSound c
  IsSoundStatement (expression c) = IsSound c
  IsSoundStatement (block_statement b) = IsSoundBlock b
  IsSoundStatement (assign n c) = IsSound c
  IsSoundStatement (bracket_assign n a c) = IsSound a × IsSound c
  IsSoundStatement (if_statement c a b) = IsSound c × IsSoundBody a × IsSoundBody b
  IsSoundStatement (while_loop c b) = IsSound c × IsSoundBody b
  IsSoundStatement (repeat_loop b c) = IsSoundBody b × IsSound c
  IsSoundStatement (do_loop b c) = IsSoundBody b × IsSound c
  IsSoundStatement (switch c cases default b) = IsSound c × IsSoundBlock b × IsNoModule b
  IsSoundStatement _ = Unit

  pub IsSoundBody : Body → Type 0
  IsSoundBody no_body = Unit
  IsSoundBody (single x) = IsSoundStatement x
  IsSoundBody (block_body b) = IsSoundBlock b

  pub AreSoundStatements : Statements → Type 0
  AreSoundStatements finish = Unit
  AreSoundStatements (next x xs) = IsSoundStatement x × AreSoundStatements xs

  pub IsSoundBlock : Block → Type 0
  IsSoundBlock (block_of b is_statement is_module vars xs) = AreSoundStatements xs

abbrev pub IsSoundDefinition : Option Code → Type 0
IsSoundDefinition none = ⊥
IsSoundDefinition (some c) = IsSound c

unfoldable pub IsSoundMachine : Machine → Type 0
unfolding IsSound
IsSoundMachine mc = (n : ℕ) → IsSoundDefinition ((mc.functions n).definition)
