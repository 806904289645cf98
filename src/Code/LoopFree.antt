-- ===== src/Code/LoopFree.antt =====
-- Code without loops, and how large code is.
pub mod Size
use yast_core.Prelude.{ℕ, suc, ◌+◌}
use yast_core.Code.Syntax.{
  Code, comparison, logic_and, logic_or, unary, binary, triple, propagate, is_type, list_of, map_of,
  term_of, bracket, call, block_code, Codes, no_codes, codes, CodePairs, no_pairs, pairs, Statement,
  return, expression, block_statement, assign, bracket_assign, if_statement, while_loop,
  repeat_loop, do_loop, switch, Body, no_body, single, block_body, Statements, finish, next, Block,
  block_of,
}

-- There is no loop in the code. A function that it calls has its own.
unfoldable mutual
  pub IsLoopFree : Code → Type 0
  IsLoopFree (comparison op l r) = IsLoopFree l × IsLoopFree r
  IsLoopFree (logic_and a b) = IsLoopFree a × IsLoopFree b
  IsLoopFree (logic_or a b) = IsLoopFree a × IsLoopFree b
  IsLoopFree (unary u a) = IsLoopFree a
  IsLoopFree (binary u a b) = IsLoopFree a × IsLoopFree b
  IsLoopFree (triple c a b) = IsLoopFree c × IsLoopFree a × IsLoopFree b
  IsLoopFree (propagate t a) = IsLoopFree a
  IsLoopFree (is_type t a) = IsLoopFree a
  IsLoopFree (list_of cs) = AreLoopFree cs
  IsLoopFree (map_of ps) = ArePairsLoopFree ps
  IsLoopFree (term_of name cs) = AreLoopFree cs
  IsLoopFree (bracket a b c) = IsLoopFree a × IsLoopFree b × IsLoopFree c
  IsLoopFree (call n cs) = AreLoopFree cs
  IsLoopFree (block_code b) = IsLoopFreeBlock b
  IsLoopFree _ = Unit

  pub AreLoopFree : Codes → Type 0
  AreLoopFree no_codes = Unit
  AreLoopFree (codes c cs) = IsLoopFree c × AreLoopFree cs

  pub ArePairsLoopFree : CodePairs → Type 0
  ArePairsLoopFree no_pairs = Unit
  ArePairsLoopFree (pairs k c ps) = IsLoopFree k × IsLoopFree c × ArePairsLoopFree ps

  pub IsLoopFreeStatement : Statement → Type 0
  IsLoopFreeStatement (return c) = IsLoopFree c
  IsLoopFreeStatement (expression c) = IsLoopFree c
  IsLoopFreeStatement (block_statement b) = IsLoopFreeBlock b
  IsLoopFreeStatement (assign n c) = IsLoopFree c
  IsLoopFreeStatement (bracket_assign n a c) = IsLoopFree a × IsLoopFree c
  IsLoopFreeStatement (if_statement c a b) = IsLoopFree c × IsLoopFreeBody a × IsLoopFreeBody b
  IsLoopFreeStatement (while_loop c b) = ⊥
  IsLoopFreeStatement (repeat_loop b c) = ⊥
  IsLoopFreeStatement (do_loop b c) = ⊥
  IsLoopFreeStatement (switch c cases default b) = IsLoopFree c × IsLoopFreeBlock b
  IsLoopFreeStatement _ = Unit

  pub IsLoopFreeBody : Body → Type 0
  IsLoopFreeBody no_body = Unit
  IsLoopFreeBody (single x) = IsLoopFreeStatement x
  IsLoopFreeBody (block_body b) = IsLoopFreeBlock b

  pub AreLoopFreeStatements : Statements → Type 0
  AreLoopFreeStatements finish = Unit
  AreLoopFreeStatements (next x xs) = IsLoopFreeStatement x × AreLoopFreeStatements xs

  pub IsLoopFreeBlock : Block → Type 0
  IsLoopFreeBlock (block_of b is_statement is_module vars xs) = AreLoopFreeStatements xs

-- The number of nodes, which bounds the depth of the evaluations inside.
unfoldable mutual
  pub code_size : Code → ℕ
  code_size (comparison op l r) = suc (code_size l + code_size r)
  code_size (logic_and a b) = suc (code_size a + code_size b)
  code_size (logic_or a b) = suc (code_size a + code_size b)
  code_size (unary u a) = suc (code_size a)
  code_size (binary u a b) = suc (code_size a + code_size b)
  code_size (triple c a b) = suc (code_size c + code_size a + code_size b)
  code_size (propagate t a) = suc (code_size a)
  code_size (is_type t a) = suc (code_size a)
  code_size (list_of cs) = suc (codes_size cs)
  code_size (map_of ps) = suc (pairs_size ps)
  code_size (term_of name cs) = suc (codes_size cs)
  code_size (bracket a b c) = suc (code_size a + code_size b + code_size c)
  code_size (call n cs) = suc (codes_size cs)
  code_size (block_code b) = suc (block_size b)
  code_size _ = 1

  pub codes_size : Codes → ℕ
  codes_size no_codes = 1
  codes_size (codes c cs) = suc (code_size c + codes_size cs)

  pub pairs_size : CodePairs → ℕ
  pairs_size no_pairs = 1
  pairs_size (pairs k c ps) = suc (code_size k + code_size c + pairs_size ps)

  pub statement_size : Statement → ℕ
  statement_size (return c) = suc (code_size c)
  statement_size (expression c) = suc (code_size c)
  statement_size (block_statement b) = suc (block_size b)
  statement_size (assign n c) = suc (code_size c)
  statement_size (bracket_assign n a c) = suc (code_size a + code_size c)
  statement_size (if_statement c a b) = suc (code_size c + body_size a + body_size b)
  statement_size (while_loop c b) = suc (code_size c + body_size b)
  statement_size (repeat_loop b c) = suc (body_size b + code_size c)
  statement_size (do_loop b c) = suc (body_size b + code_size c)
  statement_size (switch c cases default b) = suc (code_size c + block_size b)
  statement_size _ = 1

  pub body_size : Body → ℕ
  body_size no_body = 1
  body_size (single x) = suc (statement_size x)
  body_size (block_body b) = suc (block_size b)

  pub statements_size : Statements → ℕ
  statements_size finish = 1
  statements_size (next x xs) = suc (statement_size x + statements_size xs)

  pub block_size : Block → ℕ
  block_size (block_of b is_statement is_module vars xs) = suc (statements_size xs)
