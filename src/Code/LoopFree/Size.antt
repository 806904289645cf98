-- ===== src/Code/LoopFree/Size.antt =====
-- Each part of code has a node, and skipping statements leaves less.
use yast_core.Prelude.{ℕ, zero, suc, ◌≤◌, ◌<◌, arith}
use yast_core.Code.Syntax.{
  Code, Codes, CodePairs, Statement, Body, Statements, Block, finish, next, constant, no_codes,
  no_pairs, no_body, block_of, declaration,
}
use yast_core.Code.Eval.{skip}
use yast_core.Code.LoopFree.{
  AreLoopFreeStatements, code_size, codes_size, pairs_size, statement_size, body_size,
  statements_size, block_size,
}

pub code_size-pos : (c : Code) → 0 < code_size c
unfolding code_size
code_size-pos (constant v) = omega arith
code_size-pos _ = omega arith

pub codes_size-pos : (c : Codes) → 0 < codes_size c
unfolding code_size
codes_size-pos no_codes = omega arith
codes_size-pos _ = omega arith

pub pairs_size-pos : (c : CodePairs) → 0 < pairs_size c
unfolding code_size
pairs_size-pos no_pairs = omega arith
pairs_size-pos _ = omega arith

pub statement_size-pos : (x : Statement) → 0 < statement_size x
unfolding code_size
statement_size-pos declaration = omega arith
statement_size-pos _ = omega arith

pub body_size-pos : (b : Body) → 0 < body_size b
unfolding code_size
body_size-pos no_body = omega arith
body_size-pos _ = omega arith

pub statements_size-pos : (xs : Statements) → 0 < statements_size xs
unfolding code_size
statements_size-pos finish = omega arith
statements_size-pos _ = omega arith

pub block_size-pos : (b : Block) → 0 < block_size b
unfolding code_size
block_size-pos (block_of b is_statement is_module vars xs) = omega arith

pub skip-size : (i : ℕ) (xs : Statements) → statements_size (skip i xs) ≤ statements_size xs
unfolding skip code_size
skip-size zero xs = omega arith
skip-size (suc i) finish = omega arith
skip-size (suc i) (next x xs) = omega (arith, skip-size i xs)

pub skip-AreLoopFreeStatements :
    (i : ℕ) (xs : Statements) → AreLoopFreeStatements xs → AreLoopFreeStatements (skip i xs)
unfolding skip AreLoopFreeStatements
skip-AreLoopFreeStatements zero xs h = h
skip-AreLoopFreeStatements (suc i) finish h = h
skip-AreLoopFreeStatements (suc i) (next x xs) h = skip-AreLoopFreeStatements i xs (h.1)
