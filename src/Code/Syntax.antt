-- ===== src/Code/Syntax.antt =====
-- The classes of libycp/src/YExpression.cc, libycp/src/YStatement.cc and libycp/src/YBlock.cc. A
-- symbol entry, a function and a block are numbers. References to variables and to functions,
-- parameters that the evaluation does not evaluate (symbols and code as values), translated texts,
-- imports and includes are left out.
use yast_core.Prelude.{ℕ, Bool, Option, List, Bytes}
use yast_core.Types.Defs.{YcpType}
use yast_core.Values.Defs.{Value}

-- c_op of YECompare.
pub data Comparison : Type 0 where
  c_eq c_neq c_lt c_ge c_le c_gt : Comparison

-- What YEUnary and YEBinary use of a declaration_t: whether it takes nil, and its function.
pub record Unary : Type 0 where
  pub takes_nil : Bool
  pub apply : Value → Value

pub record Binary : Type 0 where
  pub takes_nil : Bool
  pub apply : Value → Value → Value

mutual
  pub data Code : Type 0 where
    constant : Value → Code
    variable : ℕ → Code
    comparison : Comparison → Code → Code → Code
    logic_and logic_or : Code → Code → Code
    unary : Unary → Code → Code
    binary : Binary → Code → Code → Code
    triple : Code → Code → Code → Code
    propagate : YcpType → Code → Code
    is_type : YcpType → Code → Code
    list_of : Codes → Code
    map_of : CodePairs → Code
    term_of : Bytes → Codes → Code
    bracket : Code → Code → Code → Code
    call : ℕ → Codes → Code
    block_code : Block → Code

  pub data Codes : Type 0 where
    no_codes : Codes
    codes : Code → Codes → Codes

  pub data CodePairs : Type 0 where
    no_pairs : CodePairs
    pairs : Code → Code → CodePairs → CodePairs

  -- A definition of a function or a type and a text domain are a `declaration`.
  pub data Statement : Type 0 where
    declaration break_statement continue_statement return_nothing : Statement
    return : Code → Statement
    expression : Code → Statement
    block_statement : Block → Statement
    assign : ℕ → Code → Statement
    bracket_assign : ℕ → Code → Code → Statement
    if_statement : Code → Body → Body → Statement
    while_loop : Code → Body → Statement
    repeat_loop : Body → Code → Statement
    do_loop : Body → Code → Statement
    switch : Code → List (Value × ℕ) → Option ℕ → Block → Statement

  -- A branch or the body of a loop: a null pointer, a statement or a block.
  pub data Body : Type 0 where
    no_body : Body
    single : Statement → Body
    block_body : Block → Body

  pub data Statements : Type 0 where
    finish : Statements
    next : Statement → Statements → Statements

  -- Its number, whether it is a statement or the block of a module, its variables, its statements.
  pub data Block : Type 0 where
    block_of : ℕ → Bool → Bool → List ℕ → Statements → Block

-- A YFunction: the entries of its parameters, and its definition, which may be missing.
pub record YcpFunction : Type 0 where
  pub parameters : List ℕ
  pub definition : Option Code
