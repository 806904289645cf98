-- ===== src/Code.antt =====
-- libycp/src/YStatement.cc, libycp/src/YExpression.cc, libycp/src/YBlock.cc: the evaluation of code.
pub mod Syntax
pub mod State
pub mod Bracket
pub mod Outcome
pub mod Convert
pub mod Steps
pub mod Eval
pub mod WellFormed
pub mod Keeps
pub mod LoopFree
pub mod Stops
pub mod Fuel
pub mod Loops
mod Tests
