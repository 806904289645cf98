-- ===== src/Bytecode.antt =====
-- libycp/src/Bytecode.cc: the primitives of the bytecode format.
pub mod Stream
pub mod Int32
pub mod Text
pub mod Int64
pub mod Namespace
mod Tests
