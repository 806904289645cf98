-- ===== src/Values.antt =====
-- libycp/src/YCPValue.cc and the value classes beside it: the data of YCP programs.
pub mod Order
pub mod Defs
pub mod Compare
pub mod Map
pub mod Path
pub mod List
pub mod Stream
pub mod Typing
mod Tests
