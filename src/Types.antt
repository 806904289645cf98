-- ===== src/Types.antt =====
-- libycp/src/Type.cc and libycp/src/include/ycp/Type.h: the static types of YCP.
pub mod Kind
pub mod Defs
pub mod Match
pub mod Print
pub mod Signature
pub mod Equals
pub mod Flex
pub mod Common
pub mod Stream
mod Tests
