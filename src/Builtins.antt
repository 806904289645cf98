-- ===== src/Builtins.antt =====
-- The builtins of YCP: libycp/src/YCPBuiltinList.cc, YCPBuiltinMap.cc,
-- YCPBuiltinString.cc, YCPBuiltinPath.cc and YCPBuiltinTerm.cc.
pub mod Lists
pub mod Loops
pub mod Maps
pub mod Paths
pub mod Split
pub mod Strings
pub mod Terms
mod Tests
