-- ===== src/Symbols.antt =====
-- libycp/src/SymbolTable.cc: the symbols that are visible while code is read.
pub mod Table
mod Tests
