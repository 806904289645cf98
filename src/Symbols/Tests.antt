-- ===== src/Symbols/Tests.antt =====
-- A symbol table at work.
use yast_core.Prelude.{ℕ, ◌≡◌, refl, some, [], ◌<◌}
use yast_core.Prelude.Texts.{codes, same_text}
use yast_core.Symbols.Table.{
  TableEntry, SymbolTable, hash, new_table, enter, lookup, find, xref, open_xrefs, close_xrefs,
  get_xref, start_usage, count_usage, removed, hangs, in_bucket, remove,
}
use yast_core.Symbols.Table.Laws.{overloads_in, lookup-enter, remove-enter}
use yast_core.Symbols.Table.References.{get_xref-xref}

-- A global variable `x`, a local one, and two functions `f` of one namespace.
abbrev global_x : TableEntry
global_x = record {
  address = 1;
  key = codes "x";
  key_address = 70;
  sentry = 11;
  name_space = 5;
  category = 3;
}

abbrev local_x : TableEntry
local_x = record {
  address = 2;
  key = codes "x";
  key_address = 70;
  sentry = 12;
  name_space = 6;
  category = 3;
}

abbrev f_one : TableEntry
f_one = record {
  address = 3;
  key = codes "f";
  key_address = 60;
  sentry = 13;
  name_space = 5;
  category = 5;
}

abbrev f_two : TableEntry
f_two = record {
  address = 4;
  key = codes "f";
  key_address = 61;
  sentry = 14;
  name_space = 5;
  category = 5;
}

symbols : SymbolTable
symbols = enter f_one (enter global_x (open_xrefs (start_usage (new_table 31))))

hash_long : hash 31 (codes "a_rather_long_symbol_name") ≡ 24
unfolding hash
hash_long = refl

local_hides : lookup (codes "x") 0 (enter local_x symbols) ≡ some local_x
unfolding symbols lookup enter new_table start_usage open_xrefs
local_hides = refl

used_once : count_usage (find (codes "x") 0 (find (codes "x") 0 symbols).1).1 ≡ 1
unfolding symbols find count_usage enter new_table start_usage open_xrefs
used_once = refl

lookup-enter_example : lookup (codes "x") 3 (enter local_x symbols) ≡ some local_x
unfolding symbols enter new_table start_usage open_xrefs overloads_in same_text hash
lookup-enter_example = lookup-enter local_x (codes "x") 3 symbols

remove-enter_example : remove local_x (enter local_x symbols) ≡ removed symbols
unfolding symbols enter new_table start_usage open_xrefs overloads_in same_text hash in_bucket
remove-enter_example = remove-enter local_x symbols refl

remove_hangs : remove f_two (enter f_two symbols) ≡ hangs
unfolding symbols enter new_table start_usage open_xrefs remove
remove_hangs = refl

get_xref-xref_example :
    (t' : SymbolTable) × (xref (codes "x") symbols ≡ some (some global_x, t'))
    × (get_xref t' 0 ≡ some 11)
    × ((i : ℕ) → i < 0 → get_xref t' i ≡ get_xref symbols i)
    × ((close_xrefs t').xrefs ≡ some [])
unfolding symbols enter new_table start_usage open_xrefs lookup
get_xref-xref_example = get_xref-xref (codes "x") symbols global_x [] [] refl refl
