-- ===== src/Types/Kind.antt =====
-- Type::type_kind (libycp/src/include/ycp/Type.h).
use yast_core.Prelude.{ℕ, ◌≡◌, refl, Bool, true, false, ◌==◌}

pub data Kind : Type 0 where
  unspec_t error_t any_t boolean_t byteblock_t float_t integer_t locale_t path_t string_t : Kind
  symbol_t term_t void_t wildcard_t flex_t variable_t list_t map_t block_t tuple_t : Kind
  function_t nil_t nflex_t : Kind

-- The number that stands for a kind in the bytecode.
abbrev pub code : Kind → ℕ
code unspec_t = 0
code error_t = 1
code any_t = 2
code boolean_t = 3
code byteblock_t = 4
code float_t = 5
code integer_t = 6
code locale_t = 7
code path_t = 8
code string_t = 9
code symbol_t = 10
code term_t = 11
code void_t = 12
code wildcard_t = 13
code flex_t = 14
code variable_t = 15
code list_t = 16
code map_t = 17
code block_t = 18
code tuple_t = 19
code function_t = 20
code nil_t = 21
code nflex_t = 22

abbrev pub same_kind : Kind → Kind → Bool
same_kind j k = code j == code k

-- The kinds that Type::basematch takes for a free match.
abbrev pub is_free_kind : Kind → Bool
is_free_kind any_t = true
is_free_kind flex_t = true
is_free_kind nflex_t = true
is_free_kind wildcard_t = true
is_free_kind unspec_t = true
is_free_kind _ = false

pub same_kind_refl : (k : Kind) → same_kind k k ≡ true
same_kind_refl unspec_t = refl
same_kind_refl _ = refl
