-- ===== src/Types/Common/Laws.antt =====
-- What Type::commontype and Type::detailedtype find for two types.
use yast_core.Prelude.{◌≡◌, ◌≢◌, refl, false, some, arith}
use yast_core.Prelude.Int.{pos, negsuc}
use yast_core.Types.Kind.{
  Kind, unspec_t, error_t, any_t, void_t, wildcard_t, flex_t, nflex_t, is_free_kind,
}
use yast_core.Types.Defs.{
  plain, YcpType, base, flex, nflex, variable, list, map, block, tuple, function_void, function,
  any_type,
}
use yast_core.Types.Match.{match, match_base, basematch, propagate}
use yast_core.Types.Match.Laws.{IsMatchable, match_refl}
use yast_core.Types.Common.{common_base, commontype, detailed_base, detailedtype}

-- The lists and maps on the outside of a type without their qualifiers.
abbrev pub unqualified : YcpType → YcpType
unqualified (list q t) = list plain (unqualified t)
unqualified (map q k v) = map plain (unqualified k) (unqualified v)
unqualified t = t

common_base_self : (t : YcpType) → match t t ≡ some (pos 0) → common_base t t ≡ some t
unfolding common_base
common_base_self t h = ground (arith, h)

detailed_base_self : (t : YcpType) → match t t ≡ some (pos 0) → detailed_base t t ≡ some t
unfolding detailed_base
detailed_base_self t h = ground (arith, h)

-- The common type of a type with itself is that type, without the qualifiers of the lists and maps
-- on its outside, unless ErrorT or a tuple without components is in it.
pub commontype_self : (t : YcpType) → IsMatchable t → commontype t t ≡ some (unqualified t)
unfolding commontype
commontype_self (list q t) h = rw (commontype_self t h)
commontype_self (map q k v) h = rw (commontype_self k h.0, commontype_self v h.1)
commontype_self (base k q) h = common_base_self (base k q) (match_refl (base k q) h)
commontype_self (flex q) h = common_base_self (flex q) (match_refl (flex q) h)
commontype_self (nflex q n) h = common_base_self (nflex q n) (match_refl (nflex q n) h)
commontype_self (variable q t) h = common_base_self (variable q t) (match_refl (variable q t) h)
commontype_self (block q t) h = common_base_self (block q t) (match_refl (block q t) h)
commontype_self (tuple q ts) h = common_base_self (tuple q ts) (match_refl (tuple q ts) h)
commontype_self (function_void q r) h =
    common_base_self (function_void q r) (match_refl (function_void q r) h)
commontype_self (function q r p ts) h =
    common_base_self (function q r p ts) (match_refl (function q r p ts) h)

-- The more detailed of a type and itself is that type, without the qualifiers of the lists and maps
-- on its outside, unless ErrorT or a tuple without components is in it.
pub detailedtype_self : (t : YcpType) → IsMatchable t → detailedtype t t ≡ some (unqualified t)
unfolding detailedtype
detailedtype_self (list q t) h = rw (detailedtype_self t h)
detailedtype_self (map q k v) h = rw (detailedtype_self k h.0, detailedtype_self v h.1)
detailedtype_self (base k q) h = detailed_base_self (base k q) (match_refl (base k q) h)
detailedtype_self (flex q) h = detailed_base_self (flex q) (match_refl (flex q) h)
detailedtype_self (nflex q n) h = detailed_base_self (nflex q n) (match_refl (nflex q n) h)
detailedtype_self (variable q t) h = detailed_base_self (variable q t) (match_refl (variable q t) h)
detailedtype_self (block q t) h = detailed_base_self (block q t) (match_refl (block q t) h)
detailedtype_self (tuple q ts) h = detailed_base_self (tuple q ts) (match_refl (tuple q ts) h)
detailedtype_self (function_void q r) h =
    detailed_base_self (function_void q r) (match_refl (function_void q r) h)
detailedtype_self (function q r p ts) h =
    detailed_base_self (function q r p ts) (match_refl (function q r p ts) h)

-- The common type of a base type, which is not ErrorT, void or of a kind that matches freely, with
-- any is the base type, which any does not match.
pub commontype-any :
    (k : Kind)
    → is_free_kind k ≡ false
    → k ≢ error_t
    → k ≢ void_t
    → (commontype (base k plain) any_type ≡ some (base k plain))
      × (match any_type (base k plain) ≡ some (negsuc 0))
unfolding commontype common_base match match_base basematch propagate
commontype-any any_t free e v = absurd cc
commontype-any flex_t free e v = absurd cc
commontype-any nflex_t free e v = absurd cc
commontype-any wildcard_t free e v = absurd cc
commontype-any unspec_t free e v = absurd cc
commontype-any error_t free e v = absurd (e refl)
commontype-any void_t free e v = absurd (v refl)
commontype-any _ free e v = (refl, refl)
