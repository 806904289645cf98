-- ===== src/Types/Signature/Tests.antt =====
-- Signatures at work.
use yast_core.Prelude.{◌≡◌, ◌≢◌, refl, true, false, [], arith}
use yast_core.Prelude.Texts.{codes}
use yast_core.Types.Kind.{any_t, integer_t, string_t, void_t}
use yast_core.Types.Defs.{Quals, plain, YcpType, base, list, map, tuple, function, nil, cons}
use yast_core.Types.Signature.{parsed, no_fuel, skip_spaces, from_signature}
use yast_core.Types.Signature.Ends.Limit.{from_signature-ne-no_fuel}

abbrev by_reference : Quals
by_reference = record { is_const = false; is_reference = true }

abbrev as_const : Quals
as_const = record { is_const = true; is_reference = false }

-- map <string, any> (const list <integer>, integer &)
abbrev lookup_type : YcpType
lookup_type =
    function plain (map plain (base string_t plain) (base any_t plain)) plain
      (cons (list as_const (base integer_t plain)) (cons (base integer_t by_reference) nil))

reads_spaces :
    from_signature 9 (codes " List <any > x") ≡ parsed (list plain (base any_t plain)) (codes "x")
unfolding from_signature skip_spaces
reads_spaces = refl

tuple_keeps_sign :
    from_signature 9 (codes "tuple <any, void>")
    ≡ parsed (tuple plain (cons (base any_t plain) (cons (base void_t plain) nil))) (codes ">")
unfolding from_signature skip_spaces
tuple_keeps_sign = refl

reference_loses_const :
    from_signature 9 (codes "const integer &") ≡ parsed (base integer_t by_reference) []
unfolding from_signature skip_spaces
reference_loses_const = refl

from_signature-ne-no_fuel_example : from_signature 30 (codes "map <<map, (") ≢ no_fuel
from_signature-ne-no_fuel_example =
    from_signature-ne-no_fuel 30 (codes "map <<map, (") (omega arith)
