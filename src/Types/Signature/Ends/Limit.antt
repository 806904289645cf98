-- ===== src/Types/Signature/Ends/Limit.antt =====
-- Type::fromSignature ends: the fuel that is enough.
use yast_core.Prelude.{ℕ, zero, suc, ◌+◌, ◌*◌, ◌≤◌, ◌<◌, ◌≢◌, refl, subst, Bytes, length, arith}
use yast_core.Types.Defs.{YcpType}
use yast_core.Types.Signature.{Parse, no_fuel, from_signature, parameters, components}
use yast_core.Types.Signature.Ends.{Ends}
use yast_core.Types.Signature.Ends.Round.{
  Ends-signature, Ends-parameter_round, Ends-component_round,
}

mutual
  unfolding from_signature

  signature-Ends : (f : ℕ) (s : Bytes) → 2 * length s + 2 ≤ f → Ends (length s) (from_signature f s)
  signature-Ends zero s h = absurd (omega arith)
  signature-Ends (suc f) s h =
      Ends-signature (from_signature f) (parameters f) (components f) (length s)
        (λ r lt. signature-Ends f r (omega arith))
        (λ t r le pos. parameters-Ends f t r pos (omega arith))
        (λ t r le. components-Ends f t r (omega arith)) s refl

  parameters-Ends :
      (f : ℕ) (t : YcpType) (s : Bytes)
      → 0 < length s
      → 2 * length s + 1 ≤ f
      → Ends (length s) (parameters f t s)
  parameters-Ends zero t s pos h = absurd (omega arith)
  parameters-Ends (suc f) t s pos h =
      Ends-parameter_round (from_signature f) (parameters f) (components f) (length s)
        (λ r lt. signature-Ends f r (omega arith))
        (λ u r le pos'. parameters-Ends f u r pos' (omega arith))
        (λ u r le. components-Ends f u r (omega arith)) t s refl pos

  components-Ends :
      (f : ℕ) (t : YcpType) (s : Bytes) → 2 * length s + 1 ≤ f → Ends (length s) (components f t s)
  components-Ends zero t s h = absurd (omega arith)
  components-Ends (suc f) t s h =
      Ends-component_round (from_signature f) (parameters f) (components f) (length s)
        (λ r lt. signature-Ends f r (omega arith))
        (λ u r lt pos. parameters-Ends f u r pos (omega arith))
        (λ u r lt. components-Ends f u r (omega arith)) t s refl

Ends-ne : (n : ℕ) (o : Parse) → Ends n o → o ≢ no_fuel
Ends-ne n o h e = subst (Ends n) e h

-- fromSignature ends on every text, with two units of fuel for each character and two more.
pub from_signature-ne-no_fuel :
    (f : ℕ) (s : Bytes) → 2 * length s + 2 ≤ f → from_signature f s ≢ no_fuel
from_signature-ne-no_fuel f s h = Ends-ne (length s) (from_signature f s) (signature-Ends f s h)
