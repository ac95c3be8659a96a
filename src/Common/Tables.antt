-- ===== src/Common/Tables.antt =====
-- Laws over a byte, by a table of all its values.
use Prim.Native.Nat.{ℕ, zero, suc, ◌+◌, ◌<◌, ◌%◌, bit_and, bit_or}
use mathlib.Core.Path.{◌≡◌, refl}
use mathlib.Core.Bool.{Bool, true, ◌&&◌}
use native.Mathlib.Omega.{arith}
use juju_utils.Common.Tests.{nat_beq, nat_beq_iff}

-- A test that every number below a bound passes.
passes_under : (ℕ → Bool) → ℕ → Bool
passes_under test zero = true
passes_under test (suc last) = passes_under test last && test last

passes_under-elim :
    (test : ℕ → Bool) (bound i : ℕ) → i < bound → passes_under test bound ≡ true → test i ≡ true
unfolding passes_under
passes_under-elim test zero i below all = absurd (omega arith)
passes_under-elim test (suc last) i below all = ground (arith, passes_under-elim test last i)

version_table : passes_under (λ x. nat_beq (bit_or 64 (bit_and x 15)) (64 + x % 16)) 256 ≡ true
unfolding passes_under
version_table = refl

variant_table : passes_under (λ x. nat_beq (bit_or 128 (bit_and x 15)) (128 + x % 16)) 256 ≡ true
unfolding passes_under
variant_table = refl

-- The high digit 4 over a low digit.
pub version_bits : (x : ℕ) → x < 256 → bit_or 64 (bit_and x 15) ≡ 64 + x % 16
version_bits x h = (nat_beq_iff _ _).0 (passes_under-elim _ 256 x h version_table)

-- The high digit 8 over a low digit.
pub variant_bits : (x : ℕ) → x < 256 → bit_or 128 (bit_and x 15) ≡ 128 + x % 16
variant_bits x h = (nat_beq_iff _ _).0 (passes_under-elim _ 256 x h variant_table)
