-- ===== src/Common/Classes.antt =====
-- Equality as an interface: what Go asks of the key type of a map.
use Prim.Native.Nat.{ℕ}
use mathlib.Core.Path.{◌≡◌, refl}
use mathlib.Core.Logic.{◌↔◌}
use mathlib.Core.Bool.{Bool, true, false}
use juju_utils.Common.Tests.{nat_beq, nat_beq_iff}

pub record Eq {ℓ} (K : Type ℓ) : Type ℓ where
  pub beq : K → K → Bool
  -- The test decides equality.
  pub beq_iff : (x y : K) → (beq x y ≡ true) ↔ (x ≡ y)

-- A strict total order, with its test.
pub record Order {ℓ} (K : Type ℓ) : Type ℓ where
  pub lt : K → K → Bool
  pub lt_irrefl : (x : K) → lt x x ≡ false
  pub lt_trans : (x y z : K) → lt x y ≡ true → lt y z ≡ true → lt x z ≡ true
  pub lt_total : (x y : K) → lt x y ≡ false → lt y x ≡ false → x ≡ y

instance abbrev pub nat_eq : Eq ℕ
nat_eq = record { beq = nat_beq; beq_iff = nat_beq_iff }

module _ {ℓ} {K : Type ℓ} ⦃eq : Eq K⦄ where
  infix 50 ◌==◌
  abbrev pub ◌==◌ : K → K → Bool
  x == y = eq.beq x y

  pub beq_refl : (x : K) → (x == x) ≡ true
  beq_refl x = (eq.beq_iff x x).1 refl
