-- ===== src/Common/Base.antt =====
-- What the integers of `Int` stand on.
pub use Prim.Native.Nat.{ℕ, suc, ◌+◌, ◌-◌, ◌*◌, ◌≤◌}
pub use mathlib.Core.Path.{◌≡◌, refl}
pub use mathlib.Core.Logic.{◌⊎◌, ◌↔◌}
pub use mathlib.Core.Bool.{Bool, true}
pub use native.Mathlib.Omega.{arith}
pub use juju_utils.Common.Tests.{ltb, leb, nat_beq, if◌then◌else◌}
