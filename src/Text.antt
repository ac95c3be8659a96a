-- ===== src/Text.antt =====
-- What the source uses of the Go package `strings`, on byte strings.
pub mod Cut
pub mod Hex
pub mod Base64
pub mod Classes
pub mod Fields
pub mod Path
use juju_utils.Common.{ℕ, Bool, List, [], ◌∷◌, ◌++◌}
