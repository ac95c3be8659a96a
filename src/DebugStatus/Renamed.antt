-- ===== src/DebugStatus/Renamed.antt =====
-- The checks that `Rename` returns.
use juju_utils.Common.{◌≡◌, refl, false, [], ◌==◌}
use juju_utils.Common.Bytes.{bytes_eq}
use juju_utils.DebugStatus.{CheckerFunc, rename}

module _ {W : Type 0} where
  -- With an empty key and name, the first call reports what the check does. If its key was not
  -- empty, the next call repeats that key, whatever key its check reports.
  pub rename_no_op_once :
      (checker : CheckerFunc W) (w w' : W)
      → ((checker w).0.0 == []) ≡ false
      → ((rename [] checker ([], w)).0 ≡ (checker w).0)
        × ((rename [] checker ((rename [] checker ([], w)).1.0, w')).0
            ≡ ((checker w).0.0, (checker w').0.1))
  unfolding rename
  rename_no_op_once checker w w' h = (refl, rw h refl)
