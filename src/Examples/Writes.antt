-- ===== src/Examples/Writes.antt =====
-- Files at concrete inputs.
use juju_utils.Common.{ℕ, ◌≡◌, refl, none, some, ◌∷◌, All}
use juju_utils.Common.Bytes.{bytes_eq, codes}
use juju_utils.Common.Results.{ok}
use juju_utils.AtomicWrite.{
  Disk, put, Calls, cannot_write, atomic_write_file, atomic_write_file_and_change,
}
use juju_utils.AtomicWrite.AllOrNothing.{
  IsWhole, expected, atomic_write_file-IsWhole, atomic_write_file-expected,
}

abbrev config : Disk
config = put (codes "conf") (some (record { contents = codes "old"; perms = 0o644 })) (λ name. none)

abbrev disk_full : Calls ℕ
disk_full = record {
  temp_file = ok (codes "conf123");
  write_error = some (2, 28);
  rename_error = none;
  remove_error = none;
}

abbrev all_well : Calls ℕ
all_well = record {
  temp_file = ok (codes "conf123");
  write_error = none;
  rename_error = none;
  remove_error = none;
}

error_reported :
    (atomic_write_file disk_full none (codes "conf") (codes "new") 0o600 config).0
    ≡ some (cannot_write (codes "conf") 28)
unfolding atomic_write_file atomic_write_file_and_change
error_reported = refl

atomic_write_file-IsWhole_example :
    let w = (atomic_write_file all_well none (codes "conf") (codes "new") 0o600 config).1 in
    All (IsWhole (codes "conf") (codes "new") 0o600 config) (w.disk ∷ w.before)
atomic_write_file-IsWhole_example =
    atomic_write_file-IsWhole (codes "conf") (codes "new") 0o600 config all_well none (refl, refl)

atomic_write_file-expected_example :
    let (r, w) = atomic_write_file disk_full none (codes "conf") (codes "new") 0o600 config in
    w.disk (codes "conf") ≡ expected (codes "conf") (codes "new") 0o600 config r (codes "conf")
atomic_write_file-expected_example =
    atomic_write_file-expected (codes "conf") (codes "new") 0o600 config disk_full none
      (codes "conf") (refl, refl) refl
