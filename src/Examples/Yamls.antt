-- ===== src/Examples/Yamls.antt =====
-- YAML files at concrete inputs. The text of a list of bytes is the list itself.
use juju_utils.Common.{ℕ, ◌≡◌, refl, arith, none, some, ◌∷◌, All}
use juju_utils.Common.Bytes.{Bytes, bytes_eq, codes}
use juju_utils.Common.Results.{ok}
use juju_utils.AtomicWrite.{Disk, put}
use juju_utils.YamlFile.{Yaml, Calls, contents_of, write_yaml, read_yaml}
use juju_utils.YamlFile.RoundTrip.{HasOldOrNew, write_yaml-shows, read_yaml-write_yaml}

abbrev plain : Yaml
plain = record { Object = Bytes; Error = ℕ; marshal = λ b. ok b; unmarshal = λ b obj. (b, none) }

abbrev config : Disk
config = put (codes "c") (some (record { contents = codes "a: 1"; perms = 0o644 })) (λ name. none)

abbrev all_well : Calls ℕ
all_well = record { open_error = none; write_error = none; rename_error = none }

read_yaml-write_yaml_example :
    let (r, w) = write_yaml plain (codes "c") (codes "b: 2") all_well config in
    (r ≡ none) × (read_yaml plain 2 (codes "c") (codes "old") w.disk ≡ (codes "b: 2", none))
read_yaml-write_yaml_example =
    read_yaml-write_yaml plain (codes "c") (codes "b: 2") (codes "old") (codes "b: 2") all_well
      config 2 refl (omega arith) refl refl refl

abbrev disk_full : Calls ℕ
disk_full = record { open_error = none; write_error = some (6, 28); rename_error = none }

write_yaml-shows_example :
    let w = (write_yaml plain (codes "c") (codes "b: 2") disk_full config).1 in
    All (HasOldOrNew (codes "c") (codes "b: 2") config) (w.disk ∷ w.before)
write_yaml-shows_example =
    write_yaml-shows plain (codes "c") (codes "b: 2") (codes "b: 2") disk_full config refl

-- A write that fails leaves a file, and after the next write its end stands in the new file.
leftover_kept :
    let (_, w) = write_yaml plain (codes "c") (codes "long: 1\nx: 2") disk_full config in
    let (r, w') = write_yaml plain (codes "c") (codes "b: 2") all_well w.disk in
    (r ≡ none) × (contents_of (w'.disk (codes "c")) ≡ codes "b: 2: ")
unfolding write_yaml
leftover_kept = (refl, refl)
