-- ===== src/Examples/Files.antt =====
-- filestorage at concrete inputs.
use juju_utils.Common.{◌≡◌, refl, true, false, none, some, [], ◌∷◌, is_some}
use juju_utils.Common.Bytes.{Bytes, codes}
use juju_utils.Common.Int.{pos}
use juju_utils.Common.Results.{ok, is_ok}
use juju_utils.FileStorage.Metadata.{new_metadata, set_file_info, missing_checksum_format}
use juju_utils.FileStorage.Metadata.SetOnce.{set_file_info-error}
use juju_utils.FileStorage.Wrapper.{add, get, remove, set_file}
use juju_utils.FileStorage.Wrapper.Adding.{add_lem, add-error_metas}
use juju_utils.FileStorage.Wrapper.Removing.{IsCovered, remove-IsCovered}
use juju_utils.Examples.Store.{
  Disk, disk, disk-IsStore, start, worn, start-IsCovered, disk_removes, note,
}

set_file_info_ok : (set_file_info (pos 3) (codes "ab") (codes "sha") new_metadata).1 ≡ none
unfolding set_file_info
set_file_info_ok = refl

no_format : (set_file_info (pos 3) (codes "ab") [] new_metadata).1 ≡ some missing_checksum_format
unfolding set_file_info
no_format = refl

set_file_info-error_example : (set_file_info (pos 3) (codes "ab") [] new_metadata).0 ≡ new_metadata
set_file_info-error_example =
    set_file_info-error (pos 3) (codes "ab") [] new_metadata missing_checksum_format no_format

abbrev hello : Bytes
hello = codes "hello"

abbrev first_id : Bytes
first_id = 0 ∷ []

added : (add disk new_metadata (some hello) start).0 ≡ ok first_id
unfolding add
added = refl

add_example :
    let w : Disk = (add disk new_metadata (some hello) start).1 in
    (is_some (disk-IsStore.metas w first_id) ≡ true)
    × (disk-IsStore.files w first_id ≡ some hello)
    × (disk-IsStore.metas start first_id ≡ none)
    × (disk-IsStore.files start first_id ≡ none)
    × (disk-IsStore.metas w (codes "n") ≡ disk-IsStore.metas start (codes "n"))
    × (disk-IsStore.files w (codes "n") ≡ disk-IsStore.files start (codes "n"))
add_example = add_lem disk disk-IsStore new_metadata hello first_id (codes "n") start refl added

refused_add : is_ok (add disk new_metadata (some hello) worn).0 ≡ false
unfolding add
refused_add = refl

add-error_metas_example :
    disk-IsStore.metas (add disk new_metadata (some hello) worn).1 first_id
    ≡ disk-IsStore.metas worn first_id
add-error_metas_example =
    add-error_metas disk disk-IsStore new_metadata (some hello) worn refused_add disk_removes
      first_id

found : (get disk (codes "n") start).0 ≡ ok (note, hello)
unfolding get
found = refl

abbrev fileless : Disk
fileless = record start { files = λ _. none }

file_set : (set_file disk (codes "n") hello fileless).0 ≡ ok tt
unfolding set_file
file_set = refl

removed : (remove disk (codes "n") start).0 ≡ ok tt
unfolding remove
removed = refl

remove-IsCovered_example : IsCovered disk disk-IsStore (remove disk (codes "n") start).1
remove-IsCovered_example = remove-IsCovered disk disk-IsStore (codes "n") start start-IsCovered
