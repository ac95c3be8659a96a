-- ===== src/FileStorage/Metadata.antt =====
-- filestorage/metadata.go: documents with an id, and the metadata of a file.
pub mod SetOnce
use juju_utils.Common.{
  ℕ, ◌≡◌, ◌≢◌, Bool, true, false, ◌&&◌, ◌||◌, not, Option, none, some, List, [], ◌∷◌, ◌==◌, nat_eq,
  if◌then◌else◌,
}
use juju_utils.Common.Int.{ℤ, pos, beq_ℤ}
use juju_utils.Common.Bytes.{Bytes, bytes_beq}

-- `RawDoc`.
pub record Doc : Type 0 where
  pub id : Bytes

-- `SetID`: true if the id was set already.
unfoldable pub set_id : Bytes → Doc → Bool × Doc
set_id id d = if not (bytes_beq d.id []) then (true, d) else (false, record d { id = id })

-- `FileMetadata`, its document and its `RawFileMetadata`. A timestamp is a number.
pub record FileMetadata : Type 0 where
  pub doc : Doc
  pub size : ℤ
  pub checksum : Bytes
  pub checksum_format : Bytes
  pub stored : Option ℕ

abbrev pub new_metadata : FileMetadata
new_metadata = record {
  doc = record { id = [] };
  size = pos 0;
  checksum = [];
  checksum_format = [];
  stored = none;
}

pub data InfoError : Type 0 where
  missing_checksum_format missing_checksum : InfoError
  size_already_set checksum_already_set format_already_set : InfoError

abbrev is_empty : Bytes → Bool
is_empty s = bytes_beq s []

-- The rest of `SetFileInfo`, once each argument that was left out stands for the value in place.
unfoldable pub set_info : ℤ → Bytes → Bytes → FileMetadata → FileMetadata × Option InfoError
set_info size checksum format m =
    if not (is_empty checksum) && is_empty format
    then (m, some missing_checksum_format)
    else if is_empty checksum && not (is_empty format)
    then (m, some missing_checksum)
    else if not (beq_ℤ m.size (pos 0)) && not (beq_ℤ size m.size)
    then (m, some size_already_set)
    else if not (is_empty m.checksum) && not (bytes_beq checksum m.checksum)
    then (m, some checksum_already_set)
    else if not (is_empty m.checksum_format) && not (bytes_beq format m.checksum_format)
    then (m, some format_already_set)
    else (record m { size = size; checksum = checksum; checksum_format = format }, none)

-- `SetFileInfo`.
unfoldable pub set_file_info : ℤ → Bytes → Bytes → FileMetadata → FileMetadata × Option InfoError
unfolding set_info
set_file_info size checksum format m =
    set_info (if beq_ℤ size (pos 0) then m.size else size)
      (if is_empty checksum then m.checksum else checksum)
      (if is_empty format then m.checksum_format else format) m

-- `SetStored`, with the time that `time.Now()` gives.
unfoldable pub set_stored : Option ℕ → ℕ → FileMetadata → FileMetadata
set_stored none now m = record m { stored = some now }
set_stored (some t) now m = record m { stored = some t }
