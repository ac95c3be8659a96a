-- ===== src/Tar/Reading.antt =====
-- tar/tar.go: `FindFile`, `UntarFiles` and its `createAndFill`. Reading an archive gives its entries and then
-- its end, or an error of archive/tar.
pub mod Contained
use juju_utils.Common.{
  Bool, length, ℕ, Option, none, some, List, [], ◌∷◌, ◌++◌, if◌then◌else◌, take, ◌==◌,
}
use juju_utils.Common.Bytes.{Bytes, bytes_eq}
use juju_utils.Common.Results.{Result, ok, err}
use juju_utils.Text.Path.{join_paths}
use juju_utils.Text.Path.Parents.{parents}
use juju_utils.Tar.{Typeflag, regular, directory, symlink, other, Header, Entry}

pub data FindError (E : Type 0) : Type 0 where
  not_found : Bytes → FindError E
  failed : E → FindError E

-- What a call of the operating system does to the disk.
pub data Change : Type 0 where
  makes_dir : Bytes → ℕ → Change
  makes_link : Bytes → Bytes → Change
  creates : Bytes → Change
  writes : Bytes → Bytes → Change
  changes_mode : Bytes → ℕ → Change

-- The errors of the calls, how many bytes `io.Copy` writes before an error, and which directories
-- `os.MkdirAll` finds missing when so many entries are left in the archive.
pub record Disk (E : Type 0) : Type 0 where
  pub fault : Change → Option E
  pub copy_error : Bytes → Option (ℕ × E)
  pub missing : ℕ → Bytes → Bool

pub data UntarError (E : Type 0) : Type 0 where
  cannot_be_written failed_while_reading : E → UntarError E
  cannot_set_mode : Bytes → E → UntarError E
  cannot_extract_dir cannot_extract_link : Bytes → E → UntarError E
  cannot_extract_file : Bytes → UntarError E → UntarError E
  bad_header : E → UntarError E

-- The error, and what has been done to the disk.
abbrev pub Extracted : Type 0 → Type 0
Extracted E = Option (UntarError E) × List Change

module _ {E : Type 0} where
  -- `FindFile`: the header, and what can be read from the reader.
  unfoldable pub find_file : List Entry → Option E → Bytes → Result (FindError E) Entry
  find_file [] none file_name = err (not_found file_name)
  find_file [] (some e) file_name = err (failed e)
  find_file ((header, contents) ∷ es) ending file_name =
      let rest = find_file es ending file_name in
      if header.name == file_name then ok (header, contents) else rest

  -- A call that must succeed.
  unfoldable pub done : Change → (E → UntarError E) → Option E → Extracted E → Extracted E
  done change wrap (some e) rest = (some (wrap e), [])
  done change wrap none (e, cs) = (e, change ∷ cs)

  unfoldable pub then_extracted : Extracted E → Extracted E → Extracted E
  then_extracted (some e, cs) rest = (some e, cs)
  then_extracted (none, cs) (e, ds) = (e, cs ++ ds)

  unfoldable pub wrap_error : (UntarError E → UntarError E) → Extracted E → Extracted E
  wrap_error wrap (none, cs) = (none, cs)
  wrap_error wrap (some e, cs) = (some (wrap e), cs)

  -- `io.Copy` to the new file, and what follows it.
  unfoldable pub filled : Bytes → Bytes → Option (ℕ × E) → Extracted E → Extracted E
  filled path contents (some (n, e)) rest =
      (some (failed_while_reading e), writes path (take n contents) ∷ [])
  filled path contents none (e, cs) = (e, writes path contents ∷ cs)

  module _ (disk : Disk E) where
    unfoldable pub create_and_fill : Bytes → ℕ → Bytes → Extracted E
    unfolding done filled
    create_and_fill path mode contents =
        let changed =
          done (changes_mode path mode) (cannot_set_mode path) (disk.fault (changes_mode path mode))
            (none, []) in
        done (creates path) cannot_be_written (disk.fault (creates path))
          (filled path contents (disk.copy_error path) changed)

    -- The calls that `os.MkdirAll` makes for the directories that are missing, one below the other.
    unfoldable pub make_missing : Bytes → ℕ → (Bytes → Bool) → List Bytes → Extracted E
    unfolding done
    make_missing path mode missing [] = (none, [])
    make_missing path mode missing (p ∷ ps) =
        let rest = make_missing path mode missing ps in
        if missing p
        then done (makes_dir p mode) (cannot_extract_dir path) (disk.fault (makes_dir p mode)) rest
        else rest

    unfoldable pub mkdir_all : Bytes → ℕ → (Bytes → Bool) → Extracted E
    unfolding make_missing parents
    mkdir_all path mode missing = make_missing path mode missing (parents path ++ path ∷ [])

    -- One round of the loop of `UntarFiles`.
    unfoldable pub extract_entry : Typeflag → Bytes → Header → Bytes → (Bytes → Bool) → Extracted E
    unfolding done wrap_error create_and_fill mkdir_all
    extract_entry directory path h contents missing = mkdir_all path h.mode missing
    extract_entry symlink path h contents missing =
        done (makes_link h.link_name path) (cannot_extract_link path)
          (disk.fault (makes_link h.link_name path)) (none, [])
    extract_entry regular path h contents missing =
        wrap_error (cannot_extract_file path) (create_and_fill path h.mode contents)
    extract_entry (other n) path h contents missing =
        wrap_error (cannot_extract_file path) (create_and_fill path h.mode contents)

    -- `UntarFiles`.
    unfoldable pub untar_files : List Entry → Option E → Bytes → Extracted E
    unfolding extract_entry
    untar_files [] none output = (none, [])
    untar_files [] (some e) output = (some (bad_header e), [])
    untar_files ((h, contents) ∷ es) ending output =
        let rest = untar_files es ending output in
        then_extracted
          (extract_entry h.typeflag (join_paths output h.name) h contents
            (disk.missing (length es)))
          rest
