-- ===== src/Tar.antt =====
-- tar/tar.go. The files are trees that do not change meanwhile; an archive is the list of its entries.
pub mod Reading
pub mod Listing
pub mod Stored
pub mod Succeeds
pub mod Total
pub mod Found
use juju_utils.Common.{ℕ, suc, Option, none, some, List, [], ◌∷◌, ◌++◌, take}
use juju_utils.Common.Bytes.{Bytes, bytes_eq}
use juju_utils.Common.Results.{Result, ok, err}
use juju_utils.FsCopy.{Node, Nodes, file, dir, link, special, end, child}
use juju_utils.Hashing.{Hash}
use juju_utils.Text.Base64.{encode}
use juju_utils.Text.Path.{join_paths}
use juju_utils.Zip.{after_prefix}

pub data Typeflag : Type 0 where
  regular directory symlink : Typeflag
  other : ℕ → Typeflag

pub record Header : Type 0 where
  pub name : Bytes
  pub mode : ℕ
  pub typeflag : Typeflag
  pub link_name : Bytes

-- An entry with the bytes of its file.
abbrev pub Entry : Type 0
Entry = Header × Bytes

-- `strings.TrimPrefix`.
abbrev pub after_or : Bytes → Option Bytes → Bytes
after_or s none = s
after_or s (some rest) = rest

unfoldable pub trim_prefix : Bytes → Bytes → Bytes
unfolding after_prefix
trim_prefix s prefix = after_or s (after_prefix prefix s)

-- The calls of the operating system on a file to be stored. `reads i` reads the next names of a directory
-- when `i` of its entries have been stored.
pub data Call : Type 0 where
  opens lstats writes_header : Call
  reads : ℕ → Call

-- What the environment does at each path: the errors of calls; how many bytes `io.Copy` reads before an
-- error; what is read from a file that is neither regular nor a directory; where a link leads; and how
-- `tar.FileInfoHeader` describes a file and the target of a link.
pub record System (E : Type 0) : Type 0 where
  pub fault : Call → Bytes → Option E
  pub copy_error : Bytes → Option (ℕ × E)
  pub device : Bytes → Bytes
  pub eval_symlinks : Bytes → Result E Bytes
  pub file_info_header : Node → Bytes → Result E Header

pub data TarError (E : Type 0) : Type 0 where
  failed : E → TarError E
  cannot_dereference : E → TarError E
  cannot_create_header : Bytes → E → TarError E
  cannot_write_header : Bytes → E → TarError E
  failed_to_write : Bytes → E → TarError E
  error_reading : Bytes → E → TarError E
  write_failed : TarError E → TarError E
  error_closing : E → TarError E

-- The error, and the entries that have been written.
abbrev pub Stored : Type 0 → Type 0
Stored E = Option (TarError E) × List Entry

module _ {E : Type 0} where
  unfoldable pub unless_fault : (E → TarError E) → Option E → Stored E → Stored E
  unless_fault wrap none r = r
  unless_fault wrap (some e) r = (some (wrap e), [])

  unfoldable pub with_value {ℓ} :
      {A : Type ℓ} → (E → TarError E) → Result E A → (A → Stored E) → Stored E
  with_value wrap (ok a) next = next a
  with_value wrap (err e) next = (some (wrap e), [])

  unfoldable pub then_stored : Stored E → Stored E → Stored E
  then_stored (some e, es) rest = (some e, es)
  then_stored (none, es) (e, fs) = (e, es ++ fs)

  -- The error of `tarAndHashFiles` for one of a file.
  unfoldable pub write_failed_if : Stored E → Stored E
  write_failed_if (none, es) = (none, es)
  write_failed_if (some e, es) = (some (write_failed e), es)

  -- `io.Copy` to the archive, after the header.
  unfoldable pub copy_file : Bytes → Header → Bytes → Option (ℕ × E) → Stored E
  copy_file path h contents none = (none, (h, contents) ∷ [])
  copy_file path h contents (some (n, e)) =
      (some (failed_to_write path e), (h, take n contents) ∷ [])

  module _ (s : System E) (strip : Bytes) where
    -- The header, once the file is open and its target known, and what follows it.
    unfoldable pub write_header : Node → Bytes → Bytes → (Header → Stored E) → Stored E
    write_header n path target next =
        with_value (cannot_create_header path) (s.file_info_header n target) (λ header.
          let h = record header { name = trim_prefix path strip } in
          unless_fault (cannot_write_header path) (s.fault writes_header path) (next h))

    unfoldable pub opened : Bytes → Stored E → Stored E
    opened path r =
        unless_fault failed (s.fault opens path) (unless_fault failed (s.fault lstats path) r)

    -- `writeContents`, and its loop over the names of a directory.
    unfoldable mutual
      pub write_contents : Node → Bytes → Stored E
      write_contents (file contents mode) path = opened path (
          write_header (file contents mode) path []
            (λ h. copy_file path h contents (s.copy_error path)))
      write_contents (link target) path = opened path (
          with_value cannot_dereference (s.eval_symlinks path)
            (λ led. write_header (link target) path led (λ h. (none, (h, []) ∷ []))))
      write_contents (special mode) path = opened path (
          write_header (special mode) path []
            (λ h. copy_file path h (s.device path) (s.copy_error path)))
      write_contents (dir mode ns) path =
          let rest = write_children ns path 0 in
          opened path
            (write_header (dir mode ns) path [] (λ h. then_stored (none, (h, []) ∷ []) rest))

      pub write_children : Nodes → Bytes → ℕ → Stored E
      write_children end path i =
          unless_fault (error_reading path) (s.fault (reads i) path) (none, [])
      write_children (child name n rest) path i =
          unless_fault (error_reading path) (s.fault (reads i) path) (
            then_stored (write_contents n (join_paths path name))
              (write_children rest path (suc i)))

    -- The loop of `tarAndHashFiles`, over the paths with what stands there.
    unfoldable pub write_all : List (Bytes × Node) → Stored E
    write_all [] = (none, [])
    write_all ((path, n) ∷ files) =
        then_stored (write_failed_if (write_contents n path)) (write_all files)

    -- The deferred `checkClose`.
    unfoldable pub check_close : Option E → Stored E → Stored E
    check_close (some e) (none, es) = (some (error_closing e), es)
    check_close none (none, es) = (none, es)
    check_close close_error (some e, es) = (some e, es)

    -- `TarFiles`: the sum or the error, and the entries. `printed` has the bytes of an archive.
    unfoldable pub tar_and_hash : List (Bytes × Node) → Option E → Stored E
    tar_and_hash files close_error = check_close close_error (write_all files)

    abbrev pub summed :
        (hash : Hash) → (List Entry → Bytes) → Stored E → Result (TarError E) Bytes × List Entry
    summed hash printed (none, es) = (ok (encode (hash.sum (hash.write (printed es) hash.new))), es)
    summed hash printed (some e, es) = (err e, es)

    unfoldable pub tar_files :
        (hash : Hash)
        → (List Entry → Bytes)
        → List (Bytes × Node)
        → Option E
        → Result (TarError E) Bytes × List Entry
    tar_files hash printed files close_error = summed hash printed (tar_and_hash files close_error)
