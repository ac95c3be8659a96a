-- ===== src/Tar/Reading/Contained.antt =====
-- Where an archive is extracted to.
use juju_utils.Common.{
  inr, inl, ◌++◌, Bool-cases, Bool, ℕ, ◌≡◌, true, false, Option, none, some, List, [], ◌∷◌, All,
  All-append, ◌==◌,
}
use juju_utils.Common.Bytes.{Bytes, bytes_eq}
use juju_utils.Text.Fields.{split}
use juju_utils.Text.Path.{no_up, join_paths}
use juju_utils.Text.Path.Parents.{parents, IsNear, parents-join_paths}
use juju_utils.Text.Path.Under.{IsUnder, join_paths-IsUnder}
use juju_utils.Tar.{Typeflag, regular, directory, symlink, other, Header, Entry}
use juju_utils.Tar.Reading.{
  mkdir_all, make_missing, UntarError, Change, makes_dir, makes_link, creates, writes, changes_mode,
  Disk, Extracted, done, then_extracted, wrap_error, filled, create_and_fill, extract_entry,
  untar_files,
}

-- A directory that is made is under the root or on the way to it; all else that changes is under the root.
abbrev pub IsContained : Bytes → Change → Type 0
IsContained root (makes_dir path mode) = IsNear root path
IsContained root (makes_link target path) = IsUnder root path
IsContained root (creates path) = IsUnder root path
IsContained root (writes path contents) = IsUnder root path
IsContained root (changes_mode path mode) = IsUnder root path

abbrev Changes : Bytes → List Change → Type 0
Changes root = All (IsContained root)

module _ {E : Type 0} (root : Bytes) where
  done-Changes :
      (c : Change) (wrap : E → UntarError E) (e : Option E) (rest : Extracted E)
      → IsContained root c
      → Changes root rest.1
      → Changes root (done c wrap e rest).1
  unfolding done
  done-Changes c wrap (some e) rest p h = tt
  done-Changes c wrap none (e, cs) p h = (p, h)

  filled-Changes :
      (path contents : Bytes) (e : Option (ℕ × E)) (rest : Extracted E)
      → IsUnder root path
      → Changes root rest.1
      → Changes root (filled path contents e rest).1
  unfolding filled
  filled-Changes path contents (some (n, e)) rest p h = (p, tt)
  filled-Changes path contents none (e, cs) p h = (p, h)

  wrap_error-Changes :
      (wrap : UntarError E → UntarError E) (r : Extracted E)
      → Changes root r.1
      → Changes root (wrap_error wrap r).1
  unfolding wrap_error
  wrap_error-Changes wrap (none, cs) h = h
  wrap_error-Changes wrap (some e, cs) h = h

  then_extracted-Changes :
      (r rest : Extracted E)
      → Changes root r.1
      → Changes root rest.1
      → Changes root (then_extracted r rest).1
  unfolding then_extracted
  then_extracted-Changes (some e, cs) rest h hs = h
  then_extracted-Changes (none, cs) (e, ds) h hs = All-append (IsContained root) cs ds h hs

  module _ (disk : Disk E) where
    create_and_fill-Changes :
        (path : Bytes) (mode : ℕ) (contents : Bytes)
        → IsUnder root path
        → Changes root (create_and_fill disk path mode contents).1
    unfolding create_and_fill
    create_and_fill-Changes path mode contents p =
        done-Changes _ _ _ _ p (filled-Changes path contents _ _ p (done-Changes _ _ _ _ p tt))

    make_missing-Changes :
        (path : Bytes) (mode : ℕ) (missing : Bytes → Bool) (ps : List Bytes)
        → All (IsNear root) ps
        → Changes root (make_missing disk path mode missing ps).1
    unfolding make_missing
    make_missing-Changes path mode missing [] h = tt
    make_missing-Changes path mode missing (p ∷ ps) h =
        let rest = make_missing-Changes path mode missing ps h.1 in
        elim (Bool-cases (missing p)) [
          | inl absent ↦ rw absent (done-Changes _ _ _ _ h.0 rest)
          | inr there ↦ rw there rest
        ]

    extract_entry-Changes :
        (t : Typeflag) (path : Bytes) (h : Header) (contents : Bytes) (missing : Bytes → Bool)
        → IsUnder root path
        → All (IsNear root) (parents path)
        → Changes root (extract_entry disk t path h contents missing).1
    unfolding extract_entry mkdir_all
    extract_entry-Changes directory path h contents missing p above =
        make_missing-Changes path h.mode missing (parents path ++ path ∷ [])
          (All-append (IsNear root) (parents path) (path ∷ []) above (inl p, tt))
    extract_entry-Changes symlink path h contents missing p above = done-Changes _ _ _ _ p tt
    extract_entry-Changes regular path h contents missing p above =
        wrap_error-Changes _ _ (create_and_fill-Changes path h.mode contents p)
    extract_entry-Changes (other n) path h contents missing p above =
        wrap_error-Changes _ _ (create_and_fill-Changes path h.mode contents p)

-- If no name in the archive has an element `..`, and the output folder is not the empty text, then every
-- file, link and mode that `UntarFiles` makes or changes has a path under the output folder, and so has every
-- directory that it makes, but for those on the way to the output folder that are missing; also if the
-- archive or a call fails.
pub untar_files-IsContained :
    {E : Type 0} (disk : Disk E) (es : List Entry) (ending : Option E) (output : Bytes)
    → (output == []) ≡ false
    → All (λ e. no_up (split b'/' e.0.name) ≡ true) es
    → All (IsContained output) (untar_files disk es ending output).1
unfolding untar_files
untar_files-IsContained disk [] none output root down = tt
untar_files-IsContained disk [] (some e) output root down = tt
untar_files-IsContained disk ((h, contents) ∷ es) ending output root down =
    then_extracted-Changes output _ _
      (extract_entry-Changes output disk h.typeflag (join_paths output h.name) h contents _
        (join_paths-IsUnder output h.name root down.0)
        (parents-join_paths output h.name root down.0))
      (untar_files-IsContained disk es ending output root down.1)
