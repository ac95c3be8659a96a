-- ===== src/Zip.antt =====
-- zip/zip.go: where the files of an archive are extracted to. What the operating system does with
-- the paths is not modelled.
pub mod Sane
pub mod Target
pub mod Contained
use juju_utils.Common.{
  ℕ, Bool, true, false, ◌&&◌, ◌||◌, not, Option, none, some, List, [], ◌∷◌, ◌++◌, if◌then◌else◌,
  nat_beq, ◌==◌, is_some,
}
use juju_utils.Common.Bytes.{Bytes, bytes_eq}
use juju_utils.Common.Results.{Result, ok, err}
use juju_utils.Text.Path.{is_abs, clean, join_paths, dir, rel}

-- The text after a prefix, if it has the prefix.
unfoldable pub after_prefix : Bytes → Bytes → Option Bytes
after_prefix [] s = some s
after_prefix (c ∷ p) [] = none
after_prefix (c ∷ p) (d ∷ s) = let rest = after_prefix p s in if nat_beq c d then rest else none

-- `isSanePath`.
unfoldable pub is_sane_path : Bytes → Bool
unfolding after_prefix
is_sane_path path =
    not (path == b'.' ∷ b'.' ∷ [] || is_some (after_prefix (b'.' ∷ b'.' ∷ b'/' ∷ []) path))

pub record Extractor : Type 0 where
  pub target_root : Bytes
  pub source_root : Bytes

-- The types of `mode & os.ModeType`.
pub data Kind : Type 0 where
  directory symlink regular : Kind
  unknown : ℕ → Kind

-- `zip.File`, with what its reader gives, and the error with which that ends, if it does not end well.
pub record File (E : Type 0) : Type 0 where
  pub name : Bytes
  pub kind : Kind
  pub perm : ℕ
  pub contents : Bytes
  pub read_error : Option E

abbrev pub under_root : Bytes → Option Bytes → Option Bytes
under_root root none = none
under_root root (some path) = some (join_paths root path)

-- `targetPath`.
unfoldable pub target_path : Extractor → Bytes → Option Bytes
unfolding clean after_prefix
target_path x name =
    if clean name == x.source_root
    then some x.target_root
    else if not (x.source_root == [])
    then under_root x.target_root (after_prefix (x.source_root ++ b'/' ∷ []) (clean name))
    else some (join_paths x.target_root (clean name))

pub data ExtractError (E : Type 0) : Type 0 where
  cannot_extract_rooted : Bytes → ExtractError E
  unreadable : E → ExtractError E
  absolute not_comprehensible out_of_scope : Bytes → ExtractError E
  unknown_file_type : ℕ → ExtractError E

-- What is made at a path. The parent directories that are made before it are not listed.
pub data Made : Type 0 where
  makes_dir : Bytes → ℕ → Made
  makes_link : Bytes → Bytes → Made
  makes_file : Bytes → Bytes → ℕ → Made

-- The root in the archive, from its cleaned path.
abbrev pub source_of : Bytes → Bytes
source_of s = if s == b'.' ∷ [] then [] else s

module _ {E : Type 0} where
  abbrev pub check_scope : Bytes → Option Bytes → Result (ExtractError E) Bytes
  check_scope target none = err (not_comprehensible target)
  check_scope target (some relative) =
      if is_sane_path relative then ok target else err (out_of_scope target)

  -- `checkSymlink`, with the text of the link and the error of reading it.
  unfoldable pub check_symlink :
      Extractor → Bytes → Bytes → Option E → Result (ExtractError E) Bytes
  unfolding is_sane_path dir join_paths rel
  check_symlink x path target (some e) = err (unreadable e)
  check_symlink x path target none =
      if is_abs target
      then err (absolute target)
      else check_scope target (rel x.target_root (join_paths (dir path) target))

  -- What has been made, and the error.
  abbrev pub linked : Bytes → Result (ExtractError E) Bytes → List Made × Option (ExtractError E)
  linked path (err e) = ([], some e)
  linked path (ok target) = (makes_link path target ∷ [], none)

  -- The error of `copyTo`.
  abbrev pub copied : Option E → Option (ExtractError E)
  copied none = none
  copied (some e) = some (unreadable e)

  -- `writeDir`, `writeSymlink` and `writeFile`.
  unfoldable pub make : Extractor → File E → Bytes → Kind → List Made × Option (ExtractError E)
  unfolding check_symlink
  make x f path directory = (makes_dir path f.perm ∷ [], none)
  make x f path symlink = linked path (check_symlink x path f.contents f.read_error)
  make x f path regular = (makes_file path f.contents f.perm ∷ [], copied f.read_error)
  make x f path (unknown n) = ([], some (unknown_file_type n))

  -- After a file: the others, unless there was an error.
  abbrev pub then_made :
      List Made × Option (ExtractError E)
      → List Made × Option (ExtractError E)
      → List Made × Option (ExtractError E)
  then_made (ms, some e) rest = (ms, some e)
  then_made (ms, none) (ms', e) = (ms ++ ms', e)

  -- `extract`, if the file is extracted at all.
  abbrev pub extracted :
      Extractor
      → File E
      → Option Bytes
      → List Made × Option (ExtractError E)
      → List Made × Option (ExtractError E)
  extracted x f none rest = rest
  extracted x f (some path) rest = then_made (make x f path f.kind) rest

  -- The loop of `Extract`.
  unfoldable pub extract_files : Extractor → List (File E) → List Made × Option (ExtractError E)
  unfolding target_path make
  extract_files x [] = ([], none)
  extract_files x (f ∷ fs) = extracted x f (target_path x f.name) (extract_files x fs)

  -- `Extract`.
  unfoldable pub extract : List (File E) → Bytes → Bytes → List Made × Option (ExtractError E)
  unfolding extract_files is_sane_path clean
  extract files target_root source_root =
      let source = source_of (clean source_root) in
      if not (is_sane_path source)
      then ([], some (cannot_extract_rooted source))
      else extract_files (record { target_root = target_root; source_root = source }) files
