-- ===== src/Zip/Contained.antt =====
-- Nothing is extracted to a path outside the target root.
use juju_utils.Common.{
  All-append, ◌≡◌, refl, arith, ap, sym, ◌∙◌, subst, true, false, Option, none, some, List, [], ◌∷◌,
  ◌++◌, ◌==◌, Bool-cases, Option-cases, inl, inr, All,
}
use juju_utils.Common.Bytes.{Bytes, bytes_eq}
use juju_utils.Common.Results.{Result, ok, err}
use juju_utils.Text.Fields.{split}
use juju_utils.Text.Path.{no_up, is_abs, elements, print, clean, join_paths, dir, rel_elements, rel}
use juju_utils.Text.Path.Clean.{ups_first, ups_first-resolve}
use juju_utils.Zip.{
  is_sane_path, Extractor, File, Kind, directory, symlink, regular, unknown, target_path,
  ExtractError, Made, makes_dir, makes_link, makes_file, check_scope, check_symlink, linked, make,
  then_made, extracted, extract_files, source_of, extract,
}
use juju_utils.Zip.Target.{IsAt, HasSaneName, ups_first-append, target_path-IsAt}
use juju_utils.Zip.Sane.{rel_elements-sane}

-- A path that leads from the root down, if its elements are followed one after the other.
abbrev pub LeadsUnder : Bytes → Bytes → Type 0
LeadsUnder root path =
    (is_abs path ≡ is_abs root)
    × ((rest : List Bytes) × (elements path ≡ elements root ++ rest) × (no_up rest ≡ true))

-- What is made stands at or under the root; a link leads to a path under it, by the link's text.
abbrev pub IsContained : Bytes → Made → Type 0
IsContained root (makes_dir path perm) = IsAt root path
IsContained root (makes_file path contents perm) = IsAt root path
IsContained root (makes_link path target) =
    IsAt root path × LeadsUnder root (join_paths (dir path) target)

rel_under :
    (root final relative : Bytes)
    → ups_first (elements final) ≡ true
    → rel root final ≡ some relative
    → is_sane_path relative ≡ true
    → LeadsUnder root final
unfolding rel
rel_under root final relative first h sane =
    let rooted : is_abs final ≡ is_abs root = ground arith in
    elim (Option-cases (rel_elements (elements root) (elements final))) [
      | inl fails ↦ absurd (ground arith)
      | inr (es, found) ↦
          let printed_es : print false es ≡ relative = ground arith in
          let (e, down) =
            rel_elements-sane (elements root) (elements final) es found
              (ap is_sane_path printed_es ∙ sane) in
          (rooted, (es, e, ups_first-append (elements root) es (ap ups_first (sym e) ∙ first) down))
    ]

elements-ups_first : (s : Bytes) → ups_first (elements s) ≡ true
unfolding elements ups_first
elements-ups_first s = ups_first-resolve (is_abs s) [] (split b'/' s) refl

module _ {E : Type 0} (x : Extractor) where
  check_scope_ok :
      (final target target' : Bytes) (r : Option Bytes)
      → check_scope {E = E} target r ≡ ok target'
      → (relative : Bytes) × (r ≡ some relative)
        × (is_sane_path relative ≡ true)
        × (target ≡ target')
  check_scope_ok final target target' none h = absurd (ground arith)
  check_scope_ok final target target' (some relative) h =
      elim (Bool-cases (is_sane_path relative)) [
        | inl sane ↦ (relative, refl, sane, ground arith)
        | inr other ↦ absurd (ground arith)
      ]

  check_symlink_ok :
      (path text target : Bytes) (read_error : Option E)
      → check_symlink x path text read_error ≡ ok target
      → LeadsUnder x.target_root (join_paths (dir path) target)
  unfolding check_symlink
  check_symlink_ok path text target (some e) h = absurd (ground arith)
  check_symlink_ok path text target none h = elim (Bool-cases (is_abs text)) [
    | inl absolute_text ↦ absurd (ground arith)
    | inr other ↦
        let final = join_paths (dir path) text in
        let (relative, found, sane, same) =
          check_scope_ok final text target (rel x.target_root final) (ground arith) in
        subst (λ (t : Bytes). LeadsUnder x.target_root (join_paths (dir path) t)) same
          (rel_under x.target_root final relative (elements-ups_first final) found sane)
  ]

  IsAllContained : List Made × Option (ExtractError E) → Type 0
  IsAllContained r = All (IsContained x.target_root) r.0

  linked-IsContained :
      (path : Bytes) (r : Result (ExtractError E) Bytes)
      → IsAt x.target_root path
      → ((target : Bytes) → r ≡ ok target → LeadsUnder x.target_root (join_paths (dir path) target))
      → IsAllContained (linked path r)
  unfolding IsAllContained
  linked-IsContained path (err e) at leads = tt
  linked-IsContained path (ok target) at leads = ((at, leads target refl), tt)

  make-IsContained :
      (f : File E) (path : Bytes) (kind : Kind)
      → IsAt x.target_root path
      → IsAllContained (make x f path kind)
  unfolding make IsAllContained
  make-IsContained f path directory at = (at, tt)
  make-IsContained f path symlink at =
      linked-IsContained path (check_symlink x path f.contents f.read_error) at
        (λ target e. check_symlink_ok path f.contents target f.read_error e)
  make-IsContained f path regular at = (at, tt)
  make-IsContained f path (unknown n) at = tt

  then_made-IsContained :
      (r rest : List Made × Option (ExtractError E))
      → IsAllContained r
      → IsAllContained rest
      → IsAllContained (then_made r rest)
  unfolding IsAllContained
  then_made-IsContained (ms, some e) rest here others = here
  then_made-IsContained (ms, none) (ms', e) here others =
      All-append (IsContained x.target_root) ms ms' here others

  extracted-IsContained :
      (f : File E) (path : Option Bytes) (rest : List Made × Option (ExtractError E))
      → ((p : Bytes) → path ≡ some p → IsAt x.target_root p)
      → IsAllContained rest
      → IsAllContained (extracted x f path rest)
  extracted-IsContained f none rest at others = others
  extracted-IsContained f (some path) rest at others =
      then_made-IsContained (make x f path f.kind) rest
        (make-IsContained f path f.kind (at path refl)) others

  extract_files-IsContained :
      (files : List (File E))
      → (x.target_root == []) ≡ false
      → is_sane_path x.source_root ≡ true
      → All (λ f. HasSaneName x.source_root f.name) files
      → IsAllContained (extract_files x files)
  unfolding extract_files IsAllContained
  extract_files-IsContained [] root sane named = tt
  extract_files-IsContained (f ∷ fs) root sane named =
      extracted-IsContained f (target_path x f.name) (extract_files x fs)
        (λ p h. target_path-IsAt x f.name p root sane named.0 h)
        (extract_files-IsContained fs root sane named.1)

-- If the target root is not the empty text, and there is a source root or no name leads up, then what
-- `Extract` makes, apart from parent directories, stands at the target root or under it, and each link's
-- text leads from there to a path under the target root.
pub extract-IsContained :
    {E : Type 0} (files : List (File E)) (root source : Bytes)
    → (root == []) ≡ false
    → All (λ f. HasSaneName (source_of (clean source)) f.name) files
    → All (IsContained root) (extract files root source).0
unfolding extract IsAllContained
extract-IsContained files root source rooted named =
    elim (Bool-cases (is_sane_path (source_of (clean source)))) [
      | inl sane ↦ rw sane (
          extract_files-IsContained
            (record { target_root = root; source_root = source_of (clean source) }) files rooted
            sane named)
      | inr other ↦ rw other tt
    ]
