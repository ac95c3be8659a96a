-- ===== src/Zip/Target.antt =====
-- Where `targetPath` leads.
use juju_utils.Common.{
  ◌≡◌, ◌⊎◌, arith, ap, sym, ◌∙◌, subst, true, false, some, List, [], ◌∷◌, ◌++◌, append_assoc, ◌==◌,
  Bool-cases, Option-cases, inl, inr,
}
use juju_utils.Common.Bytes.{Bytes, bytes_eq}
use juju_utils.Text.Fields.{split}
use juju_utils.Text.Path.{is_up, no_up, clean, join_paths}
use juju_utils.Text.Path.Clean.{ups_first, split-clean}
use juju_utils.Text.Path.Under.{
  IsUnder, starts_up, no_up-ups_first, split-cons, split-slash, join_paths-IsUnder,
}
use juju_utils.Zip.{is_sane_path, after_prefix, Extractor, target_path}
use juju_utils.Zip.Sane.{split-sane}

-- The root itself, or a path under it.
abbrev pub IsAt : Bytes → Bytes → Type 0
IsAt root path = (path ≡ root) ⊎ IsUnder root path

-- A source root, or a name that does not lead up.
abbrev pub HasSaneName : Bytes → Bytes → Type 0
HasSaneName source name = ((source == []) ≡ false) ⊎ (is_sane_path (clean name) ≡ true)

pub no_up-append : (es fs : List Bytes) → no_up (es ++ fs) ≡ true → no_up fs ≡ true
unfolding no_up
no_up-append [] fs h = h
no_up-append (e ∷ es) fs h = no_up-append es fs (ground arith)

pub ups_first-append :
    (es fs : List Bytes) → ups_first (es ++ fs) ≡ true → starts_up fs ≡ false → no_up fs ≡ true
unfolding ups_first
ups_first-append [] fs h down = no_up-ups_first fs h down
ups_first-append (e ∷ es) fs h down = ground (arith, ups_first-append es fs, no_up-append es fs)

after_prefix_lem : (p s q : Bytes) → after_prefix p s ≡ some q → s ≡ p ++ q
unfolding after_prefix
after_prefix_lem [] s q h = ground arith
after_prefix_lem (c ∷ p) [] q h = absurd (ground arith)
after_prefix_lem (c ∷ p) (d ∷ s) q h = ground (arith, after_prefix_lem p s q)

-- What follows a sane source root does not go up.
no_up-below :
    (source path q : Bytes)
    → is_sane_path source ≡ true
    → ups_first (split b'/' path) ≡ true
    → after_prefix (source ++ b'/' ∷ []) path ≡ some q
    → no_up (split b'/' q) ≡ true
no_up-below source path q sane h found =
    let e : path ≡ source ++ b'/' ∷ q =
      after_prefix_lem (source ++ b'/' ∷ []) path q found ∙ append_assoc source (b'/' ∷ []) q in
    let (f, fs, first) = split-cons source in
    let parts : split b'/' path ≡ (f ∷ fs) ++ split b'/' q =
      ap (split b'/') e
      ∙ split-slash source q
      ∙ ap (λ (es : List Bytes). es ++ split b'/' q) first in
    let down : is_up f ≡ false = ap starts_up (sym first) ∙ split-sane source sane in
    no_up-append (f ∷ fs) (split b'/' q)
      (no_up-ups_first ((f ∷ fs) ++ split b'/' q) (ap ups_first (sym parts) ∙ h) down)

pub target_path-IsAt :
    (x : Extractor) (name path : Bytes)
    → (x.target_root == []) ≡ false
    → is_sane_path x.source_root ≡ true
    → HasSaneName x.source_root name
    → target_path x name ≡ some path
    → IsAt x.target_root path
unfolding target_path
target_path-IsAt x name path root sane named h = elim (Bool-cases (clean name == x.source_root)) [
  | inl top ↦ inl (ground arith)
  | inr below ↦ elim (Bool-cases (x.source_root == [])) [
    | inl all ↦
        let e : join_paths x.target_root (clean name) ≡ path = ground arith in
        inr (
          subst (IsUnder x.target_root) e (
            join_paths-IsUnder x.target_root (clean name) root (
              no_up-ups_first (split b'/' (clean name)) (split-clean name)
                (split-sane (clean name) (ground arith)))))
    | inr part ↦ elim (Option-cases (after_prefix (x.source_root ++ b'/' ∷ []) (clean name))) [
      | inl missing ↦ absurd (ground arith)
      | inr (q, found) ↦
          let e : join_paths x.target_root q ≡ path = ground arith in
          inr (
            subst (IsUnder x.target_root) e (
              join_paths-IsUnder x.target_root q root
                (no_up-below x.source_root (clean name) q sane (split-clean name) found)))
    ]
  ]
]
