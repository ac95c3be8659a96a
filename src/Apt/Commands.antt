-- ===== src/Apt/Commands.antt =====
-- What `GetPreparePackages` puts into its commands.
use juju_utils.Common.{
  if◌then◌else◌, ◌≡◌, refl, arith, Bool, not, List, [], ◌∷◌, ◌++◌, append_assoc, append-nil,
  Bool-cases, inl, inr, ap, ap₂, sym, ◌∙◌,
}
use juju_utils.Common.Bytes.{Bytes, codes, bytes_eq}
use juju_utils.GoMap.Keys.{elem}
use juju_utils.Apt.{
  cloud_archive_packages, sort_packages, commands, get_prepare_packages, target_release,
}

-- The members that a test accepts, in their order.
abbrev pub accepted : (Bytes → Bool) → List Bytes → List Bytes
accepted p [] = []
accepted p (x ∷ xs) = if p x then x ∷ accepted p xs else accepted p xs

abbrev pub in_archive : Bytes → Bool
in_archive pkg = elem pkg cloud_archive_packages

abbrev pub elsewhere : Bytes → Bool
elsewhere pkg = not (in_archive pkg)

-- One command with options and packages, unless there are no packages.
abbrev pub command_for : List Bytes → List Bytes → List (List Bytes)
command_for options [] = []
command_for options (pkg ∷ pkgs) = (options ++ pkg ∷ pkgs) ∷ []

abbrev pub release_options : List Bytes
release_options = codes "--target-release" ∷ codes "precise-updates/cloud-tools" ∷ []

sort_packages-accepted :
    (packages with_target pkgs : List Bytes)
    → sort_packages packages (with_target, pkgs)
      ≡ (with_target ++ accepted in_archive packages, pkgs ++ accepted elsewhere packages)
unfolding sort_packages
sort_packages-accepted [] with_target pkgs =
    ap₂ (λ (xs ys : List Bytes). (xs, ys)) (sym (append-nil with_target)) (sym (append-nil pkgs))
sort_packages-accepted (pkg ∷ packages) with_target pkgs =
    elim (Bool-cases (elem pkg cloud_archive_packages)) [
      | inl listed ↦
          rw
            (
              listed,
              sort_packages-accepted packages (with_target ++ pkg ∷ []) pkgs,
              append_assoc with_target (pkg ∷ []) (accepted in_archive packages),
            )
            refl
      | inr other ↦
          rw
            (
              other,
              sort_packages-accepted packages with_target (pkgs ++ pkg ∷ []),
              append_assoc pkgs (pkg ∷ []) (accepted elsewhere packages),
            )
            refl
    ]

commands-command_for :
    (xs ys : List Bytes)
    → commands (release_options ++ xs, ys) ≡ command_for release_options xs ++ command_for [] ys
commands-command_for [] [] = refl
commands-command_for [] (y ∷ ys) = ground arith
commands-command_for (x ∷ xs) [] = ground arith
commands-command_for (x ∷ xs) (y ∷ ys) = ground arith

-- For precise there is one command with the packages of the cloud archive, for the release that holds
-- them, and after it one with all other packages: each in the order of the argument, and none of them
-- empty.
pub get_prepare_packages-precise :
    (packages : List Bytes)
    → get_prepare_packages packages (codes "precise")
      ≡ command_for release_options (accepted in_archive packages)
        ++ command_for [] (accepted elsewhere packages)
unfolding get_prepare_packages target_release
get_prepare_packages-precise packages =
    ap commands (sort_packages-accepted packages release_options [])
    ∙ commands-command_for (accepted in_archive packages) (accepted elsewhere packages)
