-- ===== src/Examples/Apts.antt =====
-- apt-get at concrete inputs.
use juju_utils.Common.{
  if◌then◌else◌, ltb, length, some, arith, ℕ, ◌≡◌, refl, List, [], ◌∷◌, ◌++◌, map,
}
use juju_utils.Common.Int.{ℤ, pos}
use juju_utils.Common.Bytes.{Bytes, codes}
use juju_utils.GoMap.Keys.{elem}
use juju_utils.Apt.{returns, exit_status, get_install, get_prepare_packages}
use juju_utils.Apt.Retries.{failed, expected, get_install_lem}

abbrev mixed : List Bytes
mixed = codes "git" ∷ codes "lxc" ∷ codes "vim" ∷ codes "curtin" ∷ []

abbrev mixed_commands : List (List Bytes)
mixed_commands =
    (codes "--target-release"
      ∷ codes "precise-updates/cloud-tools"
      ∷ codes "lxc"
      ∷ codes "curtin"
      ∷ [])
    ∷ (codes "git" ∷ codes "vim" ∷ [])
    ∷ []

mixed_prepared : get_prepare_packages mixed (codes "precise") ≡ mixed_commands
unfolding get_prepare_packages elem
mixed_prepared = refl

trusty_prepared : get_prepare_packages mixed (codes "trusty") ≡ mixed ∷ []
unfolding get_prepare_packages elem
trusty_prepared = refl

abbrev two_failures : List (ℤ × ℤ)
two_failures = (pos 1, pos 1) ∷ (pos 2, pos 10_000_000_001) ∷ []

get_install_example :
    get_install (pos 0) (map failed two_failures ++ ((pos 3, pos 4), exit_status 1) ∷ []) ≡ (
      if ltb (length two_failures) 30
      then expected {E = ℕ} (exit_status 1)
      else returns (some (exit_status 100)))
get_install_example =
    get_install_lem (pos 0) (pos 3) (pos 4) two_failures (exit_status 1)
      (omega arith, (omega arith, tt)) (omega arith)
