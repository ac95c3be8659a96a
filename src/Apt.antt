-- ===== src/Apt.antt =====
-- apt/apt.go: the commands that install packages, and how an installation is tried again.
pub mod Commands
pub mod Retries
use juju_utils.Common.{
  ℕ, ◌+◌, Bool, true, false, not, Option, none, some, List, [], ◌∷◌, ◌++◌, if◌then◌else◌, ltb,
  length, nat_beq, ◌==◌,
}
use juju_utils.Common.Int.{ℤ, pos}
use juju_utils.Common.Bytes.{Bytes, bytes_eq, codes}
use juju_utils.GoMap.Keys.{elem}
use juju_utils.Attempt.{AttemptStrategy, Attempt, start, next}
use juju_utils.Proxy.{Settings}

-- `installAttemptStrategy`, in nanoseconds.
abbrev pub install_attempt_strategy : AttemptStrategy
install_attempt_strategy = record { total = pos 0; delay = pos 10_000_000_000; minimum = pos 30 }

abbrev pub get_command : List Bytes
get_command =
    codes "apt-get"
    ∷ codes "--option=Dpkg::Options::=--force-confold"
    ∷ codes "--option=Dpkg::options::=--force-unsafe-io"
    ∷ codes "--assume-yes"
    ∷ codes "--quiet"
    ∷ []

-- `cloudArchivePackages`, by its keys.
abbrev pub cloud_archive_packages : List Bytes
cloud_archive_packages =
    codes "cloud-image-utils"
    ∷ codes "cloud-utils"
    ∷ codes "curtin"
    ∷ codes "djorm-ext-pgarray"
    ∷ codes "golang"
    ∷ codes "iproute2"
    ∷ codes "isc-dhcp"
    ∷ codes "juju-core"
    ∷ codes "libseccomp"
    ∷ codes "libv8-3.14"
    ∷ codes "lxc"
    ∷ codes "maas"
    ∷ codes "mongodb"
    ∷ codes "mongodb-server"
    ∷ codes "python-django"
    ∷ codes "python-django-piston"
    ∷ codes "python-jujuclient"
    ∷ codes "python-tx-tftp"
    ∷ codes "python-websocket-client"
    ∷ codes "raphael 2.1.0-1ubuntu1"
    ∷ codes "simplestreams"
    ∷ codes "txlongpoll"
    ∷ codes "uvtool"
    ∷ codes "yui3"
    ∷ []

-- `targetRelease`.
unfoldable pub target_release : Bytes → Bytes
target_release series =
    if series == codes "precise" then codes "precise-updates/cloud-tools" else []

-- The loop of `GetPreparePackages`, with its two slices.
unfoldable pub sort_packages : List Bytes → List Bytes × List Bytes → List Bytes × List Bytes
sort_packages [] (with_target, pkgs) = (with_target, pkgs)
sort_packages (pkg ∷ packages) (with_target, pkgs) = sort_packages packages (
    if elem pkg cloud_archive_packages
    then (with_target ++ pkg ∷ [], pkgs)
    else (with_target, pkgs ++ pkg ∷ []))

-- The two commands, if they have packages.
abbrev pub commands : List Bytes × List Bytes → List (List Bytes)
commands (with_target, pkgs) =
    (if ltb 2 (length with_target) then with_target ∷ [] else [])
    ++ (if ltb 0 (length pkgs) then pkgs ∷ [] else [])

-- `GetPreparePackages`.
unfoldable pub get_prepare_packages : List Bytes → Bytes → List (List Bytes)
unfolding target_release sort_packages
get_prepare_packages packages series =
    if target_release series == []
    then packages ∷ []
    else commands
        (sort_packages packages (codes "--target-release" ∷ target_release series ∷ [], []))

-- The arguments of the command that `GetInstall` runs.
unfoldable pub install_args : List Bytes → List Bytes
install_args packages = get_command ++ codes "install" ∷ packages

-- How a command ends: well, with an exit status, or with an error of another type.
pub data Output (E : Type 0) : Type 0 where
  succeeded : Output E
  exit_status : ℕ → Output E
  unexpected : E → Output E

-- Whether `GetInstall` has returned: not yet, or with the last error, if there is one.
pub data Installed (E : Type 0) : Type 0 where
  trying : Installed E
  returns : Option (Output E) → Installed E

module _ {E : Type 0} where
  -- What follows an attempt; `again` is the next round of the loop.
  abbrev pub after_attempt : Output E → Installed E → Installed E
  after_attempt succeeded again = returns none
  after_attempt (exit_status n) again =
      if nat_beq n 100 then again else returns (some (exit_status n))
  after_attempt (unexpected e) again = returns (some (unexpected e))

  -- The loop of `GetInstall`: for each round, the times that `Next` reads and how the command ends.
  unfoldable pub try_install : List ((ℤ × ℤ) × Output E) → Attempt → Option (Output E) → Installed E
  try_install [] a last = trying
  try_install (((now, woken), output) ∷ rounds) a last =
      let again = try_install rounds (next now woken a).1 (some output) in
      if (next now woken a).0 then after_attempt output again else returns last

  -- `GetInstall`, begun at the time `now`.
  unfoldable pub get_install : ℤ → List ((ℤ × ℤ) × Output E) → Installed E
  unfolding try_install
  get_install now rounds = try_install rounds (start install_attempt_strategy now) none

-- `addLine` in `ProxyContent`, where `quoted` is `%q`.
abbrev pub proxy_line : (Bytes → Bytes) → Bytes → Bytes → List Bytes → List Bytes
proxy_line quoted protocol value lines =
    if value == []
    then lines
    else lines
      ++ (codes "Acquire::" ++ (protocol ++ (codes "::Proxy " ++ (quoted value ++ codes ";")))) ∷ []

abbrev pub join_lines : List Bytes → Bytes
join_lines [] = []
join_lines (line ∷ []) = line
join_lines (line ∷ next ∷ rest) = line ++ 10 ∷ join_lines (next ∷ rest)

-- `ProxyContent`.
unfoldable pub proxy_content : (Bytes → Bytes) → Settings → Bytes
proxy_content quoted s = join_lines (
    proxy_line quoted (codes "ftp") s.ftp
      (proxy_line quoted (codes "https") s.https (proxy_line quoted (codes "http") s.http [])))
