-- ===== src/Registry.antt =====
-- registry/registry.go: objects by name and version. An object comes as what `Convert` to the required
-- type makes of it, which is `none` where `ConvertibleTo` is false: both belong to `reflect`.
pub mod Runs
pub mod Listed
use juju_utils.Common.{Option, none, some, List, [], ◌∷◌, is_some, map, ap}
use juju_utils.Common.Bytes.{Bytes, bytes_eq, bytes_order}
use juju_utils.Common.Int.{ℤ, int_eq, int_order}
use juju_utils.Common.Results.{Result, ok, err}
use juju_utils.GoMap.{Map, lookup, insert}
use juju_utils.GoMap.Keys.{keys}
use juju_utils.Sorting.{sort}

-- `Versions`.
abbrev pub Versions : Type 0 → Type 0
Versions T = Map ℤ T

-- `TypedNameVersion`; the map is nil in a value that `NewTypedNameVersion` has not made.
pub record Registry (T : Type 0) : Type 0 where
  pub versions : Option (Map Bytes (Versions T))

pub record Description : Type 0 where
  pub name : Bytes
  pub versions : List ℤ

pub data RegisterError : Type 0 where
  cannot_be_converted : RegisterError
  already_registered : Bytes → ℤ → RegisterError

module _ {T : Type 0} where
  -- `NewTypedNameVersion`.
  abbrev pub new_registry : Registry T
  new_registry = record { versions = some [] }

  -- What a read of the map sees: a nil map is empty.
  abbrev pub names : Registry T → Map Bytes (Versions T)
  names r = elim r.versions [ none ↦ [] | some m ↦ m ]

  -- The versions of one name after a registration, or none if there was one of this version.
  abbrev pub add_new : ℤ → T → Versions T → Option T → Option (Versions T)
  add_new version obj versions none = some (insert version obj versions)
  add_new version obj versions (some _) = none

  abbrev pub add_version : ℤ → T → Option (Versions T) → Option (Versions T)
  add_version version obj none = some ((version, obj) ∷ [])
  add_version version obj (some versions) = add_new version obj versions (lookup version versions)

  abbrev pub registered :
      Bytes → ℤ → Map Bytes (Versions T) → Option (Versions T) → Registry T × Option RegisterError
  registered name version m none =
      (record { versions = some m }, some (already_registered name version))
  registered name version m (some versions) =
      (record { versions = some (insert name versions m) }, none)

  -- `Register`.
  unfoldable pub register : Bytes → ℤ → Option T → Registry T → Registry T × Option RegisterError
  register name version none r = (r, some cannot_be_converted)
  register name version (some obj) r =
      registered name version (names r) (add_version version obj (lookup name (names r)))

  -- `Get`; the error is NotFound, with the name and the version.
  abbrev pub found : Bytes → ℤ → Option T → Result (Bytes × ℤ) T
  found name version none = err (name, version)
  found name version (some obj) = ok obj

  abbrev pub version_of : ℤ → Option (Versions T) → Option T
  version_of version none = none
  version_of version (some versions) = lookup version versions

  unfoldable pub get : Bytes → ℤ → Registry T → Result (Bytes × ℤ) T
  get name version r = found name version (version_of version (lookup name (names r)))

  -- `descriptionFromVersions`.
  unfoldable pub description_from_versions : Bytes → Versions T → Description
  description_from_versions name versions = record { name = name; versions = sort (keys versions) }

  abbrev pub versions_of : Option (Versions T) → Versions T
  versions_of none = []
  versions_of (some versions) = versions

  -- `List`.
  unfoldable pub list : Registry T → List Description
  unfolding description_from_versions
  list r =
      map (λ name. description_from_versions name (versions_of (lookup name (names r))))
        (sort (keys (names r)))
