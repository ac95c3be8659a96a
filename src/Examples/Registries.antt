-- ===== src/Examples/Registries.antt =====
-- Registries at concrete inputs.
use juju_utils.Common.{ℕ, ◌≡◌, refl, Option, none, some, List, [], ◌∷◌, All, map}
use juju_utils.Common.Bytes.{Bytes, bytes_eq, bytes_order, codes, lt_bytes}
use juju_utils.Common.Int.{ℤ, pos, int_eq, int_order}
use juju_utils.Common.Results.{is_ok}
use juju_utils.GoMap.{lookup, insert}
use juju_utils.GoMap.Keys.{keys}
use juju_utils.Sorting.{sort, place, IsAscending}
use juju_utils.Registry.{
  Registry, Description, new_registry, register, already_registered, get, found, list,
  description_from_versions,
}
use juju_utils.Registry.Runs.{register_all, first_registered, get-register_all}
use juju_utils.Registry.Listed.{lists, list-register_all}

abbrev calls : List (Bytes × ℤ × Option ℕ)
calls =
    (codes "b", pos 2, some 20)
    ∷ (codes "a", pos 0, some 1)
    ∷ (codes "b", pos 1, some 21)
    ∷ (codes "b", pos 2, some 99)
    ∷ (codes "c", pos 0, none)
    ∷ []

abbrev facades : Registry ℕ
facades = register_all calls new_registry

abbrev descriptions : List Description
descriptions =
    record { name = codes "a"; versions = pos 0 ∷ [] }
    ∷ record { name = codes "b"; versions = pos 1 ∷ pos 2 ∷ [] }
    ∷ []

facades_listed : list facades ≡ descriptions
unfolding register_all register list description_from_versions lookup insert keys sort place
    lt_bytes
facades_listed = refl

second_refused :
    (register (codes "a") (pos 0) (some 5) facades).1
    ≡ some (already_registered (codes "a") (pos 0))
unfolding register_all register lookup insert
second_refused = refl

get-register_all_example :
    get (codes "b") (pos 2) facades
    ≡ found (codes "b") (pos 2) (first_registered calls (codes "b") (pos 2))
get-register_all_example = get-register_all calls (codes "b") (pos 2)

list-register_all_example :
    ((name : Bytes) (version : ℤ)
      → lists name version (list facades) ≡ is_ok (get name version facades))
    × IsAscending (map (λ d. d.name) (list facades))
    × All (λ d. IsAscending d.versions) (list facades)
list-register_all_example = list-register_all calls
