-- ===== src/Set/Strings.antt =====
-- set/strings.go: `Strings` is the set of `Set` at Go strings; here is its sorted view.
use juju_utils.Common.{◌≡◌, List, length, ◌∙◌, sym}
use juju_utils.Common.Bytes.{Bytes, bytes_eq, bytes_order}
use juju_utils.GoMap.Keys.{elem, elem-keys, keys-Distinct, Distinct, length-keys}
use juju_utils.Set.{SetOf, entries, IsWellFormed, contains, values, size}
use juju_utils.Sorting.{sort, elem-sort, sort-IsAscending, length-sort, IsAscending, ascending_ext}

abbrev pub Strings : Type 0
Strings = SetOf Bytes

-- `SortedValues`.
unfoldable pub sorted_values : Strings → List Bytes
sorted_values s = sort (values s)

-- `Values` lists each member once, whatever order `range` takes.
pub values_lem :
    (s : Strings)
    → IsWellFormed s
    → Distinct (values s)
      × ((j : Bytes) → elem j (values s) ≡ contains j s)
      × (length (values s) ≡ size s)
unfolding values contains size
values_lem s w =
    (keys-Distinct (entries s) w, λ j. elem-keys j (entries s), length-keys (entries s))

-- `SortedValues` is in ascending order, lists exactly the members, and has one string for each.
pub sorted_values_members :
    (s : Strings)
    → IsWellFormed s
    → IsAscending (sorted_values s)
      × ((j : Bytes) → elem j (sorted_values s) ≡ contains j s)
      × (length (sorted_values s) ≡ size s)
unfolding sorted_values
sorted_values_members s w =
    let (once, members, count) = values_lem s w in
    (
      sort-IsAscending (values s) once,
      λ j. elem-sort j (values s) ∙ members j,
      length-sort (values s) ∙ count,
    )

-- `SortedValues` depends on the members alone: two sets with the same members, built in whatever
-- order, give the same slice.
pub sorted_values_unique :
    (s t : Strings)
    → IsWellFormed s
    → IsWellFormed t
    → ((j : Bytes) → contains j s ≡ contains j t)
    → sorted_values s ≡ sorted_values t
sorted_values_unique s t ws wt same =
    let (up, members, _) = sorted_values_members s ws in
    let (up', members', _) = sorted_values_members t wt in
    ascending_ext (sorted_values s) (sorted_values t) up up'
      (λ j. members j ∙ same j ∙ sym (members' j))
