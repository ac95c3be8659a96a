-- ===== src/Exec/Merged.antt =====
-- What a process finds in a merged environment.
use juju_utils.Common.{
  ◌≡◌, refl, arith, ap, ◌∙◌, true, Option, none, some, List, [], ◌∷◌, ◌==◌, is_some, if◌then◌else◌,
  Option-cases, inl, inr, All,
}
use juju_utils.Common.Bytes.{Bytes, bytes_eq}
use juju_utils.Text.Cut.{Lacks, cut, cut_sound, cut_complete, split_in_two}
use juju_utils.GoMap.{Map, lookup, insert, lookup-insert}
use juju_utils.Exec.{set_variable, and_then, set_variables, variables, listed, merge_environment}

-- The value that an entry gives a variable.
abbrev pub value_in : Bytes → Option (Bytes × Bytes) → Option Bytes
value_in name none = none
value_in name (some (key, value)) = if key == name then some value else none

abbrev pub or_else : Option Bytes → Option Bytes → Option Bytes
or_else (some v) w = some v
or_else none w = w

-- The first and the last value of a variable in an environment.
unfoldable pub first_value : Bytes → List Bytes → Option Bytes
first_value name [] = none
first_value name (val ∷ vals) = or_else (value_in name (cut b'=' val)) (first_value name vals)

unfoldable pub last_value : Bytes → List Bytes → Option Bytes
last_value name [] = none
last_value name (val ∷ vals) = or_else (last_value name vals) (value_in name (cut b'=' val))

abbrev pub HasEquals : Bytes → Type 0
HasEquals val = is_some (cut b'=' val) ≡ true

-- No key of the map holds the sign of an assignment.
abbrev AreNames : Map Bytes Bytes → Type 0
AreNames [] = Unit
AreNames ((key, value) ∷ m) = Lacks b'=' key × AreNames m

insert-AreNames :
    (key value : Bytes) (m : Map Bytes Bytes)
    → Lacks b'=' key
    → AreNames m
    → AreNames (insert key value m)
unfolding insert
insert-AreNames key value [] h hm = (h, tt)
insert-AreNames key value ((k, v) ∷ m) h hm = ground (arith, insert-AreNames key value m h hm.1)

first_value-variables :
    (name : Bytes) (m : Map Bytes Bytes)
    → AreNames m
    → first_value name (variables m) ≡ lookup name m
unfolding first_value variables lookup
first_value-variables name [] h = refl
first_value-variables name ((k, v) ∷ m) h =
    rw (cut_complete b'=' k v h.0, first_value-variables name m h.1) (ground arith)

-- What the loop makes of a map.
abbrev IsDone : List Bytes → Map Bytes Bytes → Type 0
IsDone vals m =
    (m' : Map Bytes Bytes) × (set_variables vals m ≡ some m')
    × AreNames m'
    × ((name : Bytes) → lookup name m' ≡ or_else (last_value name vals) (lookup name m))

set_variables-cons :
    (val : Bytes) (vals : List Bytes) (m : Map Bytes Bytes) (k v : Bytes)
    → cut b'=' val ≡ some (k, v)
    → set_variables (val ∷ vals) m ≡ set_variables vals (insert k v m)
unfolding set_variables split_in_two
set_variables-cons val vals m k v found =
    let parts : split_in_two b'=' val ≡ k ∷ v ∷ [] = rw (found, split_in_two) refl in
    ap (λ (ps : List Bytes). and_then (set_variable ps m) (set_variables vals)) parts

set_variables-IsDone :
    (vals : List Bytes) (m : Map Bytes Bytes) → All HasEquals vals → AreNames m → IsDone vals m
unfolding set_variables last_value
set_variables-IsDone [] m h names = (m, refl, names, (λ name. refl))
set_variables-IsDone (val ∷ vals) m h names = elim (Option-cases (cut b'=' val)) [
  | inl missing ↦ absurd (ground (arith, h.0))
  | inr ((k, v), found) ↦
      let (m', e, names', values) =
        set_variables-IsDone vals (insert k v m) h.1
          (insert-AreNames k v m (cut_sound b'=' val k v found).1 names) in
      (
        m',
        set_variables-cons val vals m k v found ∙ e,
        names',
        (λ name. rw (values name, lookup-insert k name v m, found) (ground arith)),
      )
]

-- If every entry of both environments has the sign of an assignment, `mergeEnvironment` does not panic,
-- and a process finds each variable with its last value in the desired environment, or else with its
-- last value in the present one, or else not at all.
pub merge_environment_lem :
    (environ env : List Bytes)
    → All HasEquals environ
    → All HasEquals env
    → (merged : List Bytes) × (merge_environment environ (some env) ≡ some (some merged))
      × ((name : Bytes)
          → first_value name merged ≡ or_else (last_value name env) (last_value name environ))
unfolding merge_environment lookup last_value
merge_environment_lem environ env h he =
    let (m, e, names, values) = set_variables-IsDone environ [] h tt in
    let (m', e', names', values') = set_variables-IsDone env m he names in
    (
      variables m',
      ap (λ (r : Option (Map Bytes Bytes)). listed (and_then r (set_variables env))) e
          ∙ ap listed e',
      (λ name.
          first_value-variables name m' names'
          ∙ values' name
          ∙ ap (or_else (last_value name env)) (values name ∙ empty (last_value name environ))),
    )
  where
    empty : (v : Option Bytes) → or_else v none ≡ v
    empty none = refl
    empty (some w) = refl
