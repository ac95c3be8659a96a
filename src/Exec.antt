-- ===== src/Exec.antt =====
-- exec/exec.go: `mergeEnvironment`. Running has the rest.
pub mod Merged
pub mod Running
use juju_utils.Common.{Option, none, some, List, [], ◌∷◌, ◌++◌}
use juju_utils.Common.Bytes.{Bytes, bytes_eq}
use juju_utils.Text.Cut.{split_in_two}
use juju_utils.GoMap.{Map, insert}

-- `m[varSplit[0]] = varSplit[1]`, which panics if there is no second part.
abbrev pub set_variable : List Bytes → Map Bytes Bytes → Option (Map Bytes Bytes)
set_variable [] m = none
set_variable (key ∷ []) m = none
set_variable (key ∷ value ∷ rest) m = some (insert key value m)

abbrev pub and_then :
    Option (Map Bytes Bytes)
    → (Map Bytes Bytes → Option (Map Bytes Bytes))
    → Option (Map Bytes Bytes)
and_then none f = none
and_then (some m) f = f m

-- A loop over the variables of an environment.
unfoldable pub set_variables : List Bytes → Map Bytes Bytes → Option (Map Bytes Bytes)
unfolding split_in_two
set_variables [] m = some m
set_variables (val ∷ vals) m =
    and_then (set_variable (split_in_two b'=' val) m) (set_variables vals)

-- The loop over the map.
unfoldable pub variables : Map Bytes Bytes → List Bytes
variables [] = []
variables ((key, value) ∷ m) = (key ++ b'=' ∷ value) ∷ variables m

abbrev pub listed : Option (Map Bytes Bytes) → Option (Option (List Bytes))
listed none = none
listed (some m) = some (some (variables m))

-- `mergeEnvironment`, with what `os.Environ()` gives; a nil environment is `none`.
unfoldable pub merge_environment : List Bytes → Option (List Bytes) → Option (Option (List Bytes))
unfolding set_variables variables
merge_environment environ none = some none
merge_environment environ (some env) =
    listed (and_then (set_variables environ []) (set_variables env))
