-- ===== src/FeatureFlag.antt =====
-- featureflag/flags.go: the flags of the process, a set that is read from an environment variable.
-- Texts are ASCII. The package's variable `flags` is an argument and a result.
pub mod Environment
use juju_utils.Common.{◌++◌, Bool, Option, none, some, List, [], ◌∷◌, map, ◌==◌, if◌then◌else◌}
use juju_utils.Common.Bytes.{Bytes, bytes_eq, codes}
use juju_utils.Set.{make, add, contains, values}
use juju_utils.Set.Strings.{Strings, sorted_values}
use juju_utils.Text.Fields.{split, join, trim_space, to_lower}

-- The loop of `SetFlagsFromEnvironment`; the outer `none` is a panic of `Add`.
abbrev pub add_flag : Bytes → Strings → Option Strings
add_flag flag flags = if flag == [] then some flags else add flag flags

abbrev pub then_flags : (Strings → Option Strings) → Option Strings → Option Strings
then_flags next none = none
then_flags next (some flags) = next flags

unfoldable pub add_flags : List Bytes → Strings → Option Strings
unfolding add
add_flags [] flags = some flags
add_flags (field ∷ fields) flags = then_flags (add_flags fields) (add_flag (trim_space field) flags)

-- `SetFlagsFromEnvironment`, of the variable's value.
unfoldable pub set_flags_from_environment : Bytes → Option Strings
unfolding add_flags
set_flags_from_environment value = add_flags (split b',' (to_lower value)) make

-- `Enabled`.
unfoldable pub enabled : Bytes → Strings → Bool
enabled flag flags = contains (trim_space (to_lower flag)) flags

-- `All`.
unfoldable pub all_flags : Strings → List Bytes
all_flags flags = values flags

-- `AsEnvironmentValue`.
unfoldable pub as_environment_value : Strings → Bytes
as_environment_value flags = join b',' (sorted_values flags)

-- `String`, where `quoted` is `fmt.Sprintf("%q", flag)`.
abbrev join_quoted : List Bytes → Bytes
join_quoted [] = []
join_quoted (s ∷ []) = s
join_quoted (s ∷ t ∷ rest) = s ++ codes ", " ++ join_quoted (t ∷ rest)

unfoldable pub string : (Bytes → Bytes) → Strings → Bytes
string quoted flags = join_quoted (map quoted (sorted_values flags))
