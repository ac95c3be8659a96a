-- ===== src/Examples/Flags.antt =====
-- Feature flags at concrete inputs.
use juju_utils.Common.{◌≡◌, refl, true, some, [], ◌∷◌, All}
use juju_utils.Common.Bytes.{lt_bytes, Bytes, bytes_eq, bytes_order, codes}
use juju_utils.Set.{values, IsWellFormed}
use juju_utils.Set.Strings.{Strings, sorted_values}
use juju_utils.Sorting.{sort}
use juju_utils.GoMap.{insert}
use juju_utils.GoMap.Keys.{keys}
use juju_utils.Text.Fields.{split, trim_space, to_lower, join}
use juju_utils.FeatureFlag.{set_flags_from_environment, enabled, as_environment_value}
use juju_utils.FeatureFlag.Environment.{IsFlag, names, set_flags_lem}

abbrev value : Bytes
value = codes " Special,,mess , special"

abbrev two_flags : Strings
two_flags = some ((codes "special", true) ∷ (codes "mess", true) ∷ [])

two_flags_set : set_flags_from_environment value ≡ some two_flags
unfolding set_flags_from_environment split to_lower trim_space insert
two_flags_set = refl

round_trip_value : as_environment_value two_flags ≡ codes "mess,special"
unfolding as_environment_value join sorted_values values keys sort lt_bytes
round_trip_value = refl

set_flags_example :
    (flags : Strings) × (set_flags_from_environment value ≡ some flags)
    × IsWellFormed flags
    × All IsFlag (values flags)
    × ((name : Bytes)
        → enabled name flags ≡ names (trim_space (to_lower name)) (split b',' (to_lower value)))
set_flags_example = set_flags_lem value
