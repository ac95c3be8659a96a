-- ===== src/Examples/Environments.antt =====
-- Merged environments at concrete inputs.
use juju_utils.Common.{◌≡◌, refl, none, some, List, [], ◌∷◌}
use juju_utils.Common.Bytes.{Bytes, bytes_eq, codes}
use juju_utils.Text.Cut.{cut, split_in_two}
use juju_utils.GoMap.{insert}
use juju_utils.Exec.{set_variables, merge_environment}

abbrev present : List Bytes
present = codes "PATH=/bin" ∷ codes "TMP=/tmp" ∷ codes "=C:=C:\\" ∷ []

abbrev desired : List Bytes
desired = codes "TMP=/var" ∷ codes "A=b=c" ∷ []

no_equals_panics : merge_environment present (some (codes "A" ∷ [])) ≡ none
unfolding merge_environment set_variables split_in_two cut insert
no_equals_panics = refl
