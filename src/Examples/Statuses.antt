-- ===== src/Examples/Statuses.antt =====
-- Status checks at concrete inputs.
use juju_utils.Common.{◌+◌, ◌+◌, ℕ, suc, true, List, [], ◌∷◌}
use juju_utils.Common.Bytes.{bytes_eq, codes}
use juju_utils.DebugStatus.{CheckerFunc}

-- A check whose key is the number of its call.
abbrev numbered : CheckerFunc ℕ
numbered n = (((48 + n) ∷ [], record { name = codes "calls"; value = []; passed = true }), suc n)

abbrev checkers : List (CheckerFunc ℕ)
checkers = numbered ∷ numbered ∷ []
