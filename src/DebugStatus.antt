-- ===== src/DebugStatus.antt =====
-- debugstatus/status.go: status checks. A `CheckerFunc` is a function on the state that it reads and
-- changes; the Mongo session is an argument.
pub mod Collected
pub mod Renamed
use juju_utils.Common.{Bool, true, false, not, List, [], ◌∷◌, ◌++◌, if◌then◌else◌, ◌==◌}
use juju_utils.Common.Bytes.{Bytes, bytes_eq, codes}
use juju_utils.Common.Results.{Result, ok, err}
use juju_utils.GoMap.{Map, insert}
use juju_utils.GoMap.Keys.{elem}

pub record CheckResult : Type 0 where
  pub name : Bytes
  pub value : Bytes
  pub passed : Bool

-- `CheckerFunc`.
abbrev pub CheckerFunc : Type 0 → Type 0
CheckerFunc W = W → (Bytes × CheckResult) × W

module _ {W : Type 0} where
  -- The loop of `Check`.
  unfoldable pub check_from :
      List (CheckerFunc W) → Map Bytes CheckResult → W → Map Bytes CheckResult × W
  check_from [] results w = (results, w)
  check_from (c ∷ checkers) results w =
      let ((key, result), w') = c w in check_from checkers (insert key result results) w'

  -- `Check`.
  unfoldable pub check : List (CheckerFunc W) → W → Map Bytes CheckResult × W
  check checkers w = check_from checkers [] w

  -- A call of the closure that `Rename` returns: the captured variable `newKey`, which it assigns,
  -- is part of the state.
  unfoldable pub rename : Bytes → CheckerFunc W → CheckerFunc (Bytes × W)
  rename new_name checker (new_key, w) =
      let ((key, result), w') = checker w in
      let new_key' : Bytes = if new_key == [] then key else new_key in
      (
        (new_key', if not (new_name == []) then record result { name = new_name } else result),
        (new_key', w'),
      )

-- `Connection`, from what `Ping` returns: nil, or an error by its text.
unfoldable pub connection : Result Bytes (Unit {0}) → Bytes × CheckResult
connection (err e) = (
  codes "mongo_connected",
  record { name = codes "MongoDB is connected"; value = codes "Ping error: " ++ e; passed = false },
)
connection (ok _) = (
  codes "mongo_connected",
  record { name = codes "MongoDB is connected"; value = codes "Connected"; passed = true },
)

-- The loop that collects the missing names.
unfoldable pub missing_from : List Bytes → List Bytes → List Bytes
missing_from [] names = []
missing_from (coll ∷ collections) names =
    let rest = missing_from collections names in if elem coll names then rest else coll ∷ rest

-- `fmt.Sprintf("%s", missing)`.
abbrev spaced : List Bytes → Bytes
spaced [] = []
spaced (s ∷ []) = s
spaced (s ∷ t ∷ rest) = s ++ b' ' ∷ spaced (t ∷ rest)

abbrev collections_result : Bytes → Bool → Bytes × CheckResult
collections_result value passed = (
  codes "mongo_collections",
  record { name = codes "MongoDB collections"; value = value; passed = passed },
)

abbrev report_missing : List Bytes → Bytes × CheckResult
report_missing [] = collections_result (codes "All required collections exist") true
report_missing (s ∷ missing) =
    collections_result (codes "Missing collections: [" ++ (spaced (s ∷ missing) ++ codes "]")) false

-- `MongoCollections`, from what `Collections` and `CollectionNames` return.
unfoldable pub mongo_collections : List Bytes → Result Bytes (List Bytes) → Bytes × CheckResult
unfolding missing_from
mongo_collections collections (err e) =
    collections_result (codes "Cannot get collections: " ++ e) false
mongo_collections collections (ok names) = report_missing (missing_from collections names)
