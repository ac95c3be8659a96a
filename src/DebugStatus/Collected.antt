-- ===== src/DebugStatus/Collected.antt =====
-- What `Check` and `MongoCollections` report.
use juju_utils.Common.{
  ◌≡◌, ◌↔◌, refl, arith, Option, some, none, true, false, not, ◌&&◌, List, [], ◌∷◌, ◌==◌,
  if◌then◌else◌,
}
use juju_utils.Common.Bytes.{Bytes, bytes_eq}
use juju_utils.Common.Results.{ok, err}
use juju_utils.GoMap.{Map, lookup, insert, IsMap, lookup-insert, insert-IsMap}
use juju_utils.GoMap.Keys.{elem}
use juju_utils.DebugStatus.{
  CheckResult, CheckerFunc, check, check_from, missing_from, mongo_collections, report_missing,
}

module _ {W : Type 0} where
  -- What the checkers report, in the order of the calls.
  abbrev pub reports : List (CheckerFunc W) → W → List (Bytes × CheckResult)
  reports [] w = []
  reports (c ∷ checkers) w = (c w).0 ∷ reports checkers (c w).1

  abbrev pub final_state : List (CheckerFunc W) → W → W
  final_state [] w = w
  final_state (c ∷ checkers) w = final_state checkers (c w).1

-- The last report under a key, or else `before`.
abbrev pub last_report :
    Bytes → List (Bytes × CheckResult) → Option CheckResult → Option CheckResult
last_report key [] before = before
last_report key ((k, result) ∷ rest) before =
    last_report key rest (if k == key then some result else before)

module _ {W : Type 0} where
  check_from_lem :
      (checkers : List (CheckerFunc W)) (results : Map Bytes CheckResult) (w : W) (key : Bytes)
      → lookup key (check_from checkers results w).0
        ≡ last_report key (reports checkers w) (lookup key results)
  unfolding check_from
  check_from_lem [] results w key = refl
  check_from_lem (c ∷ checkers) results w key =
      rw
        (
          check_from_lem checkers (insert (c w).0.0 (c w).0.1 results) (c w).1 key,
          lookup-insert (c w).0.0 key (c w).0.1 results,
        )
        refl

  check_from-final :
      (checkers : List (CheckerFunc W)) (results : Map Bytes CheckResult) (w : W)
      → IsMap results
      → IsMap (check_from checkers results w).0
        × ((check_from checkers results w).1 ≡ final_state checkers w)
  unfolding check_from
  check_from-final [] results w h = (h, refl)
  check_from-final (c ∷ checkers) results w h =
      check_from-final checkers (insert (c w).0.0 (c w).0.1 results) (c w).1
        (insert-IsMap _ _ results h)

  -- `Check` calls every checker once, in order, and its map has under each key the last result that
  -- was reported under it, and one entry for each key.
  pub check_lem :
      (checkers : List (CheckerFunc W)) (w : W)
      → ((key : Bytes)
          → lookup key (check checkers w).0 ≡ last_report key (reports checkers w) none)
        × IsMap (check checkers w).0
        × ((check checkers w).1 ≡ final_state checkers w)
  unfolding check lookup
  check_lem checkers w =
      let (one_each, state) = check_from-final checkers [] w tt in
      (λ key. check_from_lem checkers [] w key, one_each, state)

elem-missing_from :
    (name : Bytes) (collections names : List Bytes)
    → (elem name (missing_from collections names) ≡ true)
      ↔ ((elem name collections ≡ true) × (elem name names ≡ false))
unfolding elem missing_from
elem-missing_from name [] names = ground arith
elem-missing_from name (c ∷ collections) names =
    ground (arith, elem-missing_from name collections names, bytes_eq.beq_iff c name)

report_missing-passed :
    (missing : List Bytes) → ((report_missing missing).1.passed ≡ true) ↔ (missing ≡ [])
report_missing-passed [] = ground arith
report_missing-passed (s ∷ missing) = ground arith

no_members : (names : List Bytes) → ((name : Bytes) → elem name names ≡ false) → names ≡ []
unfolding elem
no_members [] h = refl
no_members (s ∷ names) h = absurd (ground (arith, h s, bytes_eq.beq_iff s s))

missing_none :
    (collections names : List Bytes) (name : Bytes)
    → (report_missing (missing_from collections names)).1.passed ≡ true
    → elem name (missing_from collections names) ≡ false
unfolding elem
missing_none collections names name passed = rw ((report_missing-passed _).0 passed) refl

-- `MongoCollections` passes exactly when no name of a collection is missing from the listed names,
-- and never when they cannot be listed.
pub mongo_collections_passes_iff :
    (collections names : List Bytes) (e : Bytes)
    → (((mongo_collections collections (ok names)).1.passed ≡ true)
        ↔ ((name : Bytes) → (elem name collections && not (elem name names)) ≡ false))
      × ((mongo_collections collections (err e)).1.passed ≡ false)
unfolding mongo_collections
mongo_collections_passes_iff collections names e = (
  (
    λ passed name. ground (
      arith,
      elem-missing_from name collections names,
      missing_none collections names name passed,
    ),
    λ found. (report_missing-passed _).1 (
        no_members _
          (λ name. ground (arith, elem-missing_from name collections names, found name))),
  ),
  refl,
)
