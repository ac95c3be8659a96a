-- ===== src/Examples/Locks.antt =====
-- Locks at concrete inputs.
use juju_utils.Common.{
  Bool, some, some, Bool, Option, ℕ, ◌≡◌, ◌⊎◌, refl, arith, false, ◌&&◌, none, List, [], ◌∷◌,
}
use juju_utils.Common.Bytes.{Bytes, codes}
use juju_utils.FileLock.{
  System, outside, acquired, Action, stats, prepares, renames, step, run, unlocked, is_lock_held,
}
use juju_utils.FileLock.Exclusion.{claims, mutual_exclusion}
use juju_utils.FileLock.Refinement.{took, Represents, LockRun, seen, run-LockRun}
use juju_utils.Common.Results.{Result, ok, err}
use juju_utils.Common.Int.{ℤ, pos, ◌+ℤ◌}
use juju_utils.FileLock.Waiting.{
  new_lock, valid_name, invalid_name, lock_with_timeout, lock_loop, timeout,
}
use juju_utils.FileLock.Waiting.{
  timeout, invalid_name, valid_name, lock_loop, new_lock, lock_with_timeout,
}
use juju_utils.Common.Results.{ok, err, Result}
use juju_utils.Common.Int.{◌+ℤ◌, pos, ℤ}

abbrev nonce : ℕ → Bytes
nonce i = i ∷ []

nonce_distinct : (i j : ℕ) → nonce i ≡ nonce j → i ≡ j
nonce_distinct i j e = ground arith

-- Two clients find the lock free, and the second to rename does not get it.
abbrev race : List Action
race =
    stats 0 (codes "a") ∷ stats 1 (codes "b") ∷ prepares 1 ∷ prepares 0 ∷ renames 1 ∷ renames 0 ∷ []

abbrev raced : System
raced = run nonce race unlocked

second_wins : raced.client 1 ≡ acquired
unfolding run step
second_wins = refl

first_loses : raced.client 0 ≡ outside
unfolding run step
first_loses = refl

mutual_exclusion_example :
    (is_lock_held (nonce 1) raced ≡ claims (raced.client 1))
    × (((claims (raced.client 1) && claims (raced.client 0)) ≡ false) ⊎ (◌≡◌ {A = ℕ} 1 0))
mutual_exclusion_example = mutual_exclusion nonce nonce_distinct race 1 0

run-LockRun_example :
    (o : Option ℕ) × Represents nonce (run nonce race unlocked).directory o
    × LockRun none (seen nonce race unlocked) o
run-LockRun_example = run-LockRun nonce nonce_distinct race

one_taken : seen nonce race unlocked ≡ took 1 ∷ []
unfolding seen step
one_taken = refl

abbrev held_twice : List (Result ℕ Bool × ℤ)
held_twice = (ok false, pos 4) ∷ (ok false, pos 9) ∷ []

timed_out : lock_with_timeout (pos 0) (pos 5) held_twice ≡ some (err timeout)
unfolding lock_with_timeout lock_loop ◌+ℤ◌
timed_out = refl

name_refused :
    new_lock {E = ℕ} (codes "/tmp") (codes "Bad") (ok []) none ≡ err (invalid_name (codes "Bad"))
unfolding new_lock valid_name
name_refused = refl
