-- ===== src/Apt/Retries.antt =====
-- `GetInstall` tries thirty times.
use juju_utils.Common.{
  suc, ◌+◌, ◌<◌, ◌≡◌, refl, arith, true, false, Bool-cases, inl, inr, Option, none, some, List, [],
  ◌∷◌, ◌++◌, map, length, if◌then◌else◌, ltb, nat_beq, All,
}
use juju_utils.Common.Int.{+ℤ_parts, ℤ, pos, ◌+ℤ◌, ltb_ℤ, ◌≤ℤ◌}
use juju_utils.Attempt.{Attempt, next, start, again, gives_up, next_sleep}
use juju_utils.Attempt.Promises.{owed, next-owed}
use juju_utils.Apt.{
  Output, succeeded, exit_status, unexpected, Installed, trying, returns, after_attempt,
  try_install, get_install, install_attempt_strategy,
}

-- An attempt whose time is over at the start.
abbrev IsTimeless : ℤ → Attempt → Type 0
IsTimeless begun a = (a.strategy ≡ install_attempt_strategy) × (a.end ≤ℤ begun)

next-IsTimeless :
    (begun now woken : ℤ) (a : Attempt) → IsTimeless begun a → IsTimeless begun (next now woken a).1
unfolding next gives_up again
next-IsTimeless begun now woken a h = ground (arith, h.0, h.1)

-- `nextSleep` is not negative.
next_sleep_positive : (a : Attempt) (now : ℤ) → pos 0 ≤ℤ next_sleep a now
unfolding next_sleep
next_sleep_positive a now = ground arith

later_still :
    (end begun now sleep : ℤ)
    → end ≤ℤ begun
    → begun ≤ℤ now
    → pos 0 ≤ℤ sleep
    → ltb_ℤ (now +ℤ sleep) end ≡ false
later_still end begun now sleep he h hs = let sum = +ℤ_parts now sleep in ground arith

start_end : (begun : ℤ) → begun +ℤ pos 0 ≤ℤ begun
start_end begun = let sum = +ℤ_parts begun (pos 0) in omega arith

next-spent :
    (begun now woken : ℤ) (a : Attempt)
    → IsTimeless begun a
    → begun ≤ℤ now
    → a.force ≡ false
    → owed a ≡ 0
    → (next now woken a).0 ≡ false
unfolding next gives_up owed
next-spent begun now woken a h later forced none_owed =
    let over : ltb_ℤ (now +ℤ next_sleep a now) a.end ≡ false =
      later_still a.end begun now (next_sleep a now) h.1 later (next_sleep_positive a now) in
    ground (arith, h.0)

owed_less : (now woken : ℤ) (a : Attempt) → 0 < owed a → owed (next now woken a).1 + 1 ≡ owed a
unfolding next gives_up again owed
owed_less now woken a h = ground arith

next-force : (now woken : ℤ) (a : Attempt) → 0 < owed a → (next now woken a).1.force ≡ false
unfolding next gives_up again owed
next-force now woken a h = ground arith

module _ {E : Type 0} where
  -- A round in which apt-get reports an error.
  abbrev pub failed : ℤ × ℤ → (ℤ × ℤ) × Output E
  failed times = (times, exit_status 100)

  -- What a last round of the loop is to return: nothing yet if apt-get reports an error once more.
  abbrev pub expected : Output E → Installed E
  expected succeeded = returns none
  expected (unexpected e) = returns (some (unexpected e))
  expected (exit_status n) = if nat_beq n 100 then trying else returns (some (exit_status n))

  after_attempt-expected : (output : Output E) → after_attempt output trying ≡ expected output
  after_attempt-expected succeeded = refl
  after_attempt-expected (unexpected e) = refl
  after_attempt-expected (exit_status n) = refl

  -- All the attempts are spent after a failure.
  try_install-spent :
      (begun now woken : ℤ) (failures : List (ℤ × ℤ)) (output last : Output E) (a : Attempt)
      → IsTimeless begun a
      → All (λ times. begun ≤ℤ times.0) failures
      → begun ≤ℤ now
      → a.force ≡ false
      → owed a ≡ 0
      → try_install (map failed failures ++ ((now, woken), output) ∷ []) a (some last)
        ≡ returns (some last)
  unfolding try_install
  try_install-spent begun now woken [] output last a h all later forced spent =
      rw (next-spent begun now woken a h later forced spent) refl
  try_install-spent begun now woken ((now', woken') ∷ failures) output last a h all later forced
        spent =
      rw (next-spent begun now' woken' a h all.0 forced spent) refl

  after_failure :
      (begun now woken : ℤ) (failures : List (ℤ × ℤ)) (output : Output E) (a : Attempt)
      (last : Option (Output E))
      → IsTimeless begun a
      → All (λ times. begun ≤ℤ times.0) failures
      → begun ≤ℤ now
      → 0 < owed a
      → try_install (map failed failures ++ ((now, woken), output) ∷ []) a last ≡ (
          if ltb (length failures) (owed a)
          then expected output
          else returns (some (exit_status 100)))
  unfolding try_install
  after_failure begun now woken [] output a last h all later some_owed =
      rw (next-owed a now woken some_owed) (
        let now_owed : ltb 0 (owed a) ≡ true = ground arith in
        rw now_owed (after_attempt-expected output))
  after_failure begun now woken ((now', woken') ∷ failures) output a last h all later some_owed =
      let a' = (next now' woken' a).1 in
      let less = owed_less now' woken' a some_owed in
      let h' = next-IsTimeless begun now' woken' a h in
      rw (next-owed a now' woken' some_owed) (elim (Bool-cases (nat_beq (owed a') 0)) [
        | inl over ↦
            let stop : ltb (suc (length failures)) (owed a) ≡ false = ground arith in
            rw stop (
              try_install-spent begun now woken failures output (exit_status 100) a' h' all.1 later
                (next-force now' woken' a some_owed) (ground arith))
        | inr more ↦
            let same : ltb (suc (length failures)) (owed a) ≡ ltb (length failures) (owed a') =
              ground arith in
            rw same (
              after_failure begun now woken failures output a' (some (exit_status 100)) h' all.1
                later (ground arith))
      ])

  -- On a clock that does not go back behind the start, whatever it says else: after fewer than thirty
  -- reports of an error by apt-get, there is one more attempt, after which `GetInstall` returns nil if
  -- apt-get succeeds, goes on if it reports an error again, and otherwise returns with the error of the
  -- attempt; and after thirty or more, there is none, and it returns the error.
  pub get_install_lem :
      (begun now woken : ℤ) (failures : List (ℤ × ℤ)) (output : Output E)
      → All (λ times. begun ≤ℤ times.0) failures
      → begun ≤ℤ now
      → get_install begun (map failed failures ++ ((now, woken), output) ∷ [])
        ≡ (if ltb (length failures) 30 then expected output else returns (some (exit_status 100)))
  unfolding get_install owed start
  get_install_lem begun now woken failures output all later =
      after_failure begun now woken failures output (start install_attempt_strategy begun) none
        (refl, start_end begun) all later (omega arith)
