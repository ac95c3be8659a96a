-- ===== src/Attempt.antt =====
-- attempt.go: a bounded sequence of attempts. Times and durations are integers of nanoseconds,
-- without int64's bounds; each `time.Now()` is an argument.
pub mod Promises
pub mod Pacing
pub mod Bound
use juju_utils.Common.{ℕ, ◌+◌, Bool, true, false, ◌&&◌, ◌||◌, not, if◌then◌else◌, ltb, leb}
use juju_utils.Common.Int.{ℤ, pos, ◌+ℤ◌, ◌-ℤ◌, ltb_ℤ}

pub record AttemptStrategy : Type 0 where
  pub total : ℤ
  pub delay : ℤ
  pub minimum : ℤ

pub record Attempt : Type 0 where
  pub strategy : AttemptStrategy
  pub last : ℤ
  pub end : ℤ
  pub force : Bool
  pub count : ℕ

-- `Start`, at the time `now`.
unfoldable pub start : AttemptStrategy → ℤ → Attempt
start s now = record { strategy = s; last = now; end = now +ℤ s.total; force = true; count = 0 }

-- `nextSleep`.
unfoldable pub next_sleep : Attempt → ℤ → ℤ
next_sleep a now =
    let sleep = a.strategy.delay -ℤ (now -ℤ a.last) in if ltb_ℤ sleep (pos 0) then pos 0 else sleep

-- The test by which `Next` gives up.
unfoldable pub gives_up : ℤ → Attempt → Bool
gives_up now a =
    not a.force
    && (not (ltb_ℤ (now +ℤ next_sleep a now) a.end) && not (ltb_ℤ (pos a.count) a.strategy.minimum))

-- Whether `Next` sleeps before it returns true.
unfoldable pub sleeps : ℤ → Attempt → Bool
sleeps now a = ltb_ℤ (pos 0) (next_sleep a now) && ltb 0 a.count

-- The attempt that starts at the time `t`.
unfoldable pub again : ℤ → Attempt → Attempt
again t a = record a { force = false; count = a.count + 1; last = t }

-- `Next`, which reads the clock at `now` and, if it sleeps, again at `woken`.
unfoldable pub next : ℤ → ℤ → Attempt → Bool × Attempt
next now woken a =
    if gives_up now a then (false, a) else (true, again (if sleeps now a then woken else now) a)

-- `HasNext`, which reads the clock at `now` unless an earlier test decides.
unfoldable pub has_next : ℤ → Attempt → Bool × Attempt
has_next now a =
    if a.force || ltb_ℤ (pos a.count) a.strategy.minimum
    then (true, a)
    else if ltb_ℤ (now +ℤ next_sleep a now) a.end
    then (true, record a { force = true })
    else (false, a)
