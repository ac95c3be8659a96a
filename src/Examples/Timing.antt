-- ===== src/Examples/Timing.antt =====
-- The limiter and the attempts at concrete inputs.
use juju_utils.Common.{◌*◌, ◌-◌, ◌<◌, ◌≤◌, ◌≡◌, ◌⊎◌, refl, true, some, arith, [], ◌∷◌, List}
use juju_utils.Common.Int.{ℤ, pos, ◌+ℤ◌, ◌-ℤ◌}
use juju_utils.Limiter.{Limiter, new_limiter, release, acquire_wait}
use juju_utils.Limiter.Traces.{
  perform, Call, try_acquire, wait, give_back, run, opened, IsBalanced, limiter_safe,
}
use juju_utils.Attempt.{
  Attempt, AttemptStrategy, start, next, has_next, gives_up, again, sleeps, next_sleep,
}
use juju_utils.Attempt.Promises.{rounds}
use juju_utils.Attempt.Bound.{TicksAlong, rounds_end}

abbrev pair : Limiter
pair = record { capacity = 2; buffered = 0; blocked = 0 }

abbrev calls : List Call
calls = wait ∷ try_acquire ∷ wait ∷ try_acquire ∷ give_back ∷ give_back ∷ []

made : new_limiter (pos 2) ≡ some pair
unfolding new_limiter
made = refl

limiter_safe_example : IsBalanced 2 (run calls (opened pair))
limiter_safe_example = limiter_safe 2 pair calls made

-- A limiter with no buffer: `Release` hands over to a goroutine that waits.
handed_over_by_none :
    (run
      (wait ∷ give_back ∷ [])
      (opened (record { capacity = 0; buffered = 0; blocked = 0 }))).returned
    ≡ 1
unfolding run perform acquire_wait release
handed_over_by_none = refl

abbrev strategy : AttemptStrategy
strategy = record { total = pos 25; delay = pos 10; minimum = pos 2 }

abbrev begun : Attempt
begun = start strategy (pos 100)

more : (has_next (pos 104) begun).0 ≡ true
unfolding has_next start
more = refl

abbrev late : List (ℤ × ℤ)
late = (pos 900, pos 900) ∷ (pos 901, pos 910) ∷ []

abbrev ticks : List (ℤ × ℤ)
ticks = (pos 100, pos 100) ∷ (pos 101, pos 110) ∷ (pos 112, pos 120) ∷ (pos 121, pos 130) ∷ []

ticks_along : TicksAlong ticks begun
unfolding start next gives_up again sleeps next_sleep ◌+ℤ◌ ◌-ℤ◌
ticks_along = ((omega arith, λ h. cc), omega arith)

rounds_end_example : let n = rounds ticks begun in (n ≤ 2) ⊎ ((n - 1) * 10 < 25)
rounds_end_example = rounds_end strategy (pos 100) 10 25 ticks refl refl ticks_along
