-- ===== src/Examples/Tries.antt =====
-- Tries at concrete inputs.
use juju_utils.Common.{ℕ, ◌+◌, ◌≤◌, ◌≡◌, ◌⊎◌, refl, arith, true, false, none, List, [], ◌∷◌, length}
use juju_utils.Common.Results.{err}
use juju_utils.Parallel.Try.{
  LoopState, returned, Try, Action, calls_start, takes_slot, is_accepted, finishes, delivers, run,
  step, new_try, has_room, choose_last_error, on_close, begin,
}
use juju_utils.Parallel.Try.Bounds.{is_counted, try_bounded}

abbrev three_running : LoopState ℕ
three_running = record { err = none; close_is_nil = false; nrunning = 3 }

abbrev two_closed : LoopState ℕ
two_closed = record { err = none; close_is_nil = true; nrunning = 2 }

-- Two calls of `Start` with one slot: the second waits until the first function has returned.
abbrev two_starts : List (Action ℕ ℕ)
two_starts =
    calls_start
    ∷ calls_start
    ∷ takes_slot
    ∷ takes_slot
    ∷ is_accepted
    ∷ finishes (err 7)
    ∷ takes_slot
    ∷ is_accepted
    ∷ delivers 0
    ∷ []

abbrev one_slot : Try ℕ ℕ
one_slot = run choose_last_error 0 two_starts (new_try 1)

one_runs : one_slot.executing ≡ 1
unfolding run step new_try
one_runs = refl

try_bounded_example :
    (one_slot.executing ≤ 1)
    × ((one_slot.executing ≡ 0) ⊎ (has_room one_slot.limiter 1 ≡ true))
    × (is_counted one_slot.loop (one_slot.executing + length one_slot.delivering) ≡ true)
try_bounded_example = try_bounded choose_last_error 0 1 two_starts (omega arith)

-- A try that is closed before any function was started ends with no error.
closed_unused : on_close {V = ℕ} {E = ℕ} begin ≡ returned none none
unfolding on_close
closed_unused = refl
