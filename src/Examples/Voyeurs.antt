-- ===== src/Examples/Voyeurs.antt =====
-- Runs of a watched value.
use juju_utils.Common.{ℕ, ◌≡◌, refl, arith, true, false, some, List, [], ◌∷◌}
use juju_utils.Voyeur.{
  close_watcher, Value, Watcher, returns, new_value, set, close, watch, watched, next_pass,
}
use juju_utils.Voyeur.System.{
  Machine, Action, sets, closes_watcher, broadcasts, enters, passes, step, run, fresh, parked,
}
use juju_utils.Voyeur.Passes.{IsIdle, set-next_pass}
use juju_utils.Voyeur.Wakeups.{no_lost_wakeup}

-- Goroutine 0 sees the first value, waits, is woken by a change, sees it and waits again.
abbrev actions : List (Action ℕ)
actions =
    enters 0
    ∷ passes 0
    ∷ enters 0
    ∷ passes 0
    ∷ sets (some 5)
    ∷ broadcasts
    ∷ passes 0
    ∷ enters 0
    ∷ passes 0
    ∷ []

abbrev machine : Machine ℕ
machine = run actions (fresh (new_value (some 3)))

no_lost_wakeup_example : IsIdle machine.value (machine.watcher 0)
unfolding run step new_value set next_pass watch
no_lost_wakeup_example = no_lost_wakeup (some 3) actions 0 refl refl

abbrev shared : Value ℕ
shared = new_value (some 3)

abbrev watcher : Watcher ℕ
watcher = watch

abbrev changed : Value ℕ
changed = set (some 5) shared

set-next_pass_example :
    ((next_pass changed watcher).0 ≡ returns true)
    × (watched (next_pass changed watcher).1 ≡ some 5)
    × ((next_pass (close changed) watcher).0 ≡ returns true)
    × (watched (next_pass (close changed) watcher).1 ≡ some 5)
    × ((next_pass (close changed) (next_pass changed watcher).1).0 ≡ returns false)
    × ¬ ((next_pass changed (next_pass changed watcher).1).0 ≡ returns true)
unfolding new_value watch
set-next_pass_example = set-next_pass (some 5) shared watcher (omega arith)

-- The close of another watcher sends a goroutine once more round the loop.
woken_for_nothing : (run (closes_watcher 1 ∷ broadcasts ∷ passes 0 ∷ []) machine).status 0 ≡ parked
unfolding run step new_value set next_pass watch close_watcher
woken_for_nothing = refl
