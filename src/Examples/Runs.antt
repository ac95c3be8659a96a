-- ===== src/Examples/Runs.antt =====
-- Parallel runs at concrete inputs.
use juju_utils.Common.{ℕ, ◌≤◌, ◌<◌, ◌≡◌, ◌⊎◌, refl, none, some, List, [], ◌∷◌, nat_beq}
use juju_utils.Common.Bytes.{codes}
use juju_utils.Parallel.Run.{
  Run, Action, calls_do, asks, closes, sends, quits, collects, finishes, new_run, fresh_run, step,
  run, errors_text,
}
use juju_utils.Parallel.Run.Errors.{busy, count, run_bounded, wait_lem}

-- One runner for two functions, of which the first fails.
abbrev two_functions : List (Action ℕ)
two_functions =
    calls_do
    ∷ calls_do
    ∷ asks
    ∷ asks
    ∷ sends 0
    ∷ finishes 0 (some 7)
    ∷ sends 0
    ∷ finishes 0 none
    ∷ closes
    ∷ quits 0
    ∷ collects 0
    ∷ []

abbrev one_at_a_time : Run ℕ
one_at_a_time = fresh_run 1

one_at_a_time_made : new_run 1 ≡ some one_at_a_time
unfolding new_run
one_at_a_time_made = refl

waited : (run two_functions one_at_a_time).outstanding ≡ some 0
unfolding run step
waited = refl

one_error : (run two_functions one_at_a_time).errs ≡ 7 ∷ []
unfolding run step
one_error = refl

run_bounded_example :
    let r = run two_functions one_at_a_time in
    (busy r.runners ≤ 1) × ((r.sending ≡ 0) ⊎ (0 < r.running))
run_bounded_example = run_bounded 1 one_at_a_time one_at_a_time_made two_functions

wait_example :
    ((run two_functions one_at_a_time).runners ≡ [])
    × (count (nat_beq 7) (run two_functions one_at_a_time).errs
        ≡ count (nat_beq 7) (run two_functions one_at_a_time).reported)
wait_example = wait_lem 1 one_at_a_time one_at_a_time_made two_functions (nat_beq 7) waited

more_errors : errors_text (λ n. codes "1") (codes "a" ∷ codes "b" ∷ []) ≡ codes "a (and 1 more)"
unfolding errors_text
more_errors = refl
