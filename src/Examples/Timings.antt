-- ===== src/Examples/Timings.antt =====
-- Timers at concrete inputs, with a text for each duration that has as many strokes as seconds.
use juju_utils.Common.{ℕ, ◌≡◌, refl, [], ◌∷◌, ◌++◌, replicate, length}
use juju_utils.Common.Bytes.{Bytes, codes}
use juju_utils.Common.Int.{ℤ, pos, negsuc, ◌-ℤ◌}
use juju_utils.Timers.{
  Timer, State, timeit, stop, stopped, string, update, deref, tip_of, without_tip, add_sub_action,
}
use juju_utils.Timers.Blocks.{Work, work, done, next, block}
use juju_utils.Timers.Nested.{state, run, run-render}
use juju_utils.Timers.Rendered.{render}

abbrev strokes : ℤ → Bytes
strokes (pos n) = replicate n b'|'
strokes (negsuc n) = []

abbrev build : Work
build =
    work (codes "build") (pos 0)
      (next (work (codes "fetch") (pos 1) done (pos 3))
        (next (work (codes "link") (pos 3) done (pos 4)) done))
      (pos 5)

run-render_example :
    run strokes build (state [] [] [])
    ≡ state ([] ++ block (length {A = Timer} []) 0 build) [] ([] ++ render strokes 0 build)
run-render_example = run-render strokes build [] []

rendered :
    render strokes 0 build
    ≡ codes "|||||s build" ++ 10 ∷ codes "||s  fetch" ++ 10 ∷ codes "|s  link" ++ 10 ∷ []
unfolding render ◌-ℤ◌
rendered = refl

-- An outer timer that is stopped first drops the timers in it, and they print themselves again.
abbrev both : ℕ × State
both = timeit (codes "in") (pos 1) (timeit (codes "out") (pos 0) (state [] [] [])).1

out_of_order :
    (stop strokes 1 (pos 3) (stop strokes 0 (pos 2) both.1)).printed
    ≡ codes "||s out" ++ 10 ∷ codes "s  in" ++ 10 ∷ codes "||s  in" ++ 10 ∷ []
unfolding timeit stop stopped string update deref tip_of without_tip add_sub_action ◌-ℤ◌
out_of_order = refl
