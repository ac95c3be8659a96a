-- ===== src/Timers/Nested.antt =====
-- What is printed for calls that are nested as the documentation of Timeit has them.
use juju_utils.Common.{
  ℕ, suc, ◌+◌, ◌<◌, ◌≡◌, refl, ap, sym, ◌∙◌, arith, true, false, some, List, [], ◌∷◌, ◌++◌,
  append_assoc, append-nil, length, length-append, nat_beq,
}
use juju_utils.Common.Bytes.{Bytes}
use juju_utils.Common.Int.{ℤ, pos}
use juju_utils.Timers.{
  Timer, State, update, tip_of, with_sub_actions, add_sub_action, timeit, string, stopped,
  with_duration, stop,
}
use juju_utils.Timers.Blocks.{
  Work, Works, work, done, next, size, places, block, blocks, length-block, update-append,
  update_here, length-update, update-update, update_nothing, tip_of_pushed, without_tip_pushed,
}
use juju_utils.Timers.Rendered.{render, string_whole}

abbrev pub state : List Timer → List ℕ → Bytes → State
state ts is out = record { timers = ts; stack = is; printed = out }

timeit_inner :
    (a : Bytes) (now : ℤ) (ts : List Timer) (is : List ℕ) (p : ℕ) (out : Bytes)
    → tip_of is ≡ some p
    → timeit a now (state ts is out) ≡ (
      length ts,
      state
          (update (with_sub_actions (length ts ∷ [])) p ts
            ++ record {
              action = a;
              start = now;
              depth = length is;
              duration = pos 0;
              sub_actions = [];
            }
              ∷ [])
          (is ++ length ts ∷ [])
          out,
    )
unfolding timeit add_sub_action
timeit_inner a now ts is p out h = rw h refl

timeit_outermost :
    (a : Bytes) (now : ℤ) (ts : List Timer) (out : Bytes)
    → timeit a now (state ts [] out) ≡ (
      length ts,
      state
          (ts
            ++ record { action = a; start = now; depth = 0; duration = pos 0; sub_actions = [] }
              ∷ [])
          (length ts ∷ [])
          out,
    )
unfolding timeit add_sub_action tip_of
timeit_outermost a now ts out = refl

module _ (seconds : ℤ → Bytes) where
  -- The calls of `Timeit` and of its results for nested calls.
  unfoldable mutual
    pub run : Work → State → State
    run (work a t ws u) s = let (cur, s') = timeit a t s in stop seconds cur u (run_all ws s')

    run_all : Works → State → State
    run_all done s = s
    run_all (next w ws) s = run_all ws (run w s)

  stop_inner :
      (n : ℕ) (u : ℤ) (ts : List Timer) (t : Timer) (us : List Timer) (bottom : ℕ) (is : List ℕ)
      (out : Bytes)
      → n ≡ length ts
      → bottom < n
      → stop seconds n u (state (ts ++ t ∷ us) (bottom ∷ (is ++ n ∷ [])) out)
        ≡ state (ts ++ with_duration u t ∷ us) (bottom ∷ is) out
  unfolding stop stopped
  stop_inner n u ts t us bottom is out hn hb =
      let other : nat_beq n bottom ≡ false = ground arith in
      rw (update_here (with_duration u) n ts t us hn, other, without_tip_pushed (bottom ∷ is) n)
        refl

  stop_outermost :
      (n : ℕ) (u : ℤ) (ts : List Timer) (t : Timer) (us : List Timer) (out : Bytes)
      → n ≡ length ts
      → let ts' = ts ++ with_duration u t ∷ us in
        stop seconds n u (state (ts ++ t ∷ us) (n ∷ []) out)
        ≡ state ts' [] (out ++ string seconds (length ts') ts' n)
  unfolding stop stopped
  stop_outermost n u ts t us out hn =
      let here : nat_beq n n ≡ true = ground arith in
      rw (update_here (with_duration u) n ts t us hn, here) refl

  mutual
    unfolding run size block

    run_inner :
        (w : Work) (ts : List Timer) (bottom p : ℕ) (is : List ℕ) (out : Bytes)
        → tip_of (bottom ∷ is) ≡ some p
        → bottom < length ts
        → p < length ts
        → run w (state ts (bottom ∷ is) out)
          ≡ state
              (update (with_sub_actions (length ts ∷ [])) p ts
                ++ block (length ts) (length (bottom ∷ is)) w)
              (bottom ∷ is)
              out
    run_inner (work a t ws u) ts bottom p is out tip hb hp =
        let n = length ts in
        let us = update (with_sub_actions (n ∷ [])) p ts in
        let t0 : Timer = record {
          action = a;
          start = t;
          depth = length (bottom ∷ is);
          duration = pos 0;
          sub_actions = [];
        } in
        let lu : n ≡ length us = sym (length-update (with_sub_actions (n ∷ [])) p ts) in
        let l : suc n ≡ length (us ++ t0 ∷ []) = omega (arith, length-append us (t0 ∷ [])) in
        let ld : length (is ++ n ∷ []) ≡ length is + 1 = length-append is (n ∷ []) in
        let inner =
          run_all_inner ws (us ++ t0 ∷ []) bottom n (is ++ n ∷ []) out (suc n)
            (suc (length (bottom ∷ is))) (tip_of_pushed (bottom ∷ is) n) (omega arith) (omega arith)
            l (omega arith) in
        let here : update (with_sub_actions (places (suc n) ws)) n (us ++ t0 ∷ [])
              ++ blocks (suc n) (suc (length (bottom ∷ is))) ws
            ≡ us
              ++ with_sub_actions (places (suc n) ws) t0
                ∷ blocks (suc n) (suc (length (bottom ∷ is))) ws =
          rw (update_here (with_sub_actions (places (suc n) ws)) n us t0 [] lu) (
            append_assoc us (with_sub_actions (places (suc n) ws) t0 ∷ [])
              (blocks (suc n) (suc (length (bottom ∷ is))) ws)) in
        ap (λ (r : ℕ × State). stop seconds r.0 u (run_all ws r.1))
          (timeit_inner a t ts (bottom ∷ is) p out tip)
        ∙ ap (stop seconds n u)
            (inner ∙ ap (λ (l : List Timer). state l (bottom ∷ (is ++ n ∷ [])) out) here)
        ∙ stop_inner n u us _ _ bottom is out lu hb

    run_all_inner :
        (ws : Works) (ts : List Timer) (bottom p : ℕ) (is : List ℕ) (out : Bytes) (n d : ℕ)
        → tip_of (bottom ∷ is) ≡ some p
        → bottom < length ts
        → p < length ts
        → n ≡ length ts
        → d ≡ length (bottom ∷ is)
        → run_all ws (state ts (bottom ∷ is) out)
          ≡ state (update (with_sub_actions (places n ws)) p ts ++ blocks n d ws) (bottom ∷ is) out
    run_all_inner done ts bottom p is out n d tip hb hp hn hd =
        ap (λ (l : List Timer). state l (bottom ∷ is) out)
          (sym (append-nil _ ∙ update_nothing p ts))
    run_all_inner (next w ws) ts bottom p is out n d tip hb hp hn hd =
        let us = update (with_sub_actions (n ∷ [])) p ts in
        let first : run w (state ts (bottom ∷ is) out)
            ≡ state (us ++ block n d w) (bottom ∷ is) out =
          rw (hn, hd) (run_inner w ts bottom p is out tip hb hp) in
        let longer : n + size w ≡ length (us ++ block n d w) = omega (
          arith,
          length-append us (block n d w),
          length-block n d w,
          length-update (with_sub_actions (n ∷ [])) p ts,
        ) in
        let lu : length us ≡ n = length-update (with_sub_actions (n ∷ [])) p ts ∙ sym hn in
        ap (run_all ws) first
        ∙ run_all_inner ws (us ++ block n d w) bottom p is out (n + size w) d tip (omega arith)
            (omega arith) longer hd
        ∙ rw
            (
              update-append (with_sub_actions (places (n + size w) ws)) p us (block n d w)
                  (omega arith),
              update-update (n ∷ []) (places (n + size w) ws) p ts,
            )
            (ap (λ (l : List Timer). state l (bottom ∷ is) out)
              (append_assoc (update (with_sub_actions (n ∷ places (n + size w) ws)) p ts)
                (block n d w) (blocks (n + size w) d ws)))

  -- When no timer runs, calls of `Timeit` that are nested in each other, each stopped before the one around it,
  -- print a line for each of them at the end of the outermost, in the order of their starts and indented by how
  -- deep they are, and leave no timer running. The number of timers is enough fuel.
  pub run-render :
      (w : Work) (ts : List Timer) (out : Bytes)
      → run w (state ts [] out) ≡ state (ts ++ block (length ts) 0 w) [] (out ++ render seconds 0 w)
  unfolding run block
  run-render (work a t ws u) ts out =
      let n = length ts in
      let t0 : Timer = record {
        action = a;
        start = t;
        depth = 0;
        duration = pos 0;
        sub_actions = [];
      } in
      let inner =
        run_all_inner ws (ts ++ t0 ∷ []) n n [] out (suc n) 1 (tip_of_pushed [] n)
          (omega (arith, length-append ts (t0 ∷ []))) (omega (arith, length-append ts (t0 ∷ [])))
          (omega (arith, length-append ts (t0 ∷ []))) refl in
      let here : update (with_sub_actions (places (suc n) ws)) n (ts ++ t0 ∷ [])
            ++ blocks (suc n) 1 ws
          ≡ ts ++ with_sub_actions (places (suc n) ws) t0 ∷ blocks (suc n) 1 ws =
        rw (update_here (with_sub_actions (places (suc n) ws)) n ts t0 [] refl)
          (append_assoc ts (with_sub_actions (places (suc n) ws) t0 ∷ []) (blocks (suc n) 1 ws)) in
      ap (λ (r : ℕ × State). stop seconds r.0 u (run_all ws r.1)) (timeit_outermost a t ts out)
      ∙ ap (stop seconds n u) (inner ∙ ap (λ (l : List Timer). state l (n ∷ []) out) here)
      ∙ stop_outermost n u ts (with_sub_actions (places (suc n) ws) t0) (blocks (suc n) 1 ws) out
          refl
      ∙ ap (λ (b : Bytes). state (ts ++ block n 0 (work a t ws u)) [] (out ++ b))
          (string_whole seconds (work a t ws u) ts)
