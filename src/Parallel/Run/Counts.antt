-- ===== src/Parallel/Run/Counts.antt =====
-- How many runners there are.
use juju_utils.Common.{
  ℕ, zero, suc, ◌≤◌, ◌<◌, ◌≡◌, inl, inr, refl, ap, arith, true, ◌&&◌, ◌||◌, is_some, not, Option,
  none, some, List, [], ◌∷◌, ltb, nat_beq, length, Bool-cases,
}
use juju_utils.Parallel.Try.{pick}
use juju_utils.Parallel.Try.Bounds.{before, pick-length}
use juju_utils.Parallel.Run.{
  Runner, idle, running_one, offering, Run, Action, calls_do, asks, closes, hands_over, sends,
  quits, collects, finishes, new_run, fresh_run, take_work, finish, quit, move, collect, step, run,
}

-- The runners whose results `Wait` has still to receive.
abbrev pub expected : Option ℕ → ℕ → ℕ
expected none running = running
expected (some k) running = k

module _ {E : Type 0} where
  -- The runners are `running` until `Wait` has received results; a call of `Do` that sends has a
  -- runner to receive, and none is on its way once `Wait` has been called.
  pub record IsManned (n : ℕ) (r : Run E) : Type 0 where
    pub limit : r.max ≡ n
    pub bounded : r.running ≤ n
    pub manned : length r.runners ≡ expected r.outstanding r.running
    pub due : expected r.outstanding r.running ≤ n
    pub served : (nat_beq r.sending 0 || ltb 0 r.running) ≡ true
    pub waits : is_some r.outstanding ≡ r.closed
    pub quiet : (not r.closed || (nat_beq r.asking 0 && nat_beq r.sending 0)) ≡ true

  length-move :
      (i : ℕ) (f : Runner E → Runner E) (xs : List (Runner E)) → length (move i f xs) ≡ length xs
  length-move i f [] = refl
  length-move zero f (x ∷ xs) = refl
  length-move (suc i) f (x ∷ xs) = ap suc (length-move i f xs)

  collect-IsManned :
      (n : ℕ) (o : Option (Runner E × List (Runner E))) (k : Option ℕ) (r : Run E)
      → k ≡ r.outstanding
      → before (length r.runners) o ≡ length r.runners
      → IsManned n r
      → IsManned n (collect o k r)
  collect-IsManned n none k r e size h = h
  collect-IsManned n (some (idle errs, rest)) k r e size h = h
  collect-IsManned n (some (running_one errs, rest)) k r e size h = h
  collect-IsManned n (some (offering errs, rest)) none r e size h = h
  collect-IsManned n (some (offering errs, rest)) (some k) r e size h = record {
    limit = h.limit;
    bounded = h.bounded;
    manned = ground (arith, h.manned);
    due = ground (arith, h.due, h.bounded, h.limit);
    served = h.served;
    waits = ground (arith, h.waits);
    quiet = h.quiet;
  }

  step-IsManned : (n : ℕ) (a : Action E) (r : Run E) → 0 < n → IsManned n r → IsManned n (step a r)
  unfolding step
  step-IsManned n (collects i) r positive h =
      collect-IsManned n (pick i r.runners) r.outstanding r refl (pick-length i r.runners) h
  step-IsManned n (hands_over i) r positive h = record {
    limit = ground (arith, h.limit);
    bounded = ground (arith, h.bounded);
    manned = ground (arith, h.manned, length-move i take_work r.runners);
    due = ground (arith, h.due, h.bounded, h.limit);
    served = ground (arith, h.served);
    waits = ground (arith, h.waits);
    quiet = ground (arith, h.quiet);
  }
  step-IsManned n (sends i) r positive h = record {
    limit = ground (arith, h.limit);
    bounded = ground (arith, h.bounded);
    manned = ground (arith, h.manned, length-move i take_work r.runners);
    due = ground (arith, h.due, h.bounded, h.limit);
    served = ground (arith, h.served);
    waits = ground (arith, h.waits);
    quiet = ground (arith, h.quiet);
  }
  step-IsManned n (quits i) r positive h = record {
    limit = ground (arith, h.limit);
    bounded = ground (arith, h.bounded);
    manned = ground (arith, h.manned, length-move i quit r.runners);
    due = ground (arith, h.due, h.bounded, h.limit);
    served = ground (arith, h.served);
    waits = ground (arith, h.waits);
    quiet = ground (arith, h.quiet);
  }
  step-IsManned n (finishes i result) r positive h = record {
    limit = ground (arith, h.limit);
    bounded = ground (arith, h.bounded);
    manned = ground (arith, h.manned, length-move i (finish result) r.runners);
    due = ground (arith, h.due, h.bounded, h.limit);
    served = ground (arith, h.served);
    waits = ground (arith, h.waits);
    quiet = ground (arith, h.quiet);
  }
  step-IsManned n calls_do r positive h = record {
    limit = ground (arith, h.limit);
    bounded = ground (arith, h.bounded);
    manned = ground (arith, h.manned);
    due = ground (arith, h.due, h.bounded, h.limit);
    served = ground (arith, h.served);
    waits = ground (arith, h.waits);
    quiet = ground (arith, h.quiet);
  }
  step-IsManned n asks r positive h = record {
    limit = ground (arith, h.limit);
    bounded = ground (arith, h.bounded, h.limit);
    manned = ground (arith, h.manned, h.waits, h.quiet);
    due = ground (arith, h.due, h.bounded, h.limit);
    served = ground (arith, h.served, h.limit);
    waits = ground (arith, h.waits);
    quiet = ground (arith, h.quiet);
  }
  step-IsManned n closes r positive h = record {
    limit = ground (arith, h.limit);
    bounded = ground (arith, h.bounded);
    manned = ground (arith, h.manned, h.waits);
    due = ground (arith, h.due, h.bounded, h.limit);
    served = ground (arith, h.served);
    waits = ground (arith, h.waits);
    quiet = ground (arith, h.quiet);
  }

  pub run-IsManned :
      (n : ℕ) (actions : List (Action E)) (r : Run E)
      → 0 < n
      → IsManned n r
      → IsManned n (run actions r)
  unfolding run
  run-IsManned n [] r positive h = h
  run-IsManned n (a ∷ rest) r positive h =
      run-IsManned n rest (step a r) positive (step-IsManned n a r positive h)

  pub fresh-IsManned : (n : ℕ) → IsManned n (fresh_run n)
  fresh-IsManned n = record {
    limit = refl;
    bounded = omega arith;
    manned = refl;
    due = omega arith;
    served = refl;
    waits = refl;
    quiet = refl;
  }

  pub new_run-some : (n : ℕ) (r : Run E) → new_run n ≡ some r → (0 < n) × (r ≡ fresh_run n)
  unfolding new_run
  new_run-some n r made = elim (Bool-cases (ltb n 1)) [
    | inl few ↦ absurd (ground arith)
    | inr enough ↦ (ground arith, ground arith)
  ]
