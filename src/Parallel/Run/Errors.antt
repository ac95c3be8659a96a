-- ===== src/Parallel/Run/Errors.antt =====
-- What `Run` promises: few functions at once, and every error.
use juju_utils.Common.{
  ℕ, zero, suc, ◌+◌, ◌≤◌, ◌<◌, ◌≡◌, ◌⊎◌, refl, ap, ◌∙◌, arith, Bool, true, false, ◌&&◌, not, Option,
  none, some, List, [], ◌∷◌, ◌++◌, if◌then◌else◌, ltb, nat_beq, length,
}
use juju_utils.Parallel.Try.{pick, also}
use juju_utils.Parallel.Run.{
  Runner, idle, running_one, offering, Run, Action, calls_do, asks, closes, hands_over, sends,
  quits, collects, finishes, new_run, take_work, finish, quit, add_error, move, is_idle, is_running,
  stands, collect, step, run,
}
use juju_utils.Parallel.Run.Counts.{run-IsManned, fresh-IsManned, new_run-some, expected}

-- How many functions run.
abbrev pub busy : {E : Type 0} → List (Runner E) → ℕ
busy [] = 0
busy (x ∷ xs) = (if is_running x then 1 else 0) + busy xs

busy-le : {E : Type 0} (xs : List (Runner E)) → busy xs ≤ length xs
busy-le [] = omega arith
busy-le (x ∷ xs) = ground (arith, busy-le xs)

-- How many errors of a list pass a test.
abbrev pub count : {E : Type 0} → (E → Bool) → List E → ℕ
count p [] = 0
count p (e ∷ es) = (if p e then 1 else 0) + count p es

abbrev errs_of : {E : Type 0} → Runner E → List E
errs_of (idle errs) = errs
errs_of (running_one errs) = errs
errs_of (offering errs) = errs

module _ {E : Type 0} (p : E → Bool) where
  count-append : (xs ys : List E) → count p (xs ++ ys) ≡ count p xs + count p ys
  count-append [] ys = omega arith
  count-append (x ∷ xs) ys = omega (arith, count-append xs ys)

  total : List (Runner E) → ℕ
  total [] = 0
  total (x ∷ xs) = count p (errs_of x) + total xs

  abbrev counted : Option E → ℕ
  counted none = 0
  counted (some e) = if p e then 1 else 0

  count-add_error : (r : Option E) (es : List E) → count p (add_error r es) ≡ count p es + counted r
  count-add_error none es = omega arith
  count-add_error (some e) es = omega (arith, count-append es (e ∷ []))

  -- A move that keeps a runner's errors, and the return of a function.
  total-take_work : (i : ℕ) (xs : List (Runner E)) → total (move i take_work xs) ≡ total xs
  unfolding total
  total-take_work i [] = refl
  total-take_work zero (idle es ∷ xs) = refl
  total-take_work zero (running_one es ∷ xs) = refl
  total-take_work zero (offering es ∷ xs) = refl
  total-take_work (suc i) (x ∷ xs) = ap (λ (n : ℕ). count p (errs_of x) + n) (total-take_work i xs)

  total-quit : (i : ℕ) (xs : List (Runner E)) → total (move i quit xs) ≡ total xs
  unfolding total
  total-quit i [] = refl
  total-quit zero (idle es ∷ xs) = refl
  total-quit zero (running_one es ∷ xs) = refl
  total-quit zero (offering es ∷ xs) = refl
  total-quit (suc i) (x ∷ xs) = ap (λ (n : ℕ). count p (errs_of x) + n) (total-quit i xs)

  total-finish :
      (i : ℕ) (r : Option E) (xs : List (Runner E))
      → stands is_running i xs ≡ true
      → total (move i (finish r) xs) ≡ total xs + counted r
  unfolding total
  total-finish i r [] h = ground arith
  total-finish zero r (idle es ∷ xs) h = ground arith
  total-finish zero r (running_one es ∷ xs) h = omega (arith, count-add_error r es)
  total-finish zero r (offering es ∷ xs) h = ground arith
  total-finish (suc i) r (x ∷ xs) h = omega (arith, total-finish i r xs h)

  -- The errors of the runner that is picked, and of the others.
  abbrev picked : ℕ → Option (Runner E × List (Runner E)) → ℕ
  picked n none = n
  picked n (some (x, rest)) = count p (errs_of x) + total rest

  picked-also :
      (x : Runner E) (n : ℕ) (o : Option (Runner E × List (Runner E)))
      → picked n o ≡ n
      → picked (count p (errs_of x) + n) (also x o) ≡ count p (errs_of x) + n
  unfolding total
  picked-also x n none h = refl
  picked-also x n (some (y, ys)) h = omega arith

  picked-pick : (i : ℕ) (xs : List (Runner E)) → picked (total xs) (pick i xs) ≡ total xs
  unfolding total
  picked-pick i [] = refl
  picked-pick zero (x ∷ xs) = refl
  picked-pick (suc i) (x ∷ xs) = picked-also x (total xs) (pick i xs) (picked-pick i xs)

  -- Every error that a function has returned is with its runner or with `Wait`.
  abbrev Keeps : Run E → Type 0
  Keeps r = count p r.errs + total r.runners ≡ count p r.reported

  collect-Keeps :
      (o : Option (Runner E × List (Runner E))) (k : Option ℕ) (r : Run E)
      → picked (total r.runners) o ≡ total r.runners
      → Keeps r
      → Keeps (collect o k r)
  collect-Keeps none k r e h = h
  collect-Keeps (some (idle errs, rest)) k r e h = h
  collect-Keeps (some (running_one errs, rest)) k r e h = h
  collect-Keeps (some (offering errs, rest)) none r e h = h
  collect-Keeps (some (offering errs, rest)) (some k) r e h =
      omega (arith, count-append r.errs errs)

  if-Keeps :
      (b : Bool) (r r' : Run E) → (b ≡ true → Keeps r) → Keeps r' → Keeps (if b then r else r')
  if-Keeps true r r' h h' = h refl
  if-Keeps false r r' h h' = h'

  step-Keeps : (a : Action E) (r : Run E) → Keeps r → Keeps (step a r)
  unfolding step total
  step-Keeps calls_do r h = if-Keeps r.closed r _ (λ _. h) h
  step-Keeps asks r h =
      if-Keeps (ltb 0 r.asking) _ r (λ _. if-Keeps (ltb r.running r.max) _ _ (λ _. omega arith) h) h
  step-Keeps closes r h =
      if-Keeps (not r.closed && (nat_beq r.asking 0 && nat_beq r.sending 0)) _ r (λ _. h) h
  step-Keeps (hands_over i) r h =
      if-Keeps (not r.closed && stands is_idle i r.runners) _ r
        (λ _. omega (arith, total-take_work i r.runners)) h
  step-Keeps (sends i) r h =
      if-Keeps (ltb 0 r.sending && stands is_idle i r.runners) _ r
        (λ _. omega (arith, total-take_work i r.runners)) h
  step-Keeps (quits i) r h = if-Keeps r.closed _ r (λ _. omega (arith, total-quit i r.runners)) h
  step-Keeps (finishes i result) r h =
      if-Keeps (stands is_running i r.runners) _ r
        (λ here.
          omega (arith, total-finish i result r.runners here, count-add_error result r.reported))
        h
  step-Keeps (collects i) r h =
      collect-Keeps (pick i r.runners) r.outstanding r (picked-pick i r.runners) h

  run-Keeps : (actions : List (Action E)) (r : Run E) → Keeps r → Keeps (run actions r)
  unfolding run
  run-Keeps [] r h = h
  run-Keeps (a ∷ rest) r h = run-Keeps rest (step a r) (step-Keeps a r h)

empty_list : {A : Type 0} (xs : List A) → length xs ≡ 0 → xs ≡ []
empty_list [] h = refl
empty_list (x ∷ xs) h = absurd (omega arith)

module _ {E : Type 0} (max : ℕ) (start : Run E) (made : new_run max ≡ some start)
    (actions : List (Action E)) where
  -- After any actions in any order at most `max` functions run, and while a call of `Do` waits to
  -- send its function there is a runner.
  pub run_bounded :
      let r = run actions start in (busy r.runners ≤ max) × ((r.sending ≡ 0) ⊎ (0 < r.running))
  run_bounded =
      let (positive, e) = new_run-some max start made in
      let h = run-IsManned max actions start positive (rw e (fresh-IsManned max)) in
      (
        omega (arith, busy-le (run actions start).runners, h.manned, h.due),
        ground (arith, h.served),
      )

  -- When `Wait` has received as many results as it expects, no runner is left, and its errors are all
  -- those that the functions returned, each as often.
  pub wait_lem :
      (p : E → Bool)
      → (run actions start).outstanding ≡ some 0
      → ((run actions start).runners ≡ [])
        × (count p (run actions start).errs ≡ count p (run actions start).reported)
  unfolding total
  wait_lem p done =
      let (positive, e) = new_run-some max start made in
      let h = run-IsManned max actions start positive (rw e (fresh-IsManned max)) in
      let gone : (run actions start).runners ≡ [] =
        empty_list (run actions start).runners
          (h.manned ∙ ap (λ (k : Option ℕ). expected k (run actions start).running) done) in
      let kept : Keeps p (run actions start) = run-Keeps p actions start (rw e refl) in
      (gone, omega (arith, kept, ap (total p) gone))
