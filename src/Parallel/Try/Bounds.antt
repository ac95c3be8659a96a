-- ===== src/Parallel/Try/Bounds.antt =====
-- The bound on the functions that run.
use juju_utils.Common.{
  ◌⊎◌, zero, ap, ℕ, suc, ◌+◌, ◌≤◌, ◌<◌, ◌≡◌, refl, arith, Bool, true, false, Option, none, some,
  List, [], ◌∷◌, if◌then◌else◌, nat_beq, leb, length,
}
use juju_utils.Common.Results.{Result, ok, err}
use juju_utils.Parallel.Try.{
  Turn, again, returned, Try, Action, calls_start, takes_slot, refuses_slot, is_accepted,
  is_refused, finishes, delivers, discards, sees_dying, sees_close, dies, closes, kills, pick,
  new_try, step, run, call_start, take_slot, has_room, deliver, also, discard, on_start, on_dying,
  on_close, on_result,
}

-- The slots of the limiter are free, or held by a call of `Start` or a function that runs; some may
-- have been lost by calls that were refused.
abbrev pub is_limited : Option ℕ → ℕ → ℕ → Bool
is_limited none capacity held = nat_beq capacity 0
is_limited (some n) capacity held = leb (n + held) capacity

-- While the loop runs, it counts every function whose result it has not received.
abbrev pub is_counted : {V E : Type 0} → Turn V E → ℕ → Bool
is_counted (again l) n = leb n l.nrunning
is_counted (returned v e) n = true

-- The length that a picked list had.
abbrev pub before : {A : Type 0} → ℕ → Option (A × List A) → ℕ
before n none = n
before n (some (y, ys)) = suc (length ys)

also-length :
    {A : Type 0} (x : A) (n : ℕ) (o : Option (A × List A))
    → before n o ≡ n
    → before (suc n) (also x o) ≡ suc n
also-length x n none h = refl
also-length x n (some (y, ys)) h = ap suc h

pub pick-length : {A : Type 0} (i : ℕ) (xs : List A) → before (length xs) (pick i xs) ≡ length xs
pick-length i [] = refl
pick-length zero (x ∷ xs) = refl
pick-length (suc i) (x ∷ xs) = also-length x (length xs) (pick i xs) (pick-length i xs)

module _ {V E : Type 0} where
  pub record IsBounded (n : ℕ) (t : Try V E) : Type 0 where
    pub capacity : t.max_parallel ≡ n
    pub limited : is_limited t.limiter t.max_parallel (t.offering + t.executing) ≡ true
    pub counted : is_counted t.loop (t.executing + length t.delivering) ≡ true

  new_try-IsBounded : (n : ℕ) → IsBounded n (new_try {V = V} {E = E} n)
  unfolding new_try
  new_try-IsBounded n = record { capacity = refl; limited = ground arith; counted = refl }

  call_start-IsBounded :
      {n : ℕ} → (t : Try V E) → IsBounded n t → IsBounded n (call_start t.limiter t)
  call_start-IsBounded t h = record {
    capacity = ground (arith, h.capacity);
    limited = ground (arith, h.limited);
    counted = ground (arith, h.counted);
  }

  take_slot-IsBounded :
      {n : ℕ} → (t : Try V E) → IsBounded n t → IsBounded n (take_slot t.limiter t)
  take_slot-IsBounded t h = record {
    capacity = ground (arith, h.capacity);
    limited = ground (arith, h.limited);
    counted = ground (arith, h.counted);
  }

  accept-IsBounded :
      {n : ℕ}
      → (combine : Option E → E → Option E) (stopped : E) (t : Try V E) → IsBounded n t
      → IsBounded n (step combine stopped is_accepted t)
  unfolding step on_start
  accept-IsBounded combine stopped t h = record {
    capacity = ground (arith, h.capacity);
    limited = ground (arith, h.limited);
    counted = ground (arith, h.counted);
  }

  finish-IsBounded :
      {n : ℕ}
      → (combine : Option E → E → Option E) (stopped : E) (r : Result E V) (t : Try V E)
      → IsBounded n t
      → IsBounded n (step combine stopped (finishes r) t)
  unfolding step
  finish-IsBounded combine stopped r t h = record {
    capacity = ground (arith, h.capacity);
    limited = ground (arith, h.limited);
    counted = ground (arith, h.counted);
  }

  dying-IsBounded :
      {n : ℕ}
      → (combine : Option E → E → Option E) (stopped : E) (t : Try V E) → IsBounded n t
      → IsBounded n (step combine stopped sees_dying t)
  unfolding step on_dying
  dying-IsBounded combine stopped t h = record {
    capacity = ground (arith, h.capacity);
    limited = ground (arith, h.limited);
    counted = ground (arith, h.counted);
  }

  close-IsBounded :
      {n : ℕ}
      → (combine : Option E → E → Option E) (stopped : E) (t : Try V E) → IsBounded n t
      → IsBounded n (step combine stopped sees_close t)
  unfolding step on_close
  close-IsBounded combine stopped t h = record {
    capacity = ground (arith, h.capacity);
    limited = ground (arith, h.limited);
    counted = ground (arith, h.counted);
  }

  deliver-IsBounded :
      {n : ℕ}
      → (combine : Option E → E → Option E) (o : Option (Result E V × List (Result E V)))
        (t : Try V E)
      → before (length t.delivering) o ≡ length t.delivering
      → IsBounded n t
      → IsBounded n (deliver combine o t)
  unfolding on_result
  deliver-IsBounded combine none t e h = h
  deliver-IsBounded combine (some (ok v, rest)) t e h = record {
    capacity = ground (arith, h.capacity);
    limited = ground (arith, h.limited);
    counted = ground (arith, h.counted);
  }
  deliver-IsBounded combine (some (err x, rest)) t e h = record {
    capacity = ground (arith, h.capacity);
    limited = ground (arith, h.limited);
    counted = ground (arith, h.counted);
  }

  discard-IsBounded :
      {n : ℕ}
      → (o : Option (Result E V × List (Result E V))) (t : Try V E)
      → before (length t.delivering) o ≡ length t.delivering
      → IsBounded n t
      → IsBounded n (discard o t)
  discard-IsBounded none t e h = h
  discard-IsBounded (some (ok v, rest)) t e h = record {
    capacity = ground (arith, h.capacity);
    limited = h.limited;
    counted = ground (arith, h.counted);
  }
  discard-IsBounded (some (err x, rest)) t e h = record {
    capacity = ground (arith, h.capacity);
    limited = h.limited;
    counted = ground (arith, h.counted);
  }

  if-IsBounded :
      {n : ℕ} (b : Bool) (t t' : Try V E)
      → IsBounded n t
      → IsBounded n t'
      → IsBounded n (if b then t else t')
  if-IsBounded false t t' h h' = h'
  if-IsBounded true t t' h h' = h

  module _ (combine : Option E → E → Option E) (stopped : E) where
    step-IsBounded :
        {n : ℕ}
        → (a : Action V E) (t : Try V E) → IsBounded n t
        → IsBounded n (step combine stopped a t)
    unfolding step
    step-IsBounded calls_start t h = call_start-IsBounded t h
    step-IsBounded takes_slot t h = take_slot-IsBounded t h
    step-IsBounded refuses_slot t h = record {
      capacity = ground (arith, h.capacity);
      limited = ground (arith, h.limited);
      counted = ground (arith, h.counted);
    }
    step-IsBounded is_accepted t h = accept-IsBounded combine stopped t h
    step-IsBounded is_refused t h = record {
      capacity = ground (arith, h.capacity);
      limited = ground (arith, h.limited);
      counted = ground (arith, h.counted);
    }
    step-IsBounded (finishes r) t h = finish-IsBounded combine stopped r t h
    step-IsBounded (delivers i) t h =
        deliver-IsBounded combine (pick i t.delivering) t (pick-length i t.delivering) h
    step-IsBounded (discards i) t h =
        if-IsBounded t.dying _ t
          (discard-IsBounded (pick i t.delivering) t (pick-length i t.delivering) h) h
    step-IsBounded sees_dying t h = dying-IsBounded combine stopped t h
    step-IsBounded sees_close t h = close-IsBounded combine stopped t h
    step-IsBounded dies t h = record {
      capacity = ground (arith, h.capacity);
      limited = ground (arith, h.limited);
      counted = ground (arith, h.counted);
    }
    step-IsBounded closes t h = record {
      capacity = ground (arith, h.capacity);
      limited = h.limited;
      counted = h.counted;
    }
    step-IsBounded kills t h = record {
      capacity = ground (arith, h.capacity);
      limited = h.limited;
      counted = h.counted;
    }

    run-IsBounded :
        {n : ℕ}
        → (actions : List (Action V E)) (t : Try V E) → IsBounded n t
        → IsBounded n (run combine stopped actions t)
    unfolding run
    run-IsBounded [] t h = h
    run-IsBounded (a ∷ rest) t h = run-IsBounded rest _ (step-IsBounded a t h)

    -- With a positive `maxParallel` at most that many functions run, and one that returns finds
    -- room in the limiter for its slot; while the loop runs, it counts every function whose result
    -- it has not received. All this after any actions in any order.
    pub try_bounded :
        (n : ℕ) (actions : List (Action V E))
        → 0 < n
        → let t = run combine stopped actions (new_try n) in
          (t.executing ≤ n)
          × ((t.executing ≡ 0) ⊎ (has_room t.limiter n ≡ true))
          × (is_counted t.loop (t.executing + length t.delivering) ≡ true)
    try_bounded n actions positive =
        let h = run-IsBounded actions (new_try n) (new_try-IsBounded n) in
        (ground (arith, h.limited, h.capacity), ground (arith, h.limited, h.capacity), h.counted)
