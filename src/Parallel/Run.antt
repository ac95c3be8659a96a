-- ===== src/Parallel/Run.antt =====
-- parallel/parallel.go: `Run`. The calls of `Do` are counted by where they stand, the runners are a
-- list, and each step is one step of one goroutine.
pub mod Counts
pub mod Errors
use juju_utils.Common.{
  ℕ, zero, suc, ◌+◌, ◌-◌, Bool, true, false, ◌&&◌, not, Option, none, some, List, [], ◌∷◌, ◌++◌,
  if◌then◌else◌, ltb, nat_beq, length, is_some,
}
use juju_utils.Common.Bytes.{Bytes, codes}
use juju_utils.Parallel.Try.{pick}

-- A runner, with the errors that it has met: it waits for work, runs a function, or has seen that
-- there is no more work and offers its errors.
pub data Runner (E : Type 0) : Type 0 where
  idle running_one offering : List E → Runner E

-- `Run`, with the calls of `Do` before its lock (`asking`) and at its last send (`sending`). In `Wait`
-- `outstanding` is the number of results still to come, and `errs` is what it has received.
-- `reported` is every error that a function has returned.
pub record Run (E : Type 0) : Type 0 where
  pub max : ℕ
  pub running : ℕ
  pub closed : Bool
  pub asking : ℕ
  pub sending : ℕ
  pub runners : List (Runner E)
  pub outstanding : Option ℕ
  pub errs : List E
  pub reported : List E

-- `calls_do` is a `Do` that finds no runner ready, `hands_over` one that does.
pub data Action (E : Type 0) : Type 0 where
  calls_do asks closes : Action E
  hands_over sends quits collects : ℕ → Action E
  finishes : ℕ → Option E → Action E

module _ {E : Type 0} where
  -- `NewRun`, which panics unless `max` is positive.
  abbrev pub fresh_run : ℕ → Run E
  fresh_run max = record {
    max = max;
    running = 0;
    closed = false;
    asking = 0;
    sending = 0;
    runners = [];
    outstanding = none;
    errs = [];
    reported = [];
  }

  unfoldable pub new_run : ℕ → Option (Run E)
  new_run max = if ltb max 1 then none else some (fresh_run max)

  -- The moves of one runner: it receives a function, its function returns, it sees the closed
  -- channel. A runner that stands elsewhere does not move.
  abbrev pub take_work : Runner E → Runner E
  take_work (idle errs) = running_one errs
  take_work (running_one errs) = running_one errs
  take_work (offering errs) = offering errs

  abbrev pub add_error : Option E → List E → List E
  add_error none errs = errs
  add_error (some e) errs = errs ++ e ∷ []

  abbrev pub finish : Option E → Runner E → Runner E
  finish r (idle errs) = idle errs
  finish r (running_one errs) = idle (add_error r errs)
  finish r (offering errs) = offering errs

  abbrev pub quit : Runner E → Runner E
  quit (idle errs) = offering errs
  quit (running_one errs) = running_one errs
  quit (offering errs) = offering errs

  -- Runner `i` moves.
  abbrev pub move : ℕ → (Runner E → Runner E) → List (Runner E) → List (Runner E)
  move i f [] = []
  move zero f (x ∷ xs) = f x ∷ xs
  move (suc i) f (x ∷ xs) = x ∷ move i f xs

  abbrev pub is_idle : Runner E → Bool
  is_idle (idle errs) = true
  is_idle (running_one errs) = false
  is_idle (offering errs) = false

  abbrev pub is_running : Runner E → Bool
  is_running (idle errs) = false
  is_running (running_one errs) = true
  is_running (offering errs) = false

  -- Whether runner `i` stands so.
  abbrev pub stands : (Runner E → Bool) → ℕ → List (Runner E) → Bool
  stands p i [] = false
  stands p zero (x ∷ xs) = p x
  stands p (suc i) (x ∷ xs) = stands p i xs

  -- The results of a runner are received by `Wait`.
  abbrev pub collect : Option (Runner E × List (Runner E)) → Option ℕ → Run E → Run E
  collect none k r = r
  collect (some (idle errs, rest)) k r = r
  collect (some (running_one errs, rest)) k r = r
  collect (some (offering errs, rest)) none r = r
  collect (some (offering errs, rest)) (some k) r = record r {
    runners = rest;
    outstanding = some (k - 1);
    errs = r.errs ++ errs;
  }

  -- One step of one goroutine. `Do` and `Wait` may not be called concurrently, so `Wait` is called
  -- when no `Do` is on its way, and no `Do` once it has been.
  unfoldable pub step : Action E → Run E → Run E
  step calls_do r = if r.closed then r else record r { asking = r.asking + 1 }
  step (hands_over i) r =
      if not r.closed && stands is_idle i r.runners
      then record r { runners = move i take_work r.runners }
      else r
  step asks r =
      if ltb 0 r.asking
      then if ltb r.running r.max
        then record r {
          running = r.running + 1;
          runners = idle [] ∷ r.runners;
          asking = r.asking - 1;
          sending = r.sending + 1;
        }
        else record r { asking = r.asking - 1; sending = r.sending + 1 }
      else r
  step (sends i) r =
      if ltb 0 r.sending && stands is_idle i r.runners
      then record r { sending = r.sending - 1; runners = move i take_work r.runners }
      else r
  step (finishes i result) r =
      if stands is_running i r.runners
      then record r {
        runners = move i (finish result) r.runners;
        reported = add_error result r.reported;
      }
      else r
  step closes r =
      if not r.closed && (nat_beq r.asking 0 && nat_beq r.sending 0)
      then record r { closed = true; outstanding = some r.running }
      else r
  step (quits i) r = if r.closed then record r { runners = move i quit r.runners } else r
  step (collects i) r = collect (pick i r.runners) r.outstanding r

  unfoldable pub run : List (Action E) → Run E → Run E
  unfolding step
  run [] r = r
  run (a ∷ rest) r = run rest (step a r)

-- `Errors.Error`, of errors given by their texts, where `decimal` is `%d`.
unfoldable pub errors_text : (ℕ → Bytes) → List Bytes → Bytes
errors_text decimal [] = codes "no error"
errors_text decimal (e ∷ []) = e
errors_text decimal (e ∷ f ∷ rest) =
    e ++ codes " (and " ++ decimal (length (f ∷ rest)) ++ codes " more)"
