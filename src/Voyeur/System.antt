-- ===== src/Voyeur/System.antt =====
-- A value, its watchers, and the goroutines that use them, as a machine that takes one action at a
-- time.
use juju_utils.Common.{ℕ, ◌+◌, ◌-◌, Option, if◌then◌else◌, nat_beq, ltb, List, [], ◌∷◌}
use juju_utils.Voyeur.{
  Value, Watcher, Pass, returns, waits, init, set, close, close_watcher, next_pass, watch,
}

-- Where a watcher's goroutine stands: outside `Next`, about to make a pass of its loop, or in `Wait`.
pub data Status : Type 0 where
  outside looping parked : Status

-- `pending` counts the goroutines that have made a change and not yet called `Broadcast`.
pub record Machine (A : Type 0) : Type 0 where
  pub value : Value A
  pub watcher : ℕ → Watcher A
  pub status : ℕ → Status
  pub pending : ℕ

pub data Action (A : Type 0) : Type 0 where
  sets : Option A → Action A
  closes : Action A
  closes_watcher : ℕ → Action A
  broadcasts : Action A
  enters : ℕ → Action A
  passes : ℕ → Action A

abbrev pub at : {B : Type 0} → (ℕ → B) → ℕ → B → ℕ → B
at f i b j = if nat_beq i j then b else f j

-- `Broadcast` sends every parked goroutine back to the loop.
abbrev pub wake : Status → Status
wake outside = outside
wake looping = looping
wake parked = looping

abbrev pub enter : Status → Status
enter outside = looping
enter looping = looping
enter parked = parked

module _ {A : Type 0} where
  abbrev pub after_pass : ℕ → Machine A → Pass × Watcher A → Machine A
  after_pass i s (returns _, w) = record s {
    watcher = at s.watcher i w;
    status = at s.status i outside;
  }
  after_pass i s (waits, w) = record s { watcher = at s.watcher i w; status = at s.status i parked }

  abbrev pub pass_at : ℕ → Status → Machine A → Machine A
  pass_at i looping s = after_pass i s (next_pass s.value (s.watcher i))
  pass_at i _ s = s

  -- An action that its goroutine cannot take where it stands changes nothing.
  unfoldable pub step : Action A → Machine A → Machine A
  step (sets x) s = record s { value = set x s.value; pending = s.pending + 1 }
  step closes s = record s { value = close s.value; pending = s.pending + 1 }
  step (closes_watcher i) s = record s {
    watcher = at s.watcher i (close_watcher (s.watcher i));
    pending = s.pending + 1;
  }
  step broadcasts s =
      if ltb 0 s.pending
      then record s { status = λ i. wake (s.status i); pending = s.pending - 1 }
      else s
  step (enters i) s = record s { value = init s.value; status = at s.status i (enter (s.status i)) }
  step (passes i) s = pass_at i (s.status i) s

  unfoldable pub run : List (Action A) → Machine A → Machine A
  unfolding step
  run [] s = s
  run (a ∷ rest) s = run rest (step a s)

  -- A value with watchers that have just been made, and no goroutine in `Next`.
  abbrev pub fresh : Value A → Machine A
  fresh v = record { value = v; watcher = λ _. watch; status = λ _. outside; pending = 0 }
