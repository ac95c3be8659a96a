-- ===== src/Voyeur.antt =====
-- voyeur/value.go: a value that watchers wait on. Each function is what one goroutine does while it
-- holds the value's mutex.
pub mod System
pub mod Passes
pub mod Wakeups
use juju_utils.Common.{
  ℕ, ◌+◌, Bool, true, false, ◌||◌, not, Option, none, some, if◌then◌else◌, nat_beq, is_some,
}

-- `Value`; `none` is nil, and `ready` says that `wait.L` is set.
pub record Value (A : Type 0) : Type 0 where
  pub val : Option A
  pub version : ℕ
  pub closed : Bool
  pub ready : Bool

-- `Watcher`, without the pointer to its value.
pub record Watcher (A : Type 0) : Type 0 where
  pub version : ℕ
  pub current : Option A
  pub closed : Bool

-- How one pass of the loop in `Next` ends: it returns, or it waits on the condition.
pub data Pass : Type 0 where
  returns : Bool → Pass
  waits : Pass

module _ {A : Type 0} where
  -- `needsInit`.
  unfoldable pub needs_init : Value A → Bool
  needs_init v = not v.ready

  -- `init`.
  unfoldable pub init : Value A → Value A
  unfolding needs_init
  init v = if needs_init v then record v { ready = true } else v

  -- `NewValue`.
  unfoldable pub new_value : Option A → Value A
  new_value none = record { val = none; version = 0; closed = false; ready = true }
  new_value (some x) = record { val = some x; version = 1; closed = false; ready = true }

  -- `Set`, up to its broadcast.
  unfoldable pub set : Option A → Value A → Value A
  unfolding init
  set x v = let v' = init v in record v' { val = x; version = v'.version + 1 }

  -- `Close`, up to its broadcast.
  unfoldable pub close : Value A → Value A
  unfolding init
  close v = let v' = init v in record v' { closed = true }

  -- `Closed`.
  unfoldable pub closed : Value A → Bool
  closed v = v.closed

  -- `Get`.
  unfoldable pub get : Value A → Option A
  get v = v.val

  -- `Watch`.
  unfoldable pub watch : Watcher A
  watch = record { version = 0; current = none; closed = false }

  -- One pass of the loop in `Next`.
  unfoldable pub next_pass : Value A → Watcher A → Pass × Watcher A
  next_pass v w =
      if not (nat_beq w.version v.version)
      then (returns true, record w { version = v.version; current = v.val })
      else if v.closed || w.closed
      then (returns false, w)
      else (waits, w)

  -- `Watcher.Close`, up to its broadcast.
  unfoldable pub close_watcher : Watcher A → Watcher A
  close_watcher w = record w { closed = true }

  -- `Watcher.Value`.
  unfoldable pub watched : Watcher A → Option A
  watched w = w.current
