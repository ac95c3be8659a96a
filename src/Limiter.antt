-- ===== src/Limiter.antt =====
-- limiter.go: a counting semaphore on a buffered channel.
pub mod Traces
use juju_utils.Common.{
  ℕ, ◌+◌, ◌-◌, Bool, true, false, ◌&&◌, Option, none, some, nat_eq, if◌then◌else◌, ltb, List, [],
  ◌∷◌,
}
use juju_utils.Common.Int.{ℤ, pos, negsuc}

-- The channel: its capacity, the elements in its buffer, and the goroutines that are blocked in a
-- send on it (those in `AcquireWait`).
pub record Limiter : Type 0 where
  pub capacity : ℕ
  pub buffered : ℕ
  pub blocked : ℕ

-- `make(limiter, max)`, which panics at a negative size.
unfoldable pub new_limiter : ℤ → Option Limiter
new_limiter (pos max) = some (record { capacity = max; buffered = 0; blocked = 0 })
new_limiter (negsuc _) = none

-- A send in a `select` with a default: it succeeds if the buffer has room. (No goroutine ever
-- blocks in a receive, since `Release` receives in a `select` with a default too.)
unfoldable pub acquire : Limiter → Bool × Limiter
acquire l =
    if ltb l.buffered l.capacity then (true, record l { buffered = l.buffered + 1 }) else (false, l)

-- A plain send: `true` if it returns at once, `false` if the caller blocks.
unfoldable pub acquire_wait : Limiter → Bool × Limiter
acquire_wait l =
    if ltb l.buffered l.capacity
    then (true, record l { buffered = l.buffered + 1 })
    else (false, record l { blocked = l.blocked + 1 })

pub data Released : Type 0 where
  -- nil, and no goroutine was waiting
  freed : Released
  -- nil, and one blocked `AcquireWait` returns
  handed_over : Released
  -- the error "Release without an associated Acquire"
  not_acquired : Released

-- A receive in a `select` with a default. A receive from a buffer lets one blocked sender put its
-- element in; with no buffer at all it takes the element of a blocked sender.
unfoldable pub release : Limiter → Released × Limiter
release l =
    if ltb 0 l.blocked
    then (handed_over, record l { blocked = l.blocked - 1 })
    else if ltb 0 l.buffered
    then (freed, record l { buffered = l.buffered - 1 })
    else (not_acquired, l)
