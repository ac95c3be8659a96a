-- ===== src/FileLock.antt =====
-- fslock/fslock.go: a lock that is a directory. The clients share the file system; each step is one
-- call of the operating system.
pub mod Cycle
pub mod Exclusion
pub mod Refinement
pub mod Waiting
use juju_utils.Common.{
  ℕ, Bool, true, false, ◌&&◌, not, Option, none, some, List, [], ◌∷◌, if◌then◌else◌, nat_beq, ◌==◌,
  is_some,
}
use juju_utils.Common.Bytes.{Bytes, bytes_eq}

-- A directory with the file `held` and, for a message, the file `message`.
pub record Directory : Type 0 where
  pub held : Bytes
  pub message : Option Bytes

-- Where the owner of a `Lock` stands: outside, in `acquire` before and after the temporary directory
-- has been written, holding the lock, or in `Unlock` before the rename.
pub data Client : Type 0 where
  outside : Client
  stat_passed : Bytes → Client
  prepared : Directory → Client
  acquired : Client
  unlocking : Client

-- The lock's directory, and the owners of locks on it.
pub record System : Type 0 where
  pub directory : Option Directory
  pub client : ℕ → Client

-- What a client does. `fails` is any error of a call in `acquire` other than that of the rename.
pub data Action : Type 0 where
  stats : ℕ → Bytes → Action
  prepares renames fails checks unlocks : ℕ → Action

abbrev pub at : ℕ → Client → (ℕ → Client) → ℕ → Client
at i c f j = if nat_beq i j then c else f j

-- `IsLockHeld`, by the nonce of the lock.
abbrev pub holds : Option Directory → Bytes → Bool
holds none nonce = false
holds (some d) nonce = d.held == nonce

unfoldable pub is_lock_held : Bytes → System → Bool
is_lock_held nonce s = holds s.directory nonce

-- `IsLocked`.
unfoldable pub is_locked : System → Bool
is_locked s = is_some s.directory

-- `Message`.
unfoldable pub message : System → Bytes
message s = elim s.directory [ none ↦ [] | some d ↦ elim d.message [ none ↦ [] | some m ↦ m ] ]

-- `BreakLock`, if nothing else happens meanwhile.
unfoldable pub break_lock : System → System
break_lock s = record s { directory = none }

-- The first test of `acquire`.
abbrev pub stat : Option Directory → Client → Bytes → Client
stat none outside message = stat_passed message
stat _ c message = c

-- The temporary directory with the nonce and the message.
abbrev pub prepare : Bytes → Client → Client
prepare nonce (stat_passed message) =
    prepared (record { held = nonce; message = if message == [] then none else some message })
prepare nonce c = c

-- The rename of `acquire`: it fails if the lock's directory exists.
abbrev pub rename_directory : ℕ → Client → System → System
rename_directory i (prepared d) s = elim s.directory [
  | none ↦ record s { directory = some d; client = at i acquired s.client }
  | some other ↦ record s { client = at i outside s.client }
]
rename_directory i c s = s

abbrev pub fail : Client → Client
fail (stat_passed message) = outside
fail (prepared d) = outside
fail c = c

-- The test of `Unlock`.
abbrev pub check : Bool → Client → Client
check true outside = unlocking
check true acquired = unlocking
check _ c = c

-- The rename of `Unlock`.
abbrev pub unlock : ℕ → Client → System → System
unlock i unlocking s = record s { directory = none; client = at i outside s.client }
unlock i c s = s

module _ (nonce : ℕ → Bytes) where
  unfoldable pub step : Action → System → System
  unfolding is_lock_held
  step (stats i message) s = record s {
    client = at i (stat s.directory (s.client i) message) s.client;
  }
  step (prepares i) s = record s { client = at i (prepare (nonce i) (s.client i)) s.client }
  step (renames i) s = rename_directory i (s.client i) s
  step (fails i) s = record s { client = at i (fail (s.client i)) s.client }
  step (checks i) s = record s {
    client = at i (check (is_lock_held (nonce i) s) (s.client i)) s.client;
  }
  step (unlocks i) s = unlock i (s.client i) s

  unfoldable pub run : List Action → System → System
  run [] s = s
  run (a ∷ rest) s = run rest (step a s)

-- No lock is held, and nobody is in a call.
abbrev pub unlocked : System
unlocked = record { directory = none; client = λ _. outside }
