-- ===== src/FileLock/Waiting.antt =====
-- `NewLock`, and the loop of `Lock`, `LockWithTimeout` and `LockWithFunc`.
use juju_utils.Common.{
  ℕ, ◌≡◌, refl, arith, Bool, true, false, ◌&&◌, ◌||◌, not, Option, none, some, List, [], ◌∷◌, map,
  if◌then◌else◌, leb, nat_beq, is_some, Bool-cases, inl, inr,
}
use juju_utils.Common.Int.{ℤ, ◌+ℤ◌, ltb_ℤ}
use juju_utils.Common.Bytes.{Bytes}
use juju_utils.Common.Results.{Result, ok, err}

abbrev pub is_lower : ℕ → Bool
is_lower c = leb b'a' c && leb c b'z'

abbrev pub is_name_char : ℕ → Bool
is_name_char c = is_lower c || ((leb b'0' c && leb c b'9') || (nat_beq c b'.' || nat_beq c b'-'))

abbrev pub all_name_chars : Bytes → Bool
all_name_chars [] = true
all_name_chars (c ∷ s) = is_name_char c && all_name_chars s

-- `NameRegexp`: a letter, and letters, digits, dots and dashes after it.
unfoldable pub valid_name : Bytes → Bool
valid_name [] = false
valid_name (c ∷ s) = is_lower c && all_name_chars s

-- `Lock`.
pub record Lock : Type 0 where
  pub name : Bytes
  pub parent : Bytes
  pub nonce : Bytes

pub data LockError (E : Type 0) : Type 0 where
  invalid_name : Bytes → LockError E
  timeout : LockError E
  other : E → LockError E

module _ {E : Type 0} where
  -- `NewLock`, from what `NewUUID` and `MkdirAll` return.
  abbrev pub make_lock : Bytes → Bytes → Result E Bytes → Option E → Result (LockError E) Lock
  make_lock lock_dir name (err e) mkdir = err (other e)
  make_lock lock_dir name (ok nonce) (some e) = err (other e)
  make_lock lock_dir name (ok nonce) none =
      ok (record { name = name; parent = lock_dir; nonce = nonce })

  unfoldable pub new_lock : Bytes → Bytes → Result E Bytes → Option E → Result (LockError E) Lock
  unfolding valid_name
  new_lock lock_dir name nonce mkdir =
      if not (valid_name name) then err (invalid_name name) else make_lock lock_dir name nonce mkdir

  -- `lockLoop`: what `acquire` and `continueFunc` return in each round; `none` is a loop that still
  -- goes on.
  unfoldable pub lock_loop :
      List (Result E Bool × Option (LockError E)) → Option (Result (LockError E) (Unit {0}))
  lock_loop [] = none
  lock_loop ((err e, continue) ∷ rounds) = some (err (other e))
  lock_loop ((ok true, continue) ∷ rounds) = some (ok tt)
  lock_loop ((ok false, some e) ∷ rounds) = some (err e)
  lock_loop ((ok false, none) ∷ rounds) = lock_loop rounds

  -- `Lock`: its `continueFunc` is a no-op.
  unfoldable pub lock : List (Result E Bool) → Option (Result (LockError E) (Unit {0}))
  unfolding lock_loop
  lock acquires = lock_loop (map (λ r. (r, none)) acquires)

  -- `LockWithTimeout`, with the time at which each round looks at the clock.
  abbrev pub until : ℤ → Result E Bool × ℤ → Result E Bool × Option (LockError E)
  until deadline (r, now) = (r, if ltb_ℤ deadline now then some timeout else none)

  unfoldable pub lock_with_timeout :
      ℤ → ℤ → List (Result E Bool × ℤ) → Option (Result (LockError E) (Unit {0}))
  unfolding lock_loop
  lock_with_timeout start duration rounds = lock_loop (map (until (start +ℤ duration)) rounds)

  abbrev pub is_timeout : Option (Result (LockError E) (Unit {0})) → Bool
  is_timeout none = false
  is_timeout (some (ok _)) = false
  is_timeout (some (err timeout)) = true
  is_timeout (some (err (invalid_name s))) = false
  is_timeout (some (err (other e))) = false

  -- Whether a round was later than the deadline.
  abbrev pub is_late : ℤ → List (Result E Bool × ℤ) → Bool
  is_late deadline [] = false
  is_late deadline ((r, now) ∷ rounds) = ltb_ℤ deadline now || is_late deadline rounds

  lock_loop-timeout :
      (deadline : ℤ) (rounds : List (Result E Bool × ℤ))
      → let r = lock_loop (map (until deadline) rounds) in
        ((is_late deadline rounds && not (is_some r)) ≡ false)
        × ((is_timeout r && not (is_late deadline rounds)) ≡ false)
  unfolding lock_loop
  lock_loop-timeout deadline [] = (refl, refl)
  lock_loop-timeout deadline ((err e, now) ∷ rounds) = (ground arith, refl)
  lock_loop-timeout deadline ((ok true, now) ∷ rounds) = (ground arith, refl)
  lock_loop-timeout deadline ((ok false, now) ∷ rounds) = elim (Bool-cases (ltb_ℤ deadline now)) [
    | inl late ↦ rw late (refl, refl)
    | inr early ↦ rw early (lock_loop-timeout deadline rounds)
  ]

  -- `LockWithTimeout` has returned once a round is later than the deadline, and it returns a timeout
  -- only if one is.
  pub lock_with_timeout_lem :
      (start duration : ℤ) (rounds : List (Result E Bool × ℤ))
      → let r = lock_with_timeout start duration rounds in
        let late = is_late (start +ℤ duration) rounds in
        ((late && not (is_some r)) ≡ false) × ((is_timeout r && not late) ≡ false)
  unfolding lock_with_timeout
  lock_with_timeout_lem start duration rounds = lock_loop-timeout (start +ℤ duration) rounds
