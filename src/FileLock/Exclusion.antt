-- ===== src/FileLock/Exclusion.antt =====
-- No two clients hold the lock.
use juju_utils.Common.{
  sym, ◌⊎◌, ℕ, ◌≡◌, refl, arith, Bool, true, false, ◌&&◌, Option, none, some, List, [], ◌∷◌,
  nat_beq_iff, ◌==◌, Bool-cases, inl, inr,
}
use juju_utils.Common.Bytes.{Bytes, bytes_eq, bytes_beq_iff}
use juju_utils.FileLock.{
  Directory, Client, outside, stat_passed, prepared, acquired, unlocking, System, Action, stats,
  prepares, renames, fails, checks, unlocks, at, holds, is_lock_held, stat, prepare,
  rename_directory, fail, check, unlock, step, run, unlocked,
}

-- A client that holds the lock, or is about to give it back.
abbrev pub claims : Client → Bool
claims outside = false
claims (stat_passed message) = false
claims (prepared d) = false
claims acquired = true
claims unlocking = true

-- A directory that a client is about to move has its nonce.
abbrev pub is_own : Bytes → Client → Bool
is_own nonce (prepared d) = d.held == nonce
is_own nonce c = true

module _ (nonce : ℕ → Bytes) (distinct : (i j : ℕ) → nonce i ≡ nonce j → i ≡ j) where
  pub record IsExclusive (s : System) : Type 0 where
    pub held : (i : ℕ) → holds s.directory (nonce i) ≡ claims (s.client i)
    pub own : (i : ℕ) → is_own (nonce i) (s.client i) ≡ true

  -- A change of one client that keeps what it claims.
  same_claim :
      (s : System) (i : ℕ) (c : Client)
      → claims c ≡ claims (s.client i)
      → is_own (nonce i) c ≡ true
      → IsExclusive s
      → IsExclusive (record s { client = at i c s.client })
  same_claim s i c e o h = record {
    held = λ j. ground (arith, h.held j, nat_beq_iff i j);
    own = λ j. ground (arith, h.own j, nat_beq_iff i j);
  }

  stat-claims : (o : Option Directory) (c : Client) (m : Bytes) → claims (stat o c m) ≡ claims c
  stat-claims o c m = ground arith

  stat-own :
      (n : Bytes) (o : Option Directory) (c : Client) (m : Bytes)
      → is_own n c ≡ true
      → is_own n (stat o c m) ≡ true
  stat-own n o c m h = ground arith

  prepare-claims : (n : Bytes) (c : Client) → claims (prepare n c) ≡ claims c
  prepare-claims n c = ground arith

  prepare-own : (n : Bytes) (c : Client) → is_own n c ≡ true → is_own n (prepare n c) ≡ true
  prepare-own n c h = ground (arith, bytes_beq_iff n n)

  fail-claims : (c : Client) → claims (fail c) ≡ claims c
  fail-claims c = ground arith

  fail-own : (n : Bytes) (c : Client) → is_own n c ≡ true → is_own n (fail c) ≡ true
  fail-own n c h = ground arith

  check-claims : (b : Bool) (c : Client) → b ≡ claims c → claims (check b c) ≡ claims c
  check-claims b c h = ground arith

  check-own : (n : Bytes) (b : Bool) (c : Client) → is_own n c ≡ true → is_own n (check b c) ≡ true
  check-own n b c h = ground arith

  rename-IsExclusive :
      (s : System) (i : ℕ) (c : Client)
      → s.client i ≡ c
      → IsExclusive s
      → IsExclusive (rename_directory i c s)
  rename-IsExclusive s i outside e h = h
  rename-IsExclusive s i (stat_passed m) e h = h
  rename-IsExclusive s i acquired e h = h
  rename-IsExclusive s i unlocking e h = h
  rename-IsExclusive s i (prepared d) e h = record {
    held = λ j. ground (
      arith,
      h.held i,
      h.held j,
      h.own i,
      nat_beq_iff i j,
      distinct i j,
      bytes_beq_iff (nonce i) (nonce j),
      bytes_beq_iff d.held (nonce i),
      bytes_beq_iff d.held (nonce j),
    );
    own = λ j. ground (arith, h.own j, nat_beq_iff i j);
  }

  pub one_owner :
      (o : Option Directory) (i j : ℕ) → holds o (nonce i) ≡ true → holds o (nonce j) ≡ true → i ≡ j
  one_owner none i j h k = ground arith
  one_owner (some d) i j h k =
      ground (arith, distinct i j, bytes_beq_iff d.held (nonce i), bytes_beq_iff d.held (nonce j))

  unlock-IsExclusive :
      (s : System) (i : ℕ) (c : Client)
      → s.client i ≡ c
      → IsExclusive s
      → IsExclusive (unlock i c s)
  unlock-IsExclusive s i outside e h = h
  unlock-IsExclusive s i (stat_passed m) e h = h
  unlock-IsExclusive s i acquired e h = h
  unlock-IsExclusive s i (prepared d) e h = h
  unlock-IsExclusive s i unlocking e h = record {
    held = λ j. ground (arith, h.held i, h.held j, nat_beq_iff i j, one_owner s.directory i j);
    own = λ j. ground (arith, h.own j, nat_beq_iff i j);
  }

  pub step-IsExclusive : (a : Action) (s : System) → IsExclusive s → IsExclusive (step nonce a s)
  unfolding step is_lock_held
  step-IsExclusive (stats i m) s h =
      same_claim s i _ (stat-claims s.directory (s.client i) m)
        (stat-own (nonce i) s.directory (s.client i) m (h.own i)) h
  step-IsExclusive (prepares i) s h =
      same_claim s i _ (prepare-claims (nonce i) (s.client i))
        (prepare-own (nonce i) (s.client i) (h.own i)) h
  step-IsExclusive (renames i) s h = rename-IsExclusive s i (s.client i) refl h
  step-IsExclusive (fails i) s h =
      same_claim s i _ (fail-claims (s.client i)) (fail-own (nonce i) (s.client i) (h.own i)) h
  step-IsExclusive (checks i) s h =
      same_claim s i _ (check-claims _ (s.client i) (h.held i))
        (check-own (nonce i) _ (s.client i) (h.own i)) h
  step-IsExclusive (unlocks i) s h = unlock-IsExclusive s i (s.client i) refl h

  pub run-IsExclusive :
      (actions : List Action) (s : System) → IsExclusive s → IsExclusive (run nonce actions s)
  unfolding run
  run-IsExclusive [] s h = h
  run-IsExclusive (a ∷ rest) s h = run-IsExclusive rest (step nonce a s) (step-IsExclusive a s h)

  -- If no two locks have the same nonce, then after any actions in any order, none of them a
  -- `BreakLock`, at most one client has acquired the lock and not given it back, and `IsLockHeld`
  -- says exactly which one that is.
  pub mutual_exclusion :
      (actions : List Action) (i j : ℕ)
      → let s = run nonce actions unlocked in
        (is_lock_held (nonce i) s ≡ claims (s.client i))
        × (((claims (s.client i) && claims (s.client j)) ≡ false) ⊎ (i ≡ j))
  unfolding is_lock_held
  mutual_exclusion actions i j =
      let h = run-IsExclusive actions unlocked (record { held = λ k. refl; own = λ k. refl }) in
      let o : Option Directory = (run nonce actions unlocked).directory in
      (
        h.held i,
        elim (Bool-cases (holds o (nonce i) && holds o (nonce j))) [
          | inl both ↦ inr (one_owner o i j (ground arith) (ground arith))
          | inr one ↦ inl (rw (sym (h.held i), sym (h.held j)) one)
        ],
      )
