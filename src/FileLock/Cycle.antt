-- ===== src/FileLock/Cycle.antt =====
-- A lock that is taken and given back.
use juju_utils.Common.{ℕ, ◌≡◌, arith, none, [], ◌∷◌, nat_beq_iff}
use juju_utils.Common.Bytes.{Bytes, bytes_eq, bytes_beq_iff}
use juju_utils.FileLock.{
  outside, acquired, System, stats, prepares, renames, checks, unlocks, step, run, message,
}

module _ (nonce : ℕ → Bytes) where
  -- A client that nobody disturbs gets a lock that is free, with its message readable from it; when
  -- it unlocks, the lock is free again.
  pub lock_cycle :
      (i : ℕ) (m : Bytes) (s : System)
      → s.directory ≡ none
      → s.client i ≡ outside
      → let s1 = run nonce (stats i m ∷ prepares i ∷ renames i ∷ []) s in
        let s2 = run nonce (checks i ∷ unlocks i ∷ []) s1 in
        (s1.client i ≡ acquired)
        × (message s1 ≡ m)
        × (s2.directory ≡ none)
        × (s2.client i ≡ outside)
  unfolding run step message
  lock_cycle i m s free out = (
    ground (arith, nat_beq_iff i i),
    ground (arith, nat_beq_iff i i, bytes_beq_iff m []),
    ground (arith, nat_beq_iff i i, bytes_beq_iff (nonce i) (nonce i)),
    ground (arith, nat_beq_iff i i, bytes_beq_iff (nonce i) (nonce i)),
  )
