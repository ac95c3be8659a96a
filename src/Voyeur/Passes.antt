-- ===== src/Voyeur/Passes.antt =====
-- What `Next` reports of the changes to the value.
use juju_utils.Common.{
  refl, ◌||◌, nat_beq_iff, ◌||◌, inl, inr, nat_beq, Bool-cases, ◌⊎◌, ◌≤◌, ◌≡◌, arith, true, false,
  Option,
}
use juju_utils.Voyeur.{
  waits, needs_init, init, Value, Watcher, returns, set, close, watched, next_pass,
}

-- There is nothing for the watcher to report.
pub record IsIdle {A : Type 0} (v : Value A) (w : Watcher A) : Type 0 where
  pub up_to_date : w.version ≡ v.version
  pub value_open : v.closed ≡ false
  pub watcher_open : w.closed ≡ false

module _ {A : Type 0} where
  -- How a pass of the loop ends, and why.
  pub next_pass-cases :
      (v : Value A) (w : Watcher A)
      → (next_pass v w ≡ (returns true, record w { version = v.version; current = v.val }))
        ⊎ ((next_pass v w ≡ (returns false, w)) ⊎ ((next_pass v w ≡ (waits, w)) × IsIdle v w))
  unfolding next_pass
  next_pass-cases v w = elim (Bool-cases (nat_beq w.version v.version)) [
    | inr e ↦ inl (rw e refl)
    | inl e ↦ elim (Bool-cases (v.closed || w.closed)) [
      | inl c ↦ inr (inl (rw (e, c) refl))
      | inr c ↦ inr (
          inr (
            rw (e, c) refl,
            record {
              up_to_date = ground (arith, nat_beq_iff w.version v.version);
              value_open = ground (arith);
              watcher_open = ground arith;
            },
          ))
    ]
  ]

  -- After a `Set`, the next pass of a watcher that is not ahead returns true with the value that
  -- was set, also when the value has been closed since; once it has, a pass returns false if the
  -- value is closed, and never true until another `Set`.
  pub set-next_pass :
      (x : Option A) (v : Value A) (w : Watcher A)
      → w.version ≤ v.version
      → ((next_pass (set x v) w).0 ≡ returns true)
        × (watched (next_pass (set x v) w).1 ≡ x)
        × ((next_pass (close (set x v)) w).0 ≡ returns true)
        × (watched (next_pass (close (set x v)) w).1 ≡ x)
        × ((next_pass (close (set x v)) (next_pass (set x v) w).1).0 ≡ returns false)
        × ¬ ((next_pass (set x v) (next_pass (set x v) w).1).0 ≡ returns true)
  unfolding next_pass set close init needs_init watched
  set-next_pass x v w behind =
      (ground arith, ground arith, ground arith, ground arith, ground arith, λ e. ground arith)
