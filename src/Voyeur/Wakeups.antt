-- ===== src/Voyeur/Wakeups.antt =====
-- No wake-up is lost, and a watcher that is up to date has the value.
use juju_utils.Common.{
  nat_beq_iff, nat_beq_iff, nat_beq_iff, nat_beq_iff, nat_beq_iff, nat_beq_iff, nat_beq_iff,
  Bool-cases, nat_beq_iff, ℕ, ◌≡◌, ◌≤◌, ◌<◌, ◌⊎◌, inl, inr, refl, arith, Bool, true, false, Option,
  nat_beq, ltb, List, [], ◌∷◌,
}
use juju_utils.Voyeur.{
  new_value, needs_init, Value, Watcher, returns, waits, init, set, close, close_watcher, next_pass,
  watch,
}
use juju_utils.Voyeur.Passes.{IsIdle, next_pass-cases}
use juju_utils.Voyeur.System.{
  at, after_pass, enter, wake, Status, outside, looping, parked, Machine, Action, sets, closes,
  closes_watcher, broadcasts, enters, passes, step, run, fresh,
}

-- The watcher is not ahead of the value, and has it if it is up to date.
pub record IsSynced {A : Type 0} (v : Value A) (w : Watcher A) : Type 0 where
  pub behind : w.version ≤ v.version
  pub has_value : (w.version ≡ 0) ⊎ ((w.version < v.version) ⊎ (w.current ≡ v.val))

wake-never_parked : (t : Status) → wake t ≡ parked → ⊥
wake-never_parked outside e = ground arith
wake-never_parked looping e = ground arith
wake-never_parked parked e = ground arith

enter-parked : (t : Status) → enter t ≡ parked → t ≡ parked
enter-parked outside e = ground arith
enter-parked looping e = ground arith
enter-parked parked e = e

Status-cases : (t : Status) → (t ≡ looping) ⊎ ((t ≡ outside) ⊎ (t ≡ parked))
Status-cases outside = inr (inl refl)
Status-cases looping = inl refl
Status-cases parked = inr (inr refl)

module _ {A : Type 0} where
  -- A goroutine that is parked has nothing to report, or a broadcast is still to come.
  pub record IsAwake (s : Machine A) (i : ℕ) : Type 0 where
    pub woken_or_idle : s.status i ≡ parked → (0 < s.pending) ⊎ IsIdle s.value (s.watcher i)
    pub synced : IsSynced s.value (s.watcher i)

  pub set-IsAwake :
      (x : Option A) (s : Machine A) (i : ℕ) → IsAwake s i → IsAwake (step (sets x) s) i
  unfolding step set init needs_init
  set-IsAwake x s i h = record {
    woken_or_idle = λ p. inl (omega arith);
    synced = record {
      behind = grind (arith, h.synced.behind);
      has_value = grind (arith, h.synced.behind, h.synced.has_value);
    };
  }

  pub close-IsAwake : (s : Machine A) (i : ℕ) → IsAwake s i → IsAwake (step closes s) i
  unfolding step close init needs_init
  close-IsAwake s i h = record {
    woken_or_idle = λ p. inl (omega arith);
    synced = record {
      behind = grind (arith, h.synced.behind);
      has_value = ground (arith, h.synced.has_value);
    };
  }

  pub close_watcher-IsAwake :
      (j : ℕ) (s : Machine A) (i : ℕ) → IsAwake s i → IsAwake (step (closes_watcher j) s) i
  unfolding step close_watcher init needs_init
  close_watcher-IsAwake j s i h = record {
    woken_or_idle = λ p. inl (omega arith);
    synced = record {
      behind = grind (arith, h.synced.behind);
      has_value = ground (arith, h.synced.has_value);
    };
  }

  pub broadcast-IsAwake : (s : Machine A) (i : ℕ) → IsAwake s i → IsAwake (step broadcasts s) i
  unfolding step
  broadcast-IsAwake s i h = elim (Bool-cases (ltb 0 s.pending)) [
    | inl e ↦
        rw e record {
          woken_or_idle = λ p. absurd (wake-never_parked (s.status i) p);
          synced = h.synced;
        }
    | inr e ↦ rw e h
  ]

  pub enter-IsAwake : (j : ℕ) (s : Machine A) (i : ℕ) → IsAwake s i → IsAwake (step (enters j) s) i
  unfolding step init needs_init
  enter-IsAwake j s i h = record {
    woken_or_idle = λ p.
        elim (h.woken_or_idle (ground (arith, enter-parked (s.status j), nat_beq_iff j i))) [
          | inl pending ↦ inl pending
          | inr idle ↦ inr record {
            up_to_date = ground (arith, idle.up_to_date);
            value_open = ground (arith, idle.value_open);
            watcher_open = idle.watcher_open;
          }
        ];
    synced = record {
      behind = grind (arith, h.synced.behind);
      has_value = ground (arith, h.synced.has_value);
    };
  }

  at-IsSynced :
      (v : Value A) (f : ℕ → Watcher A) (w : Watcher A) (j i : ℕ)
      → IsSynced v (f i)
      → IsSynced v w
      → IsSynced v (at f j w i)
  at-IsSynced v f w j i old new = elim (Bool-cases (nat_beq j i)) [
    | inr e ↦ rw e old
    | inl e ↦ rw e new
  ]

  returned-IsAwake :
      (j : ℕ) (s : Machine A) (i : ℕ) (b : Bool) (w : Watcher A)
      → IsAwake s i
      → IsSynced s.value w
      → IsAwake (after_pass j s (returns b, w)) i
  returned-IsAwake j s i b w h new = record {
    woken_or_idle = elim (Bool-cases (nat_beq j i)) [
      | inr e ↦ rw e h.woken_or_idle
      | inl e ↦ rw e (λ p. ground arith)
    ];
    synced = at-IsSynced s.value s.watcher w j i h.synced new;
  }

  waiting-IsAwake :
      (j : ℕ) (s : Machine A) (i : ℕ)
      → IsAwake s i
      → IsSynced s.value (s.watcher j)
      → IsIdle s.value (s.watcher j)
      → IsAwake (after_pass j s (waits, s.watcher j)) i
  waiting-IsAwake j s i h new idle = record {
    woken_or_idle = elim (Bool-cases (nat_beq j i)) [
      | inr e ↦ rw e h.woken_or_idle
      | inl e ↦ rw e (λ p. inr idle)
    ];
    synced = at-IsSynced s.value s.watcher (s.watcher j) j i h.synced new;
  }

  -- A pass of a goroutine in the loop.
  looping-IsAwake :
      (j : ℕ) (s : Machine A) (i : ℕ)
      → IsAwake s j
      → IsAwake s i
      → IsAwake (after_pass j s (next_pass s.value (s.watcher j))) i
  looping-IsAwake j s i own h = elim (next_pass-cases s.value (s.watcher j)) [
    | inl e ↦ rw e (
        returned-IsAwake j s i true _ h record { behind = omega arith; has_value = inr (inr refl) })
    | inr (inl e) ↦ rw e (returned-IsAwake j s i false _ h own.synced)
    | inr (inr (e, idle)) ↦ rw e (waiting-IsAwake j s i h own.synced idle)
  ]

  pub pass-IsAwake :
      (j : ℕ) (s : Machine A) (i : ℕ) → IsAwake s j → IsAwake s i → IsAwake (step (passes j) s) i
  unfolding step
  pass-IsAwake j s i own h = elim (Status-cases (s.status j)) [
    | inl e ↦ rw e (looping-IsAwake j s i own h)
    | inr (inl e) ↦ rw e h
    | inr (inr e) ↦ rw e h
  ]

  pub step-IsAwake :
      (a : Action A) (s : Machine A) → ((i : ℕ) → IsAwake s i) → (i : ℕ) → IsAwake (step a s) i
  step-IsAwake (sets x) s h i = set-IsAwake x s i (h i)
  step-IsAwake closes s h i = close-IsAwake s i (h i)
  step-IsAwake (closes_watcher j) s h i = close_watcher-IsAwake j s i (h i)
  step-IsAwake broadcasts s h i = broadcast-IsAwake s i (h i)
  step-IsAwake (enters j) s h i = enter-IsAwake j s i (h i)
  step-IsAwake (passes j) s h i = pass-IsAwake j s i (h j) (h i)

  run-IsAwake :
      (actions : List (Action A)) (s : Machine A)
      → ((i : ℕ) → IsAwake s i)
      → (i : ℕ) → IsAwake (run actions s) i
  unfolding run
  run-IsAwake [] s h i = h i
  run-IsAwake (a ∷ rest) s h i = run-IsAwake rest (step a s) (step-IsAwake a s h) i

  fresh-IsAwake : (x : Option A) (i : ℕ) → IsAwake (fresh (new_value x)) i
  unfolding new_value watch
  fresh-IsAwake x i = record {
    woken_or_idle = λ p. ground arith;
    synced = record { behind = omega arith; has_value = inl refl };
  }

  -- On a new value with new watchers, after any actions in any order: if every change has been
  -- followed by its broadcast, a goroutine that is parked in `Wait` has nothing to report: its
  -- watcher has seen the last version, and neither it nor the value is closed.
  pub no_lost_wakeup :
      (x : Option A) (actions : List (Action A)) (i : ℕ)
      → (run actions (fresh (new_value x))).pending ≡ 0
      → (run actions (fresh (new_value x))).status i ≡ parked
      → IsIdle
          (run actions (fresh (new_value x))).value
          ((run actions (fresh (new_value x))).watcher i)
  no_lost_wakeup x actions i none_pending is_parked =
      elim ((run-IsAwake actions _ (fresh-IsAwake x) i).woken_or_idle is_parked) [
        | inl more ↦ absurd (omega arith)
        | inr idle ↦ idle
      ]

  -- On a new value with new watchers, after any actions in any order: a watcher is not ahead of the
  -- value, and one that has seen a version and is up to date has the value that was set last.
  pub watchers_in_sync :
      (x : Option A) (actions : List (Action A)) (i : ℕ)
      → IsSynced
          (run actions (fresh (new_value x))).value
          ((run actions (fresh (new_value x))).watcher i)
  watchers_in_sync x actions i = (run-IsAwake actions _ (fresh-IsAwake x) i).synced
