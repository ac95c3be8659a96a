-- ===== src/Attempt/Bound.antt =====
-- How many attempts a strategy with a positive delay makes.
use Prim.Native.Nat.{max}
use native.Mathlib.Decide.{dec_lt}
use juju_utils.Common.{
  subst, inr, inl, Bool-cases, ◌⊎◌, ℕ, ◌+◌, ◌*◌, ◌-◌, ◌≤◌, ◌<◌, ◌≡◌, refl, true, false, List, [],
  ◌∷◌, arith,
}
use juju_utils.Common.Int.{ℤ, pos, pos_part}
use juju_utils.Attempt.{gives_up, again, AttemptStrategy, Attempt, start, next}
use juju_utils.Attempt.Promises.{rounds}
use juju_utils.Attempt.Pacing.{IsPaced, Ticks, start-IsPaced, next-IsPaced, next_within}

-- Each pair of readings ticks for the attempt that reads it.
abbrev pub TicksAlong : List (ℤ × ℤ) → Attempt → Type 0
TicksAlong [] a = Unit
TicksAlong ((now, woken) ∷ clock) a = Ticks now woken a × TicksAlong clock (next now woken a).1

-- What bounds a run that has made `n` attempts: the minimum asks for the last, or it was in time.
abbrev IsBounded : ℕ → ℕ → ℤ → ℕ → Type 0
IsBounded d t m n = (n ≡ 0) ⊎ ((n ≤ pos_part m) ⊎ ((n - 1) * d < t))

next-force : (a : Attempt) (now woken : ℤ) → a.force ≡ false → (next now woken a).1.force ≡ false
unfolding next again
next-force a now woken h = ground arith

next-minimum :
    (a : Attempt) (now woken : ℤ) → (next now woken a).1.strategy.minimum ≡ a.strategy.minimum
unfolding next again
next-minimum a now woken = ground arith

count-next :
    (a : Attempt) (now woken : ℤ)
    → (next now woken a).0 ≡ true
    → ((next now woken a).1.count ≡ a.count + 1) × ((next now woken a).1.force ≡ false)
unfolding next again
count-next a now woken h = ground arith

one_more :
    (began now woken : ℤ) (d t n : ℕ) (a : Attempt)
    → IsPaced began d t a
    → Ticks now woken a
    → a.force ≡ false
    → (next now woken a).0 ≡ true
    → (n ≡ 0) ⊎ IsBounded d t a.strategy.minimum (n + (a.count + 1))
    → IsBounded d t a.strategy.minimum (n + 1 + a.count)
one_more began now woken d t n a p h forced run (inl last_one) =
    elim (dec_lt a.count (pos_part a.strategy.minimum)) [
      | yes asked ↦ inr (inl (omega arith))
      | no enough ↦ inr (
          inr (
            subst (λ k. k * d < t) {x = a.count} (omega arith)
              (next_within began now woken d t a p h forced (omega arith) run)))
    ]
one_more began now woken d t n a p h forced run (inr bounded) =
    subst (λ k. IsBounded d t a.strategy.minimum k) {x = n + (a.count + 1)} (omega arith) bounded

rounds-IsBounded :
    (began : ℤ) (d t : ℕ) (clock : List (ℤ × ℤ)) (a : Attempt)
    → IsPaced began d t a
    → TicksAlong clock a
    → a.force ≡ false
    → (rounds clock a ≡ 0) ⊎ IsBounded d t a.strategy.minimum (rounds clock a + a.count)
unfolding rounds
rounds-IsBounded began d t [] a p h forced = inl refl
rounds-IsBounded began d t ((now, woken) ∷ clock) a p h forced =
    elim (Bool-cases (next now woken a).0) [
      | inl run ↦
          let (counted, forced') = count-next a now woken run in
          rw run (
            inr (
              one_more began now woken d t (rounds clock (next now woken a).1) a p h.0 forced run (
                rw (next-minimum a now woken, counted) at
                  (rounds-IsBounded began d t clock (next now woken a).1
                    (next-IsPaced began now woken d t a p h.0) h.1 forced'))))
      | inr stop ↦ rw stop (inl refl)
    ]

next_first : (s : AttemptStrategy) (now first woken : ℤ) → (next first woken (start s now)).0 ≡ true
unfolding next gives_up start
next_first s now first woken = ground arith

finish :
    (d t : ℕ) (m : ℤ) (n : ℕ)
    → (n ≡ 0) ⊎ IsBounded d t m (n + 1)
    → (n + 1 ≤ max 1 (pos_part m)) ⊎ ((n + 1 - 1) * d < t)
finish d t m n (inl one) = inl (omega arith)
finish d t m n (inr (inl never)) = absurd (omega arith)
finish d t m n (inr (inr (inl asked))) = inl (omega arith)
finish d t m n (inr (inr (inr in_time))) = inr in_time

-- A run of `Next` under a positive delay ends: on a clock that does not go back, all attempts but
-- those that `Min` asks for, and the first, start less than `Total` after `Start`, one delay apart.
pub rounds_end :
    (s : AttemptStrategy) (now : ℤ) (d t : ℕ) (clock : List (ℤ × ℤ))
    → s.delay ≡ pos d
    → s.total ≡ pos t
    → TicksAlong clock (start s now)
    → let n = rounds clock (start s now) in (n ≤ max 1 (pos_part s.minimum)) ⊎ ((n - 1) * d < t)
unfolding rounds start
rounds_end s now d t [] hd ht h = inl (omega arith)
rounds_end s now d t ((first, woken) ∷ clock) hd ht h =
    let run : (next first woken (start s now)).0 ≡ true = next_first s now first woken in
    let (counted, forced) = count-next (start s now) first woken run in
    rw run (
      finish d t s.minimum (rounds clock (next first woken (start s now)).1) (
        rw (next-minimum (start s now) first woken, counted) at
          (rounds-IsBounded now d t clock (next first woken (start s now)).1
            (next-IsPaced now first woken d t (start s now) (start-IsPaced s now d t hd ht) h.0) h.1
            forced)))
