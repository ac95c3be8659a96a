-- ===== src/Attempt/Pacing.antt =====
-- The pace that the delay of a strategy sets.
use juju_utils.Common.{
  ltb→lt, ap, inr, inl, Bool-cases, ◌⊎◌, ℕ, ◌*◌, ◌<◌, ◌≡◌, true, false, if◌then◌else◌, arith,
}
use juju_utils.Common.Int.{neg_part, ℤ, pos, ◌+ℤ◌, ◌-ℤ◌, ltb_ℤ, pos_part, ◌≤ℤ◌, int_laws}
use juju_utils.Attempt.{gives_up, again, sleeps, AttemptStrategy, Attempt, start, next, next_sleep}

-- A clock that does not go back, and a sleep that lasts as long as it was asked to.
abbrev pub Ticks : ℤ → ℤ → Attempt → Type 0
Ticks now woken a = (a.last ≤ℤ now) × (sleeps now a ≡ true → now +ℤ next_sleep a now ≤ℤ woken)

-- After `count` attempts at least `count - 1` delays have gone by, since the attempts began at `began`.
pub record IsPaced (began : ℤ) (d : ℕ) (t : ℕ) (a : Attempt) : Type 0 where
  pub delay : a.strategy.delay ≡ pos d
  pub until : a.end ≡ began +ℤ pos t
  pub paced : began +ℤ pos (a.count * d) ≤ℤ a.last +ℤ pos d
  pub first : began ≤ℤ a.last

pub start-IsPaced :
    (s : AttemptStrategy) (now : ℤ) (d t : ℕ)
    → s.delay ≡ pos d
    → s.total ≡ pos t
    → IsPaced now d t (start s now)
unfolding start
start-IsPaced s now d t hd ht = record {
  delay = hd;
  until = rw ht;
  paced = omega int_laws;
  first = omega arith;
}

next_sleep_covers :
    (a : Attempt) (now : ℤ) → a.strategy.delay -ℤ (now -ℤ a.last) ≤ℤ next_sleep a now
unfolding next_sleep
next_sleep_covers a now = ground arith

sleep_nonneg : (a : Attempt) (now : ℤ) → pos 0 ≤ℤ next_sleep a now
unfolding next_sleep
sleep_nonneg a now = ground arith

-- A time at which the next attempt may start: a delay after the last, unless that is the first.
abbrev IsDue : ℤ → Attempt → Type 0
IsDue t a = (a.last ≤ℤ t) × ((a.count ≡ 0) ⊎ (a.last +ℤ a.strategy.delay ≤ℤ t))

not_sleeping :
    (a : Attempt) (now : ℤ) → sleeps now a ≡ false → (a.count ≡ 0) ⊎ (next_sleep a now ≤ℤ pos 0)
unfolding sleeps
not_sleeping a now h = ground arith

due_awake :
    (a : Attempt) (now : ℤ)
    → (a.count ≡ 0) ⊎ (next_sleep a now ≤ℤ pos 0)
    → (a.count ≡ 0) ⊎ (a.last +ℤ a.strategy.delay ≤ℤ now)
due_awake a now (inl none_yet) = inl none_yet
due_awake a now (inr short) = inr (omega (int_laws, next_sleep_covers a now))

due :
    (a : Attempt) (now woken : ℤ)
    → Ticks now woken a
    → IsDue (if sleeps now a then woken else now) a
due a now woken h = elim (Bool-cases (sleeps now a)) [
  | inl e ↦ rw e (
    omega (int_laws, sleep_nonneg a now, h.1 e),
    inr (omega (int_laws, next_sleep_covers a now, h.1 e)),
  )
  | inr e ↦ rw e (h.0, due_awake a now (not_sleeping a now e))
]

again-IsPaced :
    (began t : ℤ) (d total : ℕ) (a : Attempt)
    → IsPaced began d total a
    → IsDue t a
    → IsPaced began d total (again t a)
unfolding again
again-IsPaced began t d total a p (from, inl none_yet) = record {
  delay = p.delay;
  until = p.until;
  paced = omega (int_laws, ap (λ n. n * d) none_yet);
  first = omega (arith, from);
}
again-IsPaced began t d total a p (from, inr later) = record {
  delay = p.delay;
  until = p.until;
  paced = omega (int_laws, ap pos_part p.delay, ap neg_part p.delay);
  first = omega arith;
}

pub next-IsPaced :
    (began now woken : ℤ) (d t : ℕ) (a : Attempt)
    → IsPaced began d t a
    → Ticks now woken a
    → IsPaced began d t (next now woken a).1
unfolding next
next-IsPaced began now woken d t a p h = elim (Bool-cases (gives_up now a)) [
  | inl stop ↦ rw stop p
  | inr on ↦ rw on (again-IsPaced began _ d t a p (due a now woken h))
]

-- An attempt that the minimum does not ask for starts within the total time.
pub next_within :
    (began now woken : ℤ) (d t : ℕ) (a : Attempt)
    → IsPaced began d t a
    → Ticks now woken a
    → a.force ≡ false
    → a.strategy.minimum ≤ℤ pos a.count
    → (next now woken a).0 ≡ true
    → a.count * d < t
unfolding next gives_up
next_within began now woken d t a p h forced enough run =
    let in_time : ltb_ℤ (now +ℤ next_sleep a now) a.end ≡ true = ground arith in
    omega (
      int_laws,
      ltb→lt _ _ in_time,
      next_sleep_covers a now,
      ap pos_part p.delay,
      ap neg_part p.delay,
      ap pos_part p.until,
      ap neg_part p.until,
    )
