-- ===== src/Attempt/Promises.antt =====
-- What the comments of attempt.go promise: at least one attempt, at least `Min` attempts, and an
-- attempt after each `HasNext` that said so.
use juju_utils.Common.{
  ◌-◌, ℕ, ◌+◌, ◌≤◌, ◌<◌, ◌≡◌, refl, true, if◌then◌else◌, List, [], ◌∷◌, arith, length,
}
use juju_utils.Common.Int.{ℤ, pos_part}
use Prim.Native.Nat.{max}
use juju_utils.Attempt.{again, gives_up, AttemptStrategy, Attempt, start, next, has_next}

-- After `HasNext` has returned true, the following `Next` returns true, at whatever times.
pub next-has_next :
    (a : Attempt) (now now' woken : ℤ)
    → (has_next now a).0 ≡ true
    → (next now' woken (has_next now a).1).0 ≡ true
unfolding next gives_up again has_next
next-has_next a now now' woken h = ground arith

-- `for a.Next() { … }` over the given clock readings: how many rounds run before it stops.
unfoldable pub rounds : List (ℤ × ℤ) → Attempt → ℕ
rounds [] a = 0
rounds ((now, woken) ∷ clock) a =
    let rest = rounds clock (next now woken a).1 in if (next now woken a).0 then rest + 1 else 0

-- The attempts that are still certain, whatever the clock says.
unfoldable pub owed : Attempt → ℕ
owed a =
    if a.force
    then max 1 (pos_part a.strategy.minimum - a.count)
    else pos_part a.strategy.minimum - a.count

pub next-owed : (a : Attempt) (now woken : ℤ) → 0 < owed a → (next now woken a).0 ≡ true
unfolding next gives_up again owed
next-owed a now woken h = ground arith

pub owed-next : (a : Attempt) (now woken : ℤ) → owed a ≤ owed (next now woken a).1 + 1
unfolding next gives_up again owed
owed-next a now woken = ground arith

rounds-owed :
    (clock : List (ℤ × ℤ)) (a : Attempt) → length clock ≤ owed a → rounds clock a ≡ length clock
unfolding rounds
rounds-owed [] a h = refl
rounds-owed ((now, woken) ∷ clock) a h =
    rw (next-owed a now woken (omega arith))
      (omega (arith, rounds-owed clock (next now woken a).1 (omega (arith, owed-next a now woken))))

-- The first max(1, Min) calls of `Next` after `Start` return true, whatever the clock says.
pub rounds-minimum :
    (s : AttemptStrategy) (now : ℤ) (clock : List (ℤ × ℤ))
    → length clock ≤ max 1 (pos_part s.minimum)
    → rounds clock (start s now) ≡ length clock
rounds-minimum s now clock h = rounds-owed clock (start s now) (unfold owed start in omega arith)
