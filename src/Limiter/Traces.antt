-- ===== src/Limiter/Traces.antt =====
-- Any sequence of calls on a limiter, by any goroutines.
use juju_utils.Common.{
  ◌↔◌, ℕ, ◌+◌, ◌≤◌, ◌<◌, ◌≡◌, Bool, some, nat_eq, if◌then◌else◌, List, [], ◌∷◌, arith,
}
use juju_utils.Common.Int.{pos}
use juju_utils.Limiter.{
  Limiter, new_limiter, acquire, acquire_wait, release, Released, freed, handed_over, not_acquired,
}

pub data Call : Type 0 where
  try_acquire wait give_back : Call

-- A limiter with the number of acquisitions that have been granted and of releases that succeeded.
pub record Account : Type 0 where
  pub limiter : Limiter
  pub granted : ℕ
  pub returned : ℕ

abbrev credit : Account → Bool × Limiter → Account
credit a (got, l) = record {
  limiter = l;
  granted = if got then a.granted + 1 else a.granted;
  returned = a.returned;
}

abbrev debit : Account → Released × Limiter → Account
debit a (freed, l) = record { limiter = l; granted = a.granted; returned = a.returned + 1 }
debit a (handed_over, l) = record {
  limiter = l;
  granted = a.granted + 1;
  returned = a.returned + 1;
}
debit a (not_acquired, l) = record { limiter = l; granted = a.granted; returned = a.returned }

unfoldable pub perform : Call → Account → Account
perform try_acquire a = credit a (acquire a.limiter)
perform wait a = credit a (acquire_wait a.limiter)
perform give_back a = debit a (release a.limiter)

unfoldable pub run : List Call → Account → Account
run [] a = a
run (c ∷ cs) a = run cs (perform c a)

-- The units in use are those that were granted and not returned; there are never more of them than
-- the limiter's size, and a goroutine waits only while all are in use.
pub record IsBalanced (max : ℕ) (a : Account) : Type 0 where
  pub sized : a.limiter.capacity ≡ max
  pub balanced : a.granted ≡ a.returned + a.limiter.buffered
  pub within : a.limiter.buffered ≤ max
  pub waits_when_full : 0 < a.limiter.blocked → a.limiter.buffered ≡ max

perform-IsBalanced :
    (c : Call) {max : ℕ} {a : Account} → IsBalanced max a → IsBalanced max (perform c a)
unfolding perform acquire acquire_wait release
perform-IsBalanced try_acquire b = ground arith
perform-IsBalanced wait b = ground arith
perform-IsBalanced give_back b = ground arith

run-IsBalanced :
    (cs : List Call) {max : ℕ} {a : Account} → IsBalanced max a → IsBalanced max (run cs a)
unfolding run
run-IsBalanced [] b = b
run-IsBalanced (c ∷ cs) b = run-IsBalanced cs (perform-IsBalanced c b)

abbrev pub opened : Limiter → Account
opened l = record { limiter = l; granted = 0; returned = 0 }

-- Whatever calls follow `NewLimiter(max)`, in whatever order.
pub limiter_safe :
    (max : ℕ) (l : Limiter) (cs : List Call)
    → new_limiter (pos max) ≡ some l
    → IsBalanced max (run cs (opened l))
unfolding new_limiter
limiter_safe max l cs made = run-IsBalanced cs (ground arith)

-- `Release` fails exactly when every grant has been returned and no goroutine waits.
pub release_fails_iff :
    (max : ℕ) (a : Account)
    → IsBalanced max a
    → ((release a.limiter).0 ≡ not_acquired) ↔ ((a.granted ≡ a.returned) × (a.limiter.blocked ≡ 0))
unfolding release
release_fails_iff max a b = ground arith
