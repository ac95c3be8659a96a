-- ===== src/Parallel/Try/Loop.antt =====
-- What `loop` makes of the results that it receives.
use juju_utils.Common.{
  ap, ◌∙◌, suc, ◌-◌, ◌<◌, ◌≡◌, refl, arith, true, false, ◌&&◌, Option, none, some, List, [], ◌∷◌,
  ◌++◌, nat_beq, length,
}
use juju_utils.Common.Results.{Result, ok, err}
use juju_utils.Parallel.Try.{LoopState, Turn, again, returned, on_result, turn}

-- The errors put together by `combineErrors`, oldest first.
abbrev pub combined : {E : Type 0} → (Option E → E → Option E) → Option E → List E → Option E
combined combine e [] = e
combined combine e (x ∷ xs) = combined combine (combine e x) xs

module _ {V E : Type 0} where
  -- The loop receives results one after the other.
  abbrev pub receive : (Option E → E → Option E) → List (Result E V) → Turn V E → Turn V E
  receive combine [] t = t
  receive combine (r ∷ rest) t = receive combine rest (turn (on_result combine r) t)

  abbrev pub failures : List E → List (Result E V)
  failures [] = []
  failures (e ∷ es) = err e ∷ failures es

  receive-returned :
      (combine : Option E → E → Option E) (rs : List (Result E V)) (v : Option V) (e : Option E)
      → receive combine rs (returned v e) ≡ returned v e
  receive-returned combine [] v e = refl
  receive-returned combine (r ∷ rs) v e = receive-returned combine rs v e

  on_result-goes_on :
      (combine : Option E → E → Option E) (e : E) (l : LoopState E)
      → (l.close_is_nil && nat_beq (l.nrunning - 1) 0) ≡ false
      → on_result {V = V} combine (err e) l
        ≡ again (record l { err = combine l.err e; nrunning = l.nrunning - 1 })
  unfolding on_result
  on_result-goes_on combine e l h = rw h refl

  on_result-last :
      (combine : Option E → E → Option E) (e : E) (l : LoopState E)
      → (l.close_is_nil && nat_beq (l.nrunning - 1) 0) ≡ true
      → on_result {V = V} combine (err e) l ≡ returned none (combine l.err e)
  unfolding on_result
  on_result-last combine e l h = rw h refl

  -- The result of the first function that succeeds is what the loop returns, whatever failed before
  -- it and whatever comes later, if fewer functions than were running have failed.
  pub first_success_wins :
      (combine : Option E → E → Option E) (es : List E) (v : V) (rest : List (Result E V))
      (l : LoopState E)
      → length es < l.nrunning
      → receive combine (failures es ++ ok v ∷ rest) (again l) ≡ returned (some v) none
  unfolding on_result
  first_success_wins combine [] v rest l h = receive-returned combine rest (some v) none
  first_success_wins combine (e ∷ es) v rest l h =
      ap (receive combine (failures es ++ ok v ∷ rest))
        (on_result-goes_on combine e l (ground arith))
      ∙ first_success_wins combine es v rest _ (omega arith)

  -- When a closed try has received a failure from every function, the loop returns no value and the
  -- errors put together in the order in which they came.
  pub all_fail :
      (combine : Option E → E → Option E) (e : E) (es : List E) (l : LoopState E)
      → l.close_is_nil ≡ true
      → l.nrunning ≡ suc (length es)
      → receive combine (failures (e ∷ es)) (again l)
        ≡ returned none (combined combine l.err (e ∷ es))
  all_fail combine e [] l c h = on_result-last combine e l (ground arith)
  all_fail combine e (x ∷ es) l c h =
      ap (receive combine (failures (x ∷ es))) (on_result-goes_on combine e l (ground arith))
      ∙ all_fail combine x es _ c (omega arith)
