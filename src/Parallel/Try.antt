-- ===== src/Parallel/Try.antt =====
-- parallel/try.go: `Try`. The loop is a function of what each case of its `select` receives; the
-- calls of `Start` and the started functions are counted by where they stand.
pub mod Loop
pub mod Bounds
use juju_utils.Common.{
  zero, ℕ, suc, ◌+◌, ◌-◌, Bool, true, false, ◌&&◌, ◌||◌, not, Option, none, some, List, [], ◌∷◌,
  if◌then◌else◌, ltb, nat_beq,
}
use juju_utils.Common.Results.{Result, ok, err}

-- The variables of `loop`: `close_is_nil` is `close == nil`.
pub record LoopState (E : Type 0) : Type 0 where
  pub err : Option E
  pub close_is_nil : Bool
  pub nrunning : ℕ

-- How a turn of `loop` ends: it goes round again, or it returns.
pub data Turn (V E : Type 0) : Type 0 where
  again : LoopState E → Turn V E
  returned : Option V → Option E → Turn V E

-- `chooseLastError`.
unfoldable pub choose_last_error : {E : Type 0} → Option E → E → Option E
choose_last_error err0 err1 = some err1

abbrev pub begin : {E : Type 0} → LoopState E
begin = record { err = none; close_is_nil = false; nrunning = 0 }

module _ {V E : Type 0} where
  -- `case f := <-t.start`.
  unfoldable pub on_start : LoopState E → Turn V E
  on_start l = again (record l { nrunning = l.nrunning + 1 })

  -- `case r := <-t.result`, where `combine` is `combineErrors`.
  unfoldable pub on_result : (Option E → E → Option E) → Result E V → LoopState E → Turn V E
  on_result combine (ok v) l = returned (some v) none
  on_result combine (err e) l =
      let l' : LoopState E = record l { err = combine l.err e; nrunning = l.nrunning - 1 } in
      if l'.close_is_nil && nat_beq l'.nrunning 0 then returned none l'.err else again l'

  -- `case <-t.tomb.Dying()`.
  unfoldable pub on_dying : E → LoopState E → Turn V E
  on_dying stopped l = elim l.err [
    | none ↦ returned none (some stopped)
    | some e ↦ returned none (some e)
  ]

  -- `case <-close`, of a channel that is not nil.
  unfoldable pub on_close : LoopState E → Turn V E
  on_close l =
      let l' : LoopState E = record l { close_is_nil = true } in
      if nat_beq l'.nrunning 0 then returned none l'.err else again l'

-- `Try`, and where its goroutines stand: `asking` and `offering` are the calls of `Start` at its
-- first and second `select`, `executing` the functions that run, `delivering` the results of those
-- that have returned, `closed_values` the values closed by a function. `limiter` is nil or the
-- number of values in the channel.
pub record Try (V E : Type 0) : Type 0 where
  pub loop : Turn V E
  pub limiter : Option ℕ
  pub max_parallel : ℕ
  pub closed : Bool
  pub dying : Bool
  pub asking : ℕ
  pub offering : ℕ
  pub executing : ℕ
  pub delivering : List (Result E V)
  pub closed_values : List V

pub data Action (V E : Type 0) : Type 0 where
  calls_start takes_slot refuses_slot is_accepted is_refused : Action V E
  finishes : Result E V → Action V E
  delivers discards : ℕ → Action V E
  sees_dying sees_close dies closes kills : Action V E

-- The `i`-th of a list, and the others.
abbrev pub also : {A : Type 0} → A → Option (A × List A) → Option (A × List A)
also x none = none
also x (some (y, ys)) = some (y, x ∷ ys)

abbrev pub pick : {A : Type 0} → ℕ → List A → Option (A × List A)
pick i [] = none
pick zero (x ∷ xs) = some (x, xs)
pick (suc i) (x ∷ xs) = also x (pick i xs)

-- A send to the limiter: whether there is room for it, and what it leaves.
abbrev pub has_room : Option ℕ → ℕ → Bool
has_room none capacity = true
has_room (some n) capacity = ltb n capacity

abbrev pub free_slot : Option ℕ → Option ℕ
free_slot none = none
free_slot (some n) = some (n + 1)

module _ {V E : Type 0} where
  -- `NewTry`; 0 stands for every number that is not positive.
  unfoldable pub new_try : ℕ → Try V E
  new_try max_parallel = record {
    loop = again begin;
    limiter = if ltb 0 max_parallel then some max_parallel else none;
    max_parallel = max_parallel;
    closed = false;
    dying = false;
    asking = 0;
    offering = 0;
    executing = 0;
    delivering = [];
    closed_values = [];
  }

  -- A call of `Start` reaches its first `select`, or without a limiter its second.
  abbrev pub call_start : Option ℕ → Try V E → Try V E
  call_start none t = record t { offering = t.offering + 1 }
  call_start (some n) t = record t { asking = t.asking + 1 }

  -- A receive from the limiter.
  abbrev pub take_slot : Option ℕ → Try V E → Try V E
  take_slot none t = t
  take_slot (some n) t =
      if ltb 0 n && ltb 0 t.asking
      then record t { limiter = some (n - 1); asking = t.asking - 1; offering = t.offering + 1 }
      else t

  -- The loop takes a turn, unless it has returned.
  abbrev pub turn : (LoopState E → Turn V E) → Turn V E → Turn V E
  turn f (again l) = f l
  turn f (returned v e) = returned v e

  abbrev pub is_looping : Turn V E → Bool
  is_looping (again l) = true
  is_looping (returned v e) = false

  -- A result is received by the loop.
  abbrev pub deliver :
      (Option E → E → Option E) → Option (Result E V × List (Result E V)) → Try V E → Try V E
  deliver combine none t = t
  deliver combine (some (r, rest)) t =
      if is_looping t.loop
      then record t { loop = turn (on_result combine r) t.loop; delivering = rest }
      else t

  -- A result is dropped because the tomb is dying; a value is closed.
  abbrev pub discard : Option (Result E V × List (Result E V)) → Try V E → Try V E
  discard none t = t
  discard (some (ok v, rest)) t = record t {
    delivering = rest;
    closed_values = v ∷ t.closed_values;
  }
  discard (some (err e, rest)) t = record t { delivering = rest }

  abbrev pub see_close : Turn V E → Turn V E
  see_close (again l) = if l.close_is_nil then again l else on_close l
  see_close (returned v e) = returned v e

  -- One step of one goroutine. An action that its goroutine cannot take changes nothing.
  unfoldable pub step : (Option E → E → Option E) → E → Action V E → Try V E → Try V E
  unfolding on_start on_dying
  step combine stopped calls_start t = call_start t.limiter t
  step combine stopped takes_slot t = take_slot t.limiter t
  step combine stopped refuses_slot t =
      if ltb 0 t.asking && (t.dying || t.closed) then record t { asking = t.asking - 1 } else t
  step combine stopped is_accepted t =
      if ltb 0 t.offering && is_looping t.loop
      then record t {
        loop = turn on_start t.loop;
        offering = t.offering - 1;
        executing = t.executing + 1;
      }
      else t
  step combine stopped is_refused t =
      if ltb 0 t.offering && (t.dying || t.closed)
      then record t { offering = t.offering - 1 }
      else t
  step combine stopped (finishes r) t =
      if ltb 0 t.executing && has_room t.limiter t.max_parallel
      then record t {
        limiter = free_slot t.limiter;
        executing = t.executing - 1;
        delivering = r ∷ t.delivering;
      }
      else t
  step combine stopped (delivers i) t = deliver combine (pick i t.delivering) t
  step combine stopped (discards i) t = if t.dying then discard (pick i t.delivering) t else t
  step combine stopped sees_dying t =
      if t.dying then record t { loop = turn (on_dying stopped) t.loop } else t
  step combine stopped sees_close t = if t.closed then record t { loop = see_close t.loop } else t
  step combine stopped dies t = if is_looping t.loop then t else record t { dying = true }
  step combine stopped closes t = record t { closed = true }
  step combine stopped kills t = record t { dying = true }

  unfoldable pub run : (Option E → E → Option E) → E → List (Action V E) → Try V E → Try V E
  run combine stopped [] t = t
  run combine stopped (a ∷ rest) t = run combine stopped rest (step combine stopped a t)
