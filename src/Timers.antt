-- ===== src/Timers.antt =====
-- timeit.go. The timers that have been made stay in a list, and a pointer is the place of a timer in it. Each
-- reading of the clock is an argument.
pub mod Blocks
pub mod Rendered
pub mod Nested
use juju_utils.Common.{
  ℕ, zero, suc, ◌||◌, Option, none, some, List, [], ◌∷◌, ◌++◌, if◌then◌else◌, length, replicate,
  nat_beq,
}
use juju_utils.Common.Bytes.{Bytes, codes}
use juju_utils.Common.Int.{ℤ, pos, ◌-ℤ◌}

pub record Timer : Type 0 where
  pub action : Bytes
  pub start : ℤ
  pub depth : ℕ
  pub duration : ℤ
  pub sub_actions : List ℕ

-- The timers, the stack with its tip last, and what has been printed.
pub record State : Type 0 where
  pub timers : List Timer
  pub stack : List ℕ
  pub printed : Bytes

-- A write through a pointer.
unfoldable pub update : (Timer → Timer) → ℕ → List Timer → List Timer
update f i [] = []
update f zero (t ∷ ts) = f t ∷ ts
update f (suc i) (t ∷ ts) = t ∷ update f i ts

unfoldable pub deref : ℕ → List Timer → Option Timer
deref i [] = none
deref zero (t ∷ ts) = some t
deref (suc i) (t ∷ ts) = deref i ts

-- `stack[len(stack)-1]`, if there is one.
unfoldable pub tip_of : List ℕ → Option ℕ
tip_of [] = none
tip_of (i ∷ []) = some i
tip_of (i ∷ j ∷ is) = tip_of (j ∷ is)

-- `stack[0 : len(stack)-1]`.
unfoldable pub without_tip : List ℕ → List ℕ
without_tip [] = []
without_tip (i ∷ []) = []
without_tip (i ∷ j ∷ is) = i ∷ without_tip (j ∷ is)

abbrev pub with_sub_actions : List ℕ → Timer → Timer
with_sub_actions is t = record t { sub_actions = t.sub_actions ++ is }

unfoldable pub add_sub_action : ℕ → Option ℕ → List Timer → List Timer
unfolding update
add_sub_action cur none ts = ts
add_sub_action cur (some tip) ts = update (with_sub_actions (cur ∷ [])) tip ts

-- `Timeit`, with the pointer that its result has.
unfoldable pub timeit : Bytes → ℤ → State → ℕ × State
unfolding tip_of add_sub_action
timeit action now s =
    let cur = length s.timers in
    let t : Timer = record {
      action = action;
      start = now;
      depth = length s.stack;
      duration = pos 0;
      sub_actions = [];
    } in
    (
      cur,
      record {
        timers = add_sub_action cur (tip_of s.stack) s.timers ++ t ∷ [];
        stack = s.stack ++ cur ∷ [];
        printed = s.printed;
      },
    )

abbrev pub with_duration : ℤ → Timer → Timer
with_duration now t = record t { duration = now -ℤ t.start }

-- The text of a duration in seconds, by `%.3f`.
module _ (seconds : ℤ → Bytes) where
  -- A line of `timer.String`.
  abbrev pub line : ℕ → Bytes → ℤ → Bytes
  line depth action duration =
      seconds duration ++ codes "s " ++ replicate depth b' ' ++ action ++ 10 ∷ []

  abbrev pub texts : (ℕ → Bytes) → List ℕ → Bytes
  texts text [] = []
  texts text (i ∷ is) = text i ++ texts text is

  abbrev pub timer_text : (ℕ → Bytes) → Option Timer → Bytes
  timer_text text none = []
  timer_text text (some t) = line t.depth t.action t.duration ++ texts text t.sub_actions

  -- `timer.String`, with fuel for its recursion.
  unfoldable pub string : ℕ → List Timer → ℕ → Bytes
  unfolding deref
  string zero ts i = []
  string (suc fuel) ts i = timer_text (string fuel ts) (deref i ts)

  -- The function that `Timeit` returns.
  unfoldable pub stopped : ℕ → List Timer → List ℕ → Bytes → State
  unfolding string without_tip
  stopped cur ts [] out = record {
    timers = ts;
    stack = [];
    printed = out ++ string (length ts) ts cur;
  }
  stopped cur ts (bottom ∷ rest) out =
      if nat_beq cur bottom
      then record { timers = ts; stack = []; printed = out ++ string (length ts) ts cur }
      else record { timers = ts; stack = without_tip (bottom ∷ rest); printed = out }

  unfoldable pub stop : ℕ → ℤ → State → State
  unfolding update stopped
  stop cur now s = stopped cur (update (with_duration now) cur s.timers) s.stack s.printed
