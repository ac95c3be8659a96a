-- ===== src/Timers/Blocks.antt =====
-- The timers of nested calls, in the order in which they are made.
use juju_utils.Common.{
  ℕ, zero, suc, ◌+◌, ◌<◌, ◌≡◌, refl, ap, ap₂, ◌∙◌, arith, some, List, [], ◌∷◌, ◌++◌, append_assoc,
  append-nil, length, length-append,
}
use juju_utils.Common.Bytes.{Bytes}
use juju_utils.Common.Int.{ℤ, ◌-ℤ◌}
use juju_utils.Timers.{Timer, update, deref, tip_of, without_tip, with_sub_actions}

-- A timed call: its action, when it starts, the calls in it, and when it stops.
mutual
  pub data Work : Type 0 where
    work : Bytes → ℤ → Works → ℤ → Work

  pub data Works : Type 0 where
    done : Works
    next : Work → Works → Works

-- The timers of calls, from a place in the list and at a depth.
unfoldable mutual
  pub size : Work → ℕ
  size (work a t ws u) = suc (sizes ws)

  pub sizes : Works → ℕ
  sizes done = 0
  sizes (next w ws) = size w + sizes ws

abbrev pub places : ℕ → Works → List ℕ
places n done = []
places n (next w ws) = n ∷ places (n + size w) ws

unfoldable mutual
  pub block : ℕ → ℕ → Work → List Timer
  block n d (work a t ws u) =
      record {
        action = a;
        start = t;
        depth = d;
        duration = u -ℤ t;
        sub_actions = places (suc n) ws;
      }
      ∷ blocks (suc n) (suc d) ws

  pub blocks : ℕ → ℕ → Works → List Timer
  blocks n d done = []
  blocks n d (next w ws) = block n d w ++ blocks (n + size w) d ws

mutual
  unfolding size block

  pub length-block : (n d : ℕ) (w : Work) → length (block n d w) ≡ size w
  length-block n d (work a t ws u) = ap suc (length-blocks (suc n) (suc d) ws)

  pub length-blocks : (n d : ℕ) (ws : Works) → length (blocks n d ws) ≡ sizes ws
  length-blocks n d done = refl
  length-blocks n d (next w ws) =
      length-append (block n d w) (blocks (n + size w) d ws)
      ∙ ap₂ (λ a b. a + b) (length-block n d w) (length-blocks (n + size w) d ws)

-- Writes and reads in a list of two parts.
pub update-append :
    (f : Timer → Timer) (i : ℕ) (ts us : List Timer)
    → i < length ts
    → update f i (ts ++ us) ≡ update f i ts ++ us
unfolding update
update-append f i [] us h = absurd (omega arith)
update-append f zero (t ∷ ts) us h = refl
update-append f (suc i) (t ∷ ts) us h =
    ap (λ (l : List Timer). t ∷ l) (update-append f i ts us (omega arith))

pub update_here :
    (f : Timer → Timer) (i : ℕ) (ts : List Timer) (t : Timer) (us : List Timer)
    → i ≡ length ts
    → update f i (ts ++ t ∷ us) ≡ ts ++ f t ∷ us
unfolding update
update_here f zero [] t us h = refl
update_here f zero (t' ∷ ts) t us h = absurd (omega arith)
update_here f (suc i) [] t us h = absurd (omega arith)
update_here f (suc i) (t' ∷ ts) t us h =
    ap (λ (l : List Timer). t' ∷ l) (update_here f i ts t us (omega arith))

pub deref_here :
    (i : ℕ) (ts : List Timer) (t : Timer) (us : List Timer)
    → i ≡ length ts
    → deref i (ts ++ t ∷ us) ≡ some t
unfolding deref
deref_here zero [] t us h = refl
deref_here zero (t' ∷ ts) t us h = absurd (omega arith)
deref_here (suc i) [] t us h = absurd (omega arith)
deref_here (suc i) (t' ∷ ts) t us h = deref_here i ts t us (omega arith)

pub length-update :
    (f : Timer → Timer) (i : ℕ) (ts : List Timer) → length (update f i ts) ≡ length ts
unfolding update
length-update f i [] = refl
length-update f zero (t ∷ ts) = refl
length-update f (suc i) (t ∷ ts) = ap suc (length-update f i ts)

pub update-update :
    (is js : List ℕ) (i : ℕ) (ts : List Timer)
    → update (with_sub_actions js) i (update (with_sub_actions is) i ts)
      ≡ update (with_sub_actions (is ++ js)) i ts
unfolding update
update-update is js i [] = refl
update-update is js zero (t ∷ ts) =
    ap (λ (l : List ℕ). record t { sub_actions = l } ∷ ts) (append_assoc t.sub_actions is js)
update-update is js (suc i) (t ∷ ts) = ap (λ (l : List Timer). t ∷ l) (update-update is js i ts)

pub update_nothing : (i : ℕ) (ts : List Timer) → update (with_sub_actions []) i ts ≡ ts
unfolding update
update_nothing i [] = refl
update_nothing zero (t ∷ ts) =
    ap (λ (l : List ℕ). record t { sub_actions = l } ∷ ts) (append-nil t.sub_actions)
update_nothing (suc i) (t ∷ ts) = ap (λ (l : List Timer). t ∷ l) (update_nothing i ts)

pub tip_of_pushed : (is : List ℕ) (i : ℕ) → tip_of (is ++ i ∷ []) ≡ some i
unfolding tip_of
tip_of_pushed [] i = refl
tip_of_pushed (j ∷ []) i = refl
tip_of_pushed (j ∷ k ∷ is) i = tip_of_pushed (k ∷ is) i

pub without_tip_pushed : (is : List ℕ) (i : ℕ) → without_tip (is ++ i ∷ []) ≡ is
unfolding without_tip
without_tip_pushed [] i = refl
without_tip_pushed (j ∷ []) i = refl
without_tip_pushed (j ∷ k ∷ is) i = ap (λ (l : List ℕ). j ∷ l) (without_tip_pushed (k ∷ is) i)
