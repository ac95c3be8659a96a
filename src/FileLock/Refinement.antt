-- ===== src/FileLock/Refinement.antt =====
-- The lock on disk refines a lock that one client owns at a time.
use juju_utils.Common.{
  nat_beq_iff, Bool, ◌==◌, ℕ, ◌≡◌, refl, arith, ap, sym, ◌∙◌, subst, true, Option, none, some, List,
  [], ◌∷◌, Option-cases, inl, inr,
}
use juju_utils.Common.Bytes.{bytes_beq_iff, Bytes, bytes_eq}
use juju_utils.FileLock.{
  at, fail, check, prepare, is_lock_held, stat, Directory, Client, outside, stat_passed, prepared,
  acquired, unlocking, System, Action, stats, prepares, renames, fails, checks, unlocks, holds,
  rename_directory, unlock, step, run, unlocked,
}
use juju_utils.FileLock.Exclusion.{IsExclusive, step-IsExclusive, claims, is_own}

-- What the users of the lock see: a client's call of `acquire` has got the lock, or its `Unlock` has
-- given it back.
pub data Event : Type 0 where
  took gave : ℕ → Event

-- What the step of a client says to its user, by where the client stood before and stands after it.
abbrev pub says : ℕ → Client → Client → List Event → List Event
says i (prepared d) acquired es = took i ∷ es
says i unlocking outside es = gave i ∷ es
says i _ _ es = es

abbrev pub actor : Action → ℕ
actor (stats i m) = i
actor (prepares i) = i
actor (renames i) = i
actor (fails i) = i
actor (checks i) = i
actor (unlocks i) = i

-- The lock that one client owns at a time: its owner before, what its users see, and its owner after.
pub data LockRun : Option ℕ → List Event → Option ℕ → Type 0 where
  here : (o : Option ℕ) → LockRun o [] o
  takes :
      {es : List Event} {o : Option ℕ} (i : ℕ)
      → LockRun (some i) es o
      → LockRun none (took i ∷ es) o
  gives :
      {es : List Event} {o : Option ℕ} (i : ℕ)
      → LockRun none es o
      → LockRun (some i) (gave i ∷ es) o

module _ (nonce : ℕ → Bytes) where
  -- What the users see of a run.
  unfoldable pub seen : List Action → System → List Event
  unfolding step
  seen [] s = []
  seen (a ∷ rest) s =
      let s' = step nonce a s in
      says (actor a) (s.client (actor a)) (s'.client (actor a)) (seen rest s')

  -- The directory on disk belongs to the owner.
  abbrev pub Represents : Option Directory → Option ℕ → Type 0
  Represents d none = d ≡ none
  Represents d (some i) = holds d (nonce i) ≡ true

module _ (nonce : ℕ → Bytes) (distinct : (i j : ℕ) → nonce i ≡ nonce j → i ≡ j) where
  -- From the directory and the client before a step to those after it: the lock makes the same step, and
  -- goes on as it may from there.
  abbrev Simulates : ℕ → Client → Option ℕ → Option Directory → Client → Type 0
  Simulates i c o d c' =
      (o' : Option ℕ) × Represents nonce d o'
      × ((es : List Event) (end : Option ℕ) → LockRun o' es end → LockRun o (says i c c' es) end)

  stay :
      (i : ℕ) (c : Client) (o : Option ℕ) (d : Option Directory) (c' : Client)
      → Represents nonce d o
      → ((es : List Event) → says i c c' es ≡ es)
      → Simulates i c o d c'
  stay i c o d c' r quiet = (o, r, λ es end h. rw (quiet es) h)

  take :
      (i : ℕ) (o : Option ℕ) (d : Directory)
      → Represents nonce none o
      → (d.held == nonce i) ≡ true
      → Simulates i (prepared d) o (some d) acquired
  take i none d r own = (some i, own, λ es end h. takes i h)
  take i (some k) d r own = absurd (ground arith)

  same_owner :
      (d : Option Directory) (i k : ℕ) → holds d (nonce i) ≡ true → holds d (nonce k) ≡ true → i ≡ k
  same_owner none i k hi hk = absurd (ground arith)
  same_owner (some d) i k hi hk =
      distinct i k
        (sym ((bytes_beq_iff d.held (nonce i)).0 hi) ∙ (bytes_beq_iff d.held (nonce k)).0 hk)

  give :
      (i : ℕ) (o : Option ℕ) (d : Option Directory)
      → Represents nonce d o
      → holds d (nonce i) ≡ true
      → Simulates i unlocking o none outside
  give i none d r own = absurd (ground arith)
  give i (some k) d r own =
      let same : i ≡ k = same_owner d i k own r in
      (none, refl, λ es end h. subst (λ j. LockRun (some j) (gave i ∷ es) end) same (gives i h))

  at_own : (i : ℕ) (c : Client) (f : ℕ → Client) → at i c f i ≡ c
  at_own i c f = ground (arith, nat_beq_iff i i)

  rename_directory-simulates :
      (s : System) (i : ℕ) (c : Client) (o : Option ℕ)
      → s.client i ≡ c
      → IsExclusive nonce distinct s
      → Represents nonce s.directory o
      → let s' = rename_directory i c s in Simulates i c o s'.directory (s'.client i)
  rename_directory-simulates s i outside o e h r = stay i outside o _ (s.client i) r (λ es. refl)
  rename_directory-simulates s i (stat_passed m) o e h r =
      stay i (stat_passed m) o _ (s.client i) r (λ es. refl)
  rename_directory-simulates s i acquired o e h r = stay i acquired o _ (s.client i) r (λ es. refl)
  rename_directory-simulates s i unlocking o e h r =
      stay i unlocking o _ (s.client i) r (λ es. rw e refl)
  rename_directory-simulates s i (prepared d) o e h r =
      let s' = rename_directory i (prepared d) s in
      elim (Option-cases s.directory) [
        | inl free ↦
            let moved : s'.directory ≡ some d = ground arith in
            let got : s'.client i ≡ acquired = ground (arith, nat_beq_iff i i) in
            rw (moved, got)
              (take i o d (subst (λ (x : Option Directory). Represents nonce x o) free r)
                (sym (ap (is_own (nonce i)) e) ∙ h.own i))
        | inr (d', held) ↦
            let same : s'.directory ≡ s.directory = ground arith in
            let lost : s'.client i ≡ outside = ground (arith, nat_beq_iff i i) in
            rw (same, lost) (stay i (prepared d) o s.directory outside r (λ es. refl))
      ]

  unlock-simulates :
      (s : System) (i : ℕ) (c : Client) (o : Option ℕ)
      → s.client i ≡ c
      → IsExclusive nonce distinct s
      → Represents nonce s.directory o
      → let s' = unlock i c s in Simulates i c o s'.directory (s'.client i)
  unlock-simulates s i outside o e h r = stay i outside o _ (s.client i) r (λ es. refl)
  unlock-simulates s i (stat_passed m) o e h r =
      stay i (stat_passed m) o _ (s.client i) r (λ es. refl)
  unlock-simulates s i acquired o e h r = stay i acquired o _ (s.client i) r (λ es. refl)
  unlock-simulates s i (prepared d) o e h r =
      stay i (prepared d) o _ (s.client i) r (λ es. rw e refl)
  unlock-simulates s i unlocking o e h r =
      rw (at_own i outside s.client) (give i o s.directory r (h.held i ∙ ap claims e))

  -- Steps inside a call.
  stat-quiet :
      (i : ℕ) (d : Option Directory) (c : Client) (m : Bytes) (es : List Event)
      → says i c (stat d c m) es ≡ es
  stat-quiet i d c m es = ground arith

  prepare-quiet :
      (i : ℕ) (n : Bytes) (c : Client) (es : List Event) → says i c (prepare n c) es ≡ es
  prepare-quiet i n c es = ground arith

  fail-quiet : (i : ℕ) (c : Client) (es : List Event) → says i c (fail c) es ≡ es
  fail-quiet i c es = ground arith

  check-quiet : (i : ℕ) (b : Bool) (c : Client) (es : List Event) → says i c (check b c) es ≡ es
  check-quiet i b c es = ground arith

  step-simulates :
      (a : Action) (s : System) (o : Option ℕ)
      → IsExclusive nonce distinct s
      → Represents nonce s.directory o
      → let s' = step nonce a s in
        Simulates (actor a) (s.client (actor a)) o s'.directory (s'.client (actor a))
  unfolding step is_lock_held
  step-simulates (stats i m) s o h r =
      rw (at_own i (stat s.directory (s.client i) m) s.client)
        (stay i _ o _ _ r (stat-quiet i s.directory (s.client i) m))
  step-simulates (prepares i) s o h r =
      rw (at_own i (prepare (nonce i) (s.client i)) s.client)
        (stay i _ o _ _ r (prepare-quiet i (nonce i) (s.client i)))
  step-simulates (fails i) s o h r =
      rw (at_own i (fail (s.client i)) s.client) (stay i _ o _ _ r (fail-quiet i (s.client i)))
  step-simulates (checks i) s o h r =
      let own = holds s.directory (nonce i) in
      rw (at_own i (check own (s.client i)) s.client)
        (stay i _ o _ _ r (check-quiet i own (s.client i)))
  step-simulates (renames i) s o h r = rename_directory-simulates s i (s.client i) o refl h r
  step-simulates (unlocks i) s o h r = unlock-simulates s i (s.client i) o refl h r

  run-simulates :
      (actions : List Action) (s : System) (o : Option ℕ)
      → IsExclusive nonce distinct s
      → Represents nonce s.directory o
      → (end : Option ℕ) × Represents nonce (run nonce actions s).directory end
        × LockRun o (seen nonce actions s) end
  unfolding run seen
  run-simulates [] s o h r = (o, r, here o)
  run-simulates (a ∷ rest) s o h r =
      let (o', r', goes) = step-simulates a s o h r in
      let (end, r'', rest_run) =
        run-simulates rest (step nonce a s) o' (step-IsExclusive nonce distinct a s h) r' in
      (end, r'', goes _ end rest_run)

  -- If no two locks have the same nonce, then after any actions in any order, none of them a
  -- `BreakLock`, what the users have seen is a run of the lock with one owner: it starts free, a client
  -- gets it only when it is free, and only its owner gives it back; and the directory on disk is that of
  -- its owner at the end, or missing if it is free.
  pub run-LockRun :
      (actions : List Action)
      → (o : Option ℕ) × Represents nonce (run nonce actions unlocked).directory o
        × LockRun none (seen nonce actions unlocked) o
  run-LockRun actions =
      run-simulates actions unlocked none (record { held = λ i. refl; own = λ i. refl }) refl
