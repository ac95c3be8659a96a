-- ===== src/UniqueDirectory/FirstFree.antt =====
-- `UniqueDirectory` gives the first directory that is free.
use juju_utils.Common.{
  ℕ, zero, suc, ◌+◌, ◌≤◌, ◌<◌, ◌≡◌, ◌≢◌, ◌⊎◌, inl, inr, refl, arith, sym, subst, Option, none, some,
}
use native.Mathlib.Decide.{ℕ_discrete}
use juju_utils.Common.Bytes.{Bytes}
use juju_utils.Common.Results.{Result, ok}
use juju_utils.UniqueDirectory.{
  Stat, exists, missing, stat_error, candidate, or_next, or_loop, search, unique_directory,
}

module _ {E : Type 0} where
  -- What the status of a directory gives, if there is no next round.
  abbrev pub decided : Bytes → Stat E → Option (Result E Bytes)
  decided dir s = or_next dir s none

  module _ (stat : Bytes → Stat E) (decimal : ℕ → Bytes) (path name : Bytes) where
    abbrev at : ℕ → Bytes
    at i = candidate decimal path name i

    -- The result stems from the first candidate from `i` on that does not exist.
    abbrev pub IsFirst : ℕ → Option (Result E Bytes) → Type 0
    IsFirst i r =
        (j : ℕ) × (i ≤ j)
        × ((k : ℕ) → i ≤ k → k < j → stat (candidate decimal path name k) ≡ exists)
        × (stat (candidate decimal path name j) ≢ exists)
        × (r ≡ decided (candidate decimal path name j) (stat (candidate decimal path name j)))

    first_here :
        (i : ℕ) (s : Stat E) (next : Option (Result E Bytes))
        → stat (at i) ≡ s
        → s ≢ exists
        → or_next (at i) s next ≡ decided (at i) (stat (at i))
    first_here i exists next e h = absurd (h refl)
    first_here i missing next e h = ground arith
    first_here i (stat_error x) next e h = ground arith

    Stat-cases : (s : Stat E) → (s ≡ exists) ⊎ (s ≢ exists)
    Stat-cases exists = inl refl
    Stat-cases missing = inr (λ e. absurd (ground arith))
    Stat-cases (stat_error x) = inr (λ e. absurd (ground arith))

    later :
        (i : ℕ) (r : Option (Result E Bytes))
        → stat (at i) ≡ exists
        → IsFirst (suc i) r
        → IsFirst i r
    later i r here (j, le, before, free, e) = (
      j,
      omega arith,
      (λ k lo hi. elim (ℕ_discrete i k) [
        | yes same ↦ subst (λ (m : ℕ). stat (candidate decimal path name m) ≡ exists) same here
        | no other ↦ before k (omega arith) hi
      ]),
      free,
      e,
    )

    search-IsFirst :
        (fuel i n : ℕ)
        → i ≤ n
        → n < i + fuel
        → stat (at n) ≢ exists
        → IsFirst i (search stat decimal path name fuel i)
    unfolding search
    search-IsFirst zero i n lo hi free = absurd (omega arith)
    search-IsFirst (suc fuel) i n lo hi free = elim (Stat-cases (stat (at i))) [
      | inl here ↦ rw here (
          later i _ here
            (search-IsFirst fuel (suc i) n (below i n here free lo) (omega arith) free))
      | inr other ↦ (
        i,
        omega arith,
        (λ k lo' hi'. absurd (omega arith)),
        other,
        first_here i (stat (at i)) (search stat decimal path name fuel (suc i)) refl other,
      )
    ]
      where
        below : (i n : ℕ) → stat (at i) ≡ exists → stat (at n) ≢ exists → i ≤ n → suc i ≤ n
        below i n here free lo = elim (ℕ_discrete i n) [
          | yes same ↦
              absurd
                (free (subst (λ (m : ℕ). stat (candidate decimal path name m) ≡ exists) same here))
          | no other ↦ omega arith
        ]

    or_loop-cases :
        (s : Stat E) (loop : Option (Result E Bytes))
        → stat (at 0) ≡ s
        → ((stat (at 0) ≡ missing) × (or_loop (at 0) s loop ≡ some (ok (at 0))))
          ⊎ ((stat (at 0) ≢ missing) × (or_loop (at 0) s loop ≡ loop))
    or_loop-cases exists loop e = inr ((λ m. absurd (ground arith)), refl)
    or_loop-cases missing loop e = inl (e, refl)
    or_loop-cases (stat_error x) loop e = inr ((λ m. absurd (ground arith)), refl)

    -- If one of the names path/name.1 to path/name.n does not exist, n rounds of the loop are enough for
    -- `UniqueDirectory`. It gives path/name if that does not exist, and otherwise what the first of
    -- the others gives that does not exist: its name, or the error of `os.Stat`.
    pub unique_directory_lem :
        (n rounds : ℕ)
        → 1 ≤ n
        → n ≤ rounds
        → stat (candidate decimal path name n) ≢ exists
        → let r = unique_directory stat decimal path name rounds in
          let first = candidate decimal path name 0 in
          ((stat first ≡ missing) × (r ≡ some (ok first))) ⊎ ((stat first ≢ missing) × IsFirst 1 r)
    unfolding unique_directory
    unique_directory_lem n rounds positive enough free =
        elim (or_loop-cases (stat (at 0)) (search stat decimal path name rounds 1) refl) [
          | inl (gone, e) ↦ inl (gone, e)
          | inr (there, e) ↦ inr (
            there,
            subst (IsFirst 1) (sym e) (search-IsFirst rounds 1 n positive (omega arith) free),
          )
        ]
