-- ===== src/Set/Sizes.antt =====
-- `Size` against the members: what an addition, a removal and the set operations do to it.
use juju_utils.Common.{
  ℕ, ◌+◌, ◌≡◌, refl, Bool, true, ◌&&◌, not, List, [], ◌∷◌, arith, length, Eq, if◌then◌else◌,
}
use juju_utils.GoMap.{Map, lookup, insert, length-insert}
use juju_utils.GoMap.Keys.{keys, elem, elem-keys, Distinct, keys-Distinct, length-keys}
use juju_utils.Set.{
  SetOf, entries, IsWellFormed, contains, copy_if, union, intersection, difference, size,
}
use juju_utils.Set.Algebra.{has, has-insert, has-copy_if}

module _ {ℓ} {K : Type ℓ} where
  -- How many of the listed keys pass a test.
  pub count_if : (K → Bool) → List K → ℕ
  count_if p [] = 0
  count_if p (k ∷ ks) = if p k then count_if p ks + 1 else count_if p ks

  count_if-true : (ks : List K) → count_if (λ _. true) ks ≡ length ks
  unfolding count_if
  count_if-true [] = refl
  count_if-true (k ∷ ks) = omega (arith, count_if-true ks)

  count_if-not :
      (p : K → Bool) (ks : List K) → count_if p ks + count_if (λ k. not (p k)) ks ≡ length ks
  unfolding count_if
  count_if-not p [] = omega arith
  count_if-not p (k ∷ ks) = ground (arith, count_if-not p ks)

module _ {ℓ} {K : Type ℓ} ⦃e : Eq K⦄ where
  count_if-ext :
      (p q : K → Bool) (ks : List K)
      → ((k : K) → elem k ks ≡ true → p k ≡ q k)
      → count_if p ks ≡ count_if q ks
  unfolding count_if elem
  count_if-ext p q [] h = refl
  count_if-ext p q (k ∷ ks) h =
      ground (
        arith,
        count_if-ext p q ks (λ j m. h j (ground arith)),
        h k (ground (arith, e.beq_iff k k)),
      )

  -- The copying loop grows its result by the keys that it lets through and that are new.
  length-copy_if :
      (keep : K → Bool) (ks : List K) (m : Map K Bool)
      → Distinct ks
      → length (copy_if keep ks m) ≡ length m + count_if (λ k. keep k && not (has k m)) ks
  unfolding copy_if count_if elem
  length-copy_if keep [] m d = omega arith
  length-copy_if keep (k ∷ ks) m d =
      let m' : Map K Bool = if keep k then insert k true m else m in
      ground (
        arith,
        length-copy_if keep ks m' d.1,
        length-insert k true m,
        count_if-ext (λ j. keep j && not (has j m')) (λ j. keep j && not (has j m)) ks
            (λ j h. ground (arith, has-insert k j m, e.beq_iff k j, d.0)),
      )

  size-kept :
      (keep : K → Bool) (s : SetOf K)
      → IsWellFormed s
      → length (copy_if keep (keys (entries s)) []) ≡ count_if keep (keys (entries s))
  unfolding lookup
  size-kept keep s w = omega (
    arith,
    length-copy_if keep (keys (entries s)) [] (keys-Distinct (entries s) w),
    count_if-ext (λ k. keep k && true) keep (keys (entries s)) (λ k _. ground arith),
  )

  -- Copying a second set into a copy of the first adds what only the second has.
  size-copied_over :
      (s t : SetOf K)
      → IsWellFormed s
      → IsWellFormed t
      → length (copy_if (λ _. true) (keys (entries t)) (copy_if (λ _. true) (keys (entries s)) []))
        ≡ length (entries s) + count_if (λ k. not (contains k s)) (keys (entries t))
  unfolding contains lookup
  size-copied_over s t ws wt =
      let m : Map K Bool = copy_if (λ _. true) (keys (entries s)) [] in
      omega (
        arith,
        length-copy_if (λ _. true) (keys (entries t)) m (keys-Distinct (entries t) wt),
        size-kept (λ _. true) s ws,
        count_if-true (keys (entries s)),
        length-keys (entries s),
        count_if-ext (λ k. true && not (has k m)) (λ k. not (contains k s)) (keys (entries t))
            (λ k _.
              ground
                (arith, has-copy_if (λ _. true) (keys (entries s)) [] k, elem-keys k (entries s))),
      )

  -- A set splits into what it shares with another and what it does not; a union adds to the first
  -- set what only the second has.
  pub size_partition :
      (s t : SetOf K)
      → IsWellFormed s
      → IsWellFormed t
      → (size (intersection s t) + size (difference s t) ≡ size s)
        × (size (union s t) ≡ size s + size (difference t s))
  unfolding size intersection difference union
  size_partition s t ws wt = (
    omega (
      arith,
      size-kept (λ k. contains k t) s ws,
      size-kept (λ k. not (contains k t)) s ws,
      count_if-not (λ k. contains k t) (keys (entries s)),
      length-keys (entries s),
    ),
    omega (arith, size-copied_over s t ws wt, size-kept (λ k. not (contains k s)) t wt),
  )
