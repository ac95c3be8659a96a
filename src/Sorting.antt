-- ===== src/Sorting.antt =====
-- The package `sort`, on lists with a strict total order, and the fact that a sorted list of distinct
-- members is determined by them.
use juju_utils.Common.{
  ◌+◌, ◌≡◌, refl, true, false, ◌||◌, List, [], ◌∷◌, arith, length, Eq, Order, ◌==◌, if◌then◌else◌,
  ◌∙◌, ap₂, Bool-cases, inl, inr, All,
}
use juju_utils.GoMap.Keys.{elem, Distinct}

module _ {K : Type 0} ⦃q : Eq K⦄ ⦃o : Order K⦄ where
  unfoldable pub place : K → List K → List K
  place x [] = x ∷ []
  place x (y ∷ ys) = let rest = place x ys in if o.lt y x then y ∷ rest else x ∷ y ∷ ys

  unfoldable pub sort : List K → List K
  unfolding place
  sort [] = []
  sort (x ∷ xs) = place x (sort xs)

  -- Each string is below all that follow it.
  abbrev pub IsAscending : List K → Type 0
  IsAscending [] = Unit
  IsAscending (x ∷ xs) = All (λ y. o.lt x y ≡ true) xs × IsAscending xs

  elem-place : (j x : K) (ys : List K) → elem j (place x ys) ≡ ((x == j) || elem j ys)
  unfolding place elem
  elem-place j x [] = refl
  elem-place j x (y ∷ ys) = ground (arith, elem-place j x ys)

  pub elem-sort : (j : K) (xs : List K) → elem j (sort xs) ≡ elem j xs
  unfolding sort elem
  elem-sort j [] = refl
  elem-sort j (x ∷ xs) = rw (elem-place, elem-sort j xs)

  length-place : (x : K) (ys : List K) → length (place x ys) ≡ length ys + 1
  unfolding place
  length-place x [] = omega arith
  length-place x (y ∷ ys) = ground (arith, length-place x ys)

  pub length-sort : (xs : List K) → length (sort xs) ≡ length xs
  unfolding sort
  length-sort [] = refl
  length-sort (x ∷ xs) = omega (arith, length-place x (sort xs), length-sort xs)

  All-place :
      (z x : K) (ys : List K)
      → o.lt z x ≡ true
      → All (λ y. o.lt z y ≡ true) ys
      → All (λ y. o.lt z y ≡ true) (place x ys)
  unfolding place
  All-place z x [] h a = (h, tt)
  All-place z x (y ∷ ys) h a = elim (Bool-cases (o.lt y x)) [
    | inl below ↦ rw below (a.0, All-place z x ys h a.1)
    | inr above ↦ rw above (h, a)
  ]

  All-below :
      (x y : K) (ys : List K)
      → o.lt x y ≡ true
      → All (λ z. o.lt y z ≡ true) ys
      → All (λ z. o.lt x z ≡ true) ys
  All-below x y [] h a = tt
  All-below x y (z ∷ ys) h a = (o.lt_trans x y z h a.0, All-below x y ys h a.1)

  place-IsAscending :
      (x : K) (ys : List K) → elem x ys ≡ false → IsAscending ys → IsAscending (place x ys)
  unfolding place elem
  place-IsAscending x [] h a = (tt, tt)
  place-IsAscending x (y ∷ ys) h a = elim (Bool-cases (o.lt y x)) [
    | inl below ↦ rw below (All-place y x ys below a.0, place-IsAscending x ys (ground arith) a.1)
    | inr other ↦
        let above : o.lt x y ≡ true = ground (arith, q.beq_iff y x, o.lt_total y x) in
        rw other ((above, All-below x y ys above a.0), a)
  ]

  pub sort-IsAscending : (xs : List K) → Distinct xs → IsAscending (sort xs)
  unfolding sort
  sort-IsAscending [] d = tt
  sort-IsAscending (x ∷ xs) d =
      place-IsAscending x (sort xs) (elem-sort x xs ∙ d.0) (sort-IsAscending xs d.1)

  below-elem :
      (x y : K) (ys : List K) → All (λ z. o.lt x z ≡ true) ys → elem y ys ≡ true → o.lt x y ≡ true
  unfolding elem
  below-elem x y [] a h = ground arith
  below-elem x y (z ∷ ys) a h = elim (Bool-cases (z == y)) [
    | inl same ↦ rw (← (q.beq_iff z y).0 same) a.0
    | inr other ↦ below-elem x y ys a.1 (ground arith)
  ]

  not-elem : (x : K) (ys : List K) → All (λ z. o.lt x z ≡ true) ys → elem x ys ≡ false
  not-elem x ys a = elim (Bool-cases (elem x ys)) [
    | inl h ↦ ground (arith, below-elem x x ys a h, o.lt_irrefl x)
    | inr h ↦ h
  ]

  heads :
      (x y : K) (xs ys : List K)
      → IsAscending (x ∷ xs)
      → IsAscending (y ∷ ys)
      → ((j : K) → elem j (x ∷ xs) ≡ elem j (y ∷ ys))
      → x ≡ y
  unfolding elem
  heads x y xs ys a b h = elim (Bool-cases (x == y)) [
    | inl same ↦ (q.beq_iff x y).0 same
    | inr other ↦ ground (
      arith,
      h x,
      h y,
      q.beq_iff x x,
      q.beq_iff y y,
      q.beq_iff x y,
      q.beq_iff y x,
      below-elem x y xs a.0,
      below-elem y x ys b.0,
      o.lt_trans x y x,
      o.lt_irrefl x,
    )
  ]

  tails :
      (x y : K) (xs ys : List K)
      → x ≡ y
      → IsAscending (x ∷ xs)
      → IsAscending (y ∷ ys)
      → ((j : K) → elem j (x ∷ xs) ≡ elem j (y ∷ ys))
      → (j : K) → elem j xs ≡ elem j ys
  unfolding elem
  tails x y xs ys e a b h j =
      ground (arith, h j, not-elem x xs a.0, not-elem y ys b.0, q.beq_iff x j, q.beq_iff y j)

  -- Two ascending lists with the same members are the same list.
  pub ascending_ext :
      (xs ys : List K)
      → IsAscending xs
      → IsAscending ys
      → ((j : K) → elem j xs ≡ elem j ys)
      → xs ≡ ys
  unfolding elem
  ascending_ext [] [] a b h = refl
  ascending_ext [] (y ∷ ys) a b h = ground (arith, h y, q.beq_iff y y)
  ascending_ext (x ∷ xs) [] a b h = ground (arith, h x, q.beq_iff x x)
  ascending_ext (x ∷ xs) (y ∷ ys) a b h =
      let e : x ≡ y = heads x y xs ys a b h in
      ap₂ ◌∷◌ e (ascending_ext xs ys a.1 b.1 (tails x y xs ys e a b h))

  module _ {κ} (P : K → Type κ) where
    place-All : (x : K) (ys : List K) → P x → All P ys → All P (place x ys)
    unfolding place
    place-All x [] px a = (px, tt)
    place-All x (y ∷ ys) px a = elim (Bool-cases (o.lt y x)) [
      | inl below ↦ rw below (a.0, place-All x ys px a.1)
      | inr above ↦ rw above (px, a)
    ]

    pub sort-All : (xs : List K) → All P xs → All P (sort xs)
    unfolding sort
    sort-All [] a = tt
    sort-All (x ∷ xs) a = place-All x (sort xs) a.0 (sort-All xs a.1)
