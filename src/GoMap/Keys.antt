-- ===== src/GoMap/Keys.antt =====
-- The keys that `range m` visits.
use juju_utils.Common.{
  suc, ◌≡◌, refl, Bool, false, List, [], ◌∷◌, ◌||◌, arith, length, Eq, ◌==◌, is_some, ap,
}
use juju_utils.GoMap.{Map, lookup, IsMap}

module _ {ℓ} {K : Type ℓ} ⦃e : Eq K⦄ where
  -- Whether a list holds a key.
  unfoldable pub elem : K → List K → Bool
  elem k [] = false
  elem k (j ∷ ks) = (j == k) || elem k ks

  -- No key stands in the list twice.
  abbrev pub Distinct : List K → Type 0
  Distinct [] = Unit
  Distinct (k ∷ ks) = (elem k ks ≡ false) × Distinct ks

module _ {ℓ κ} {K : Type ℓ} {V : Type κ} where
  unfoldable pub keys : Map K V → List K
  keys [] = []
  keys ((k, v) ∷ m) = k ∷ keys m

  pub length-keys : (m : Map K V) → length (keys m) ≡ length m
  unfolding keys
  length-keys [] = refl
  length-keys ((k, v) ∷ m) = ap suc (length-keys m)

module _ {ℓ κ} {K : Type ℓ} {V : Type κ} ⦃e : Eq K⦄ where
  pub elem-keys : (k : K) (m : Map K V) → elem k (keys m) ≡ is_some (lookup k m)
  unfolding elem keys lookup
  elem-keys k [] = refl
  elem-keys k ((j, v) ∷ m) = ground (arith, elem-keys k m)

  pub keys-Distinct : (m : Map K V) → IsMap m → Distinct (keys m)
  unfolding keys
  keys-Distinct [] h = tt
  keys-Distinct ((k, v) ∷ m) h = (rw (elem-keys k m, h.0), keys-Distinct m h.1)
