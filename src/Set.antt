-- ===== src/Set.antt =====
-- The operations that set/strings.go and set/tags.go both spell out, over any key type.
-- `Option` is the Go map: `none` is the nil map, which reads as empty and cannot be written.
pub mod Algebra
pub mod Sizes
pub mod Strings
pub mod Tags
use juju_utils.Common.{
  ℕ, ◌≡◌, refl, Bool, true, false, ◌&&◌, ◌||◌, not, Option, none, some, List, [], ◌∷◌, arith,
  length, Eq, ◌==◌, if◌then◌else◌, is_some, nat_beq,
}
use juju_utils.GoMap
use juju_utils.GoMap.{Map, lookup, insert, delete, IsMap}
use juju_utils.GoMap.Keys.{keys, elem}

abbrev pub SetOf {ℓ} : Type ℓ → Type ℓ
SetOf K = Option (Map K Bool)

-- What `range` and `len` see: a nil map is empty.
abbrev pub entries {ℓ} : {K : Type ℓ} → SetOf K → Map K Bool
entries none = []
entries (some m) = m

-- `make(Strings)`.
abbrev pub make {ℓ} : {K : Type ℓ} → SetOf K
make = some []

module _ {ℓ} {K : Type ℓ} ⦃e : Eq K⦄ where
  abbrev pub IsWellFormed : SetOf K → Type 0
  IsWellFormed s = IsMap (entries s)

  -- `Contains`.
  unfoldable pub contains : K → SetOf K → Bool
  contains k s = is_some (lookup k (entries s))

  -- `Add`; the outer `none` is its panic on an uninitialised set.
  unfoldable pub add : K → SetOf K → Option (SetOf K)
  add k none = none
  add k (some m) = some (some (insert k true m))

  -- `Remove`; `delete` on a nil map does nothing.
  unfoldable pub remove : K → SetOf K → SetOf K
  remove k none = none
  remove k (some m) = some (delete k m)

  -- The loop of `NewStrings` and `NewTags`.
  pub add_all : List K → SetOf K → Option (SetOf K)
  add_all [] s = some s
  add_all (k ∷ ks) s = elim (add k s) [ none ↦ none | some s' ↦ add_all ks s' ]

  unfoldable pub new : List K → Option (SetOf K)
  unfolding add_all
  new initial = add_all initial make

  -- `for value := range s { result[value] = true }`, over the keys that `keep` lets through.
  pub copy_if : (K → Bool) → List K → Map K Bool → Map K Bool
  copy_if keep [] result = result
  copy_if keep (k ∷ ks) result = copy_if keep ks (if keep k then insert k true result else result)

  unfoldable pub union : SetOf K → SetOf K → SetOf K
  unfolding copy_if
  union s other =
      some (copy_if (λ _. true) (keys (entries other)) (copy_if (λ _. true) (keys (entries s)) []))

  unfoldable pub intersection : SetOf K → SetOf K → SetOf K
  unfolding copy_if
  intersection s other = some (copy_if (λ k. contains k other) (keys (entries s)) [])

  unfoldable pub difference : SetOf K → SetOf K → SetOf K
  unfolding copy_if
  difference s other = some (copy_if (λ k. not (contains k other)) (keys (entries s)) [])

module _ {ℓ} {K : Type ℓ} where
  unfoldable pub size : SetOf K → ℕ
  size s = length (entries s)

  unfoldable pub is_empty : SetOf K → Bool
  is_empty s = nat_beq (length (entries s)) 0

  -- `Values`, in the order of one `range`.
  unfoldable pub values : SetOf K → List K
  values s = keys (entries s)
