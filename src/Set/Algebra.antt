-- ===== src/Set/Algebra.antt =====
-- Membership after each operation of the sets.
use juju_utils.Common.{
  ◌≡◌, refl, Bool, true, ◌&&◌, ◌||◌, not, none, some, List, [], ◌∷◌, arith, Eq, ◌==◌, if◌then◌else◌,
  is_some, subst, some-injective, Bool-cases, inl, inr,
}
use juju_utils.GoMap.{
  Map, lookup, insert, IsMap, lookup-insert, lookup-delete, insert-IsMap, delete-IsMap,
}
use juju_utils.GoMap.Keys.{keys, elem, elem-keys}
use juju_utils.Set.{
  SetOf, entries, IsWellFormed, contains, add, remove, add_all, new, copy_if, union, intersection,
  difference,
}

module _ {ℓ} {K : Type ℓ} ⦃e : Eq K⦄ where
  abbrev pub has : K → Map K Bool → Bool
  has k m = is_some (lookup k m)

  pub has-insert : (k j : K) (m : Map K Bool) → has j (insert k true m) ≡ ((k == j) || has j m)
  has-insert k j m = rw lookup-insert (ground arith)

  pub copy_if-IsMap :
      (keep : K → Bool) (ks : List K) (m : Map K Bool) → IsMap m → IsMap (copy_if keep ks m)
  unfolding copy_if
  copy_if-IsMap keep [] m h = h
  copy_if-IsMap keep (k ∷ ks) m h = elim (Bool-cases (keep k)) [
    | inl kept ↦ rw kept (copy_if-IsMap keep ks _ (insert-IsMap k true m h))
    | inr left ↦ rw left (copy_if-IsMap keep ks m h)
  ]

  pub has-copy_if :
      (keep : K → Bool) (ks : List K) (m : Map K Bool) (j : K)
      → has j (copy_if keep ks m) ≡ (has j m || (elem j ks && keep j))
  unfolding copy_if elem
  has-copy_if keep [] m j = ground arith
  has-copy_if keep (k ∷ ks) m j = ground (
    arith,
    has-copy_if keep ks (if keep k then insert k true m else m) j,
    has-insert k j m,
    e.beq_iff k j,
  )

  -- An added key is a member, and no other membership changes.
  pub contains-add :
      (k j : K) (s s' : SetOf K) → add k s ≡ some s' → contains j s' ≡ ((k == j) || contains j s)
  unfolding add contains
  contains-add k j none s' h = ground arith
  contains-add k j (some m) s' h = ground (arith, has-insert k j m)

  pub add-IsWellFormed :
      (k : K) (s s' : SetOf K) → IsWellFormed s → add k s ≡ some s' → IsWellFormed s'
  unfolding add
  add-IsWellFormed k none s' w h = ground arith
  add-IsWellFormed k (some m) s' w h =
      subst (λ z. IsWellFormed z) (some-injective _ _ h) (insert-IsMap k true m w)

  pub contains-remove :
      (k j : K) (s : SetOf K)
      → IsWellFormed s
      → contains j (remove k s) ≡ (not (k == j) && contains j s)
  unfolding remove contains
  contains-remove k j none w = unfold lookup in ground arith
  contains-remove k j (some m) w = rw (lookup-delete k j m w) (ground arith)

  pub remove-IsWellFormed : (k : K) (s : SetOf K) → IsWellFormed s → IsWellFormed (remove k s)
  unfolding remove
  remove-IsWellFormed k none w = tt
  remove-IsWellFormed k (some m) w = delete-IsMap k m w

  -- The loop of the constructors ends with no panic, and adds the listed keys.
  pub add_all_lem :
      (ks : List K) (m : Map K Bool)
      → IsMap m
      → (n : Map K Bool) × (add_all ks (some m) ≡ some (some n))
        × IsMap n
        × ((j : K) → has j n ≡ (has j m || elem j ks))
  unfolding add_all add elem
  add_all_lem [] m w = (m, refl, w, λ j. ground arith)
  add_all_lem (k ∷ ks) m w =
      let (n, run, wn, h) = add_all_lem ks (insert k true m) (insert-IsMap k true m w) in
      (n, run, wn, λ j. ground (arith, h j, has-insert k j m))

  -- `NewStrings(initial...)` does not panic, and its members are the listed values.
  pub contains-new :
      (initial : List K)
      → (s : SetOf K) × (new initial ≡ some s)
        × IsWellFormed s
        × ((j : K) → contains j s ≡ elem j initial)
  unfolding new contains
  contains-new initial =
      let (n, run, wn, h) = add_all_lem initial [] tt in
      (some n, run, wn, λ j. unfold lookup in h j)

  union-IsWellFormed : (s t : SetOf K) → IsWellFormed (union s t)
  unfolding union
  union-IsWellFormed s t =
      copy_if-IsMap (λ _. true) (keys (entries t)) _
        (copy_if-IsMap (λ _. true) (keys (entries s)) [] tt)

  intersection-IsWellFormed : (s t : SetOf K) → IsWellFormed (intersection s t)
  unfolding intersection
  intersection-IsWellFormed s t = copy_if-IsMap (λ k. contains k t) (keys (entries s)) [] tt

  difference-IsWellFormed : (s t : SetOf K) → IsWellFormed (difference s t)
  unfolding difference
  difference-IsWellFormed s t = copy_if-IsMap (λ k. not (contains k t)) (keys (entries s)) [] tt

  contains-union : (s t : SetOf K) (j : K) → contains j (union s t) ≡ (contains j s || contains j t)
  unfolding union contains lookup
  contains-union s t j = ground (
    arith,
    has-copy_if (λ _. true) (keys (entries t)) (copy_if (λ _. true) (keys (entries s)) []) j,
    has-copy_if (λ _. true) (keys (entries s)) [] j,
    elem-keys j (entries s),
    elem-keys j (entries t),
  )

  contains-intersection :
      (s t : SetOf K) (j : K) → contains j (intersection s t) ≡ (contains j s && contains j t)
  unfolding intersection contains lookup
  contains-intersection s t j =
      ground
        (arith, has-copy_if (λ k. contains k t) (keys (entries s)) [] j, elem-keys j (entries s))

  contains-difference :
      (s t : SetOf K) (j : K) → contains j (difference s t) ≡ (contains j s && not (contains j t))
  unfolding difference contains lookup
  contains-difference s t j = ground (
    arith,
    has-copy_if (λ k. not (contains k t)) (keys (entries s)) [] j,
    elem-keys j (entries s),
  )

  -- `Union`, `Intersection` and `Difference` are the operations on members that their names say, for
  -- nil sets too.
  pub set_operations :
      (s t : SetOf K) (j : K)
      → (contains j (union s t) ≡ (contains j s || contains j t))
        × (contains j (intersection s t) ≡ (contains j s && contains j t))
        × (contains j (difference s t) ≡ (contains j s && not (contains j t)))
  set_operations s t j =
      (contains-union s t j, contains-intersection s t j, contains-difference s t j)

  -- From a well-formed set: after an `Add` that does not panic the value is a member, after `Remove`
  -- it is not, no other membership changes, and both sets are well formed.
  pub add-remove :
      (k j : K) (s s' : SetOf K)
      → IsWellFormed s
      → add k s ≡ some s'
      → (contains j s' ≡ ((k == j) || contains j s))
        × (contains j (remove k s) ≡ (not (k == j) && contains j s))
        × IsWellFormed s'
        × IsWellFormed (remove k s)
  add-remove k j s s' w h = (
    contains-add k j s s' h,
    contains-remove k j s w,
    add-IsWellFormed k s s' w h,
    remove-IsWellFormed k s w,
  )
