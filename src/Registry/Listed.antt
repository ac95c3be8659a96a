-- ===== src/Registry/Listed.antt =====
-- What `List` shows.
use juju_utils.Common.{
  ◌⊎◌, ◌≡◌, refl, arith, sym, ap, ◌∙◌, subst, Bool, true, false, ◌&&◌, ◌||◌, Option, none, some,
  List, [], ◌∷◌, ◌==◌, is_some, if◌then◌else◌, Bool-cases, inl, inr, All, map,
}
use juju_utils.Common.Bytes.{Bytes, bytes_eq, bytes_order}
use juju_utils.Common.Int.{ℤ, int_eq, int_order}
use juju_utils.Common.Results.{is_ok}
use juju_utils.GoMap.{Map, lookup, insert, lookup-insert, IsMap, insert-IsMap}
use juju_utils.GoMap.Keys.{keys, elem, elem-keys, keys-Distinct}
use juju_utils.Sorting.{sort, IsAscending, elem-sort, sort-IsAscending}
use juju_utils.Registry.{
  Versions, Registry, Description, new_registry, names, add_new, add_version, registered, register,
  found, version_of, versions_of, get, description_from_versions, list,
}
use juju_utils.Registry.Runs.{register_all}

-- Whether a name is listed with a version.
unfoldable pub lists : Bytes → ℤ → List Description → Bool
lists name version [] = false
lists name version (d ∷ ds) = ((d.name == name) && elem version d.versions) || lists name version ds

module _ {T : Type 0} where
  -- One entry for each name, and for each version of a name.
  abbrev pub AreMaps : Map Bytes (Versions T) → Type 0
  AreMaps m =
      IsMap m
      × ((name : Bytes) (versions : Versions T) → lookup name m ≡ some versions → IsMap versions)

  insert-AreMaps :
      (n : Bytes) (versions : Versions T) (m : Map Bytes (Versions T))
      → AreMaps m
      → IsMap versions
      → AreMaps (insert n versions m)
  insert-AreMaps n versions m h inner = (
    insert-IsMap n versions m h.0,
    λ name vs e. kept name vs (Bool-cases (n == name)) (sym (lookup-insert n name versions m) ∙ e),
  )
    where
      kept :
          (name : Bytes) (vs : Versions T)
          → ((n == name) ≡ true) ⊎ ((n == name) ≡ false)
          → (if n == name then some versions else lookup name m) ≡ some vs
          → IsMap vs
      kept name vs (inl same) e = subst (λ (x : Versions T). IsMap x) (ground arith) inner
      kept name vs (inr other) e = h.1 name vs (ground arith)

  registered-AreMaps :
      (n : Bytes) (v : ℤ) (obj : T) (m : Map Bytes (Versions T)) (here : Option (Versions T))
      → AreMaps m
      → lookup n m ≡ here
      → AreMaps (names (registered n v m (add_version v obj here)).0)
  registered-AreMaps n v obj m none h e =
      insert-AreMaps n ((v, obj) ∷ []) m h (unfold lookup in refl, tt)
  registered-AreMaps n v obj m (some versions) h e = registered_again (lookup v versions)
    where
      registered_again :
          (there : Option T) → AreMaps (names (registered n v m (add_new v obj versions there)).0)
      registered_again none =
          insert-AreMaps n (insert v obj versions) m h
            (insert-IsMap v obj versions (h.1 n versions e))
      registered_again (some o) = h

  register_all-AreMaps :
      (calls : List (Bytes × ℤ × Option T)) (r : Registry T)
      → AreMaps (names r)
      → AreMaps (names (register_all calls r))
  unfolding register_all register
  register_all-AreMaps [] r h = h
  register_all-AreMaps ((n, v, none) ∷ calls) r h = register_all-AreMaps calls r h
  register_all-AreMaps ((n, v, some obj) ∷ calls) r h =
      register_all-AreMaps calls _
        (registered-AreMaps n v obj (names r) (lookup n (names r)) h refl)

lists-map :
    (f : Bytes → List ℤ) (ks : List Bytes) (name : Bytes) (version : ℤ)
    → lists name version (map (λ k. record { name = k; versions = f k }) ks)
      ≡ (elem name ks && elem version (f name))
unfolding lists elem
lists-map f [] name version = refl
lists-map f (k ∷ ks) name version = elim (Bool-cases (k == name)) [
  | inl same ↦
      let e : f k ≡ f name = ap f ((bytes_eq.beq_iff k name).0 same) in
      rw (same, lists-map f ks name version, e) (ground arith)
  | inr other ↦ rw (other, lists-map f ks name version) refl
]

abbrev describe : (Bytes → List ℤ) → Bytes → Description
describe f k = record { name = k; versions = f k }

map-name : (f : Bytes → List ℤ) (ks : List Bytes) → map (λ d. d.name) (map (describe f) ks) ≡ ks
map-name f [] = refl
map-name f (k ∷ ks) = ap (λ (l : List Bytes). k ∷ l) (map-name f ks)

All-describe :
    (f : Bytes → List ℤ) (ks : List Bytes)
    → ((k : Bytes) → IsAscending (f k))
    → All (λ d. IsAscending d.versions) (map (describe f) ks)
All-describe f [] h = tt
All-describe f (k ∷ ks) h = (h k, All-describe f ks h)

module _ {T : Type 0} where
  versions_listed :
      (version : ℤ) (versions : Option (Versions T))
      → (is_some versions && elem version (sort (keys (versions_of versions))))
        ≡ is_some (version_of version versions)
  versions_listed version none = refl
  versions_listed version (some versions) =
      elem-sort version (keys versions) ∙ elem-keys version versions

  versions_ascend :
      (m : Map Bytes (Versions T)) (name : Bytes) (here : Option (Versions T))
      → AreMaps m
      → lookup name m ≡ here
      → IsAscending (sort (keys (versions_of here)))
  versions_ascend m name none h e = unfold sort keys in tt
  versions_ascend m name (some versions) h e =
      sort-IsAscending (keys versions) (keys-Distinct versions (h.1 name versions e))

  is_ok-found :
      (name : Bytes) (version : ℤ) (o : Option T) → is_ok (found name version o) ≡ is_some o
  is_ok-found name version none = refl
  is_ok-found name version (some o) = refl

  empty : AreMaps {T = T} []
  unfolding lookup
  empty = (tt, λ name vs e. absurd (ground arith))

  -- After any calls of `Register`, `List` shows a name with a version exactly if `Get` finds an object
  -- there; the names are in ascending order, with none twice, and so are the versions of each name.
  pub list-register_all :
      (calls : List (Bytes × ℤ × Option T))
      → let r = register_all calls new_registry in
        ((name : Bytes) (version : ℤ) → lists name version (list r) ≡ is_ok (get name version r))
        × IsAscending (map (λ d. d.name) (list r))
        × All (λ d. IsAscending d.versions) (list r)
  unfolding list get description_from_versions
  list-register_all calls =
      let r : Registry T = register_all calls new_registry in
      let m = names r in
      let h : AreMaps m = register_all-AreMaps calls new_registry empty in
      let f : Bytes → List ℤ = (λ name. sort (keys (versions_of (lookup name m)))) in
      (
        (λ name version.
            lists-map f (sort (keys m)) name version
            ∙ ap (λ (b : Bool). b && elem version (f name))
                (elem-sort name (keys m) ∙ elem-keys name m)
            ∙ versions_listed version (lookup name m)
            ∙ sym (is_ok-found name version (version_of version (lookup name m)))),
        subst IsAscending (sym (map-name f (sort (keys m))))
            (sort-IsAscending (keys m) (keys-Distinct m h.0)),
        All-describe f (sort (keys m)) (λ k. versions_ascend m k (lookup k m) h refl),
      )
