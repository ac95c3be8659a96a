-- ===== src/Registry/Runs.antt =====
-- A registry keeps what was registered first.
use juju_utils.Common.{
  ◌≡◌, refl, arith, sym, ap, ◌∙◌, true, ◌&&◌, Option, none, some, List, [], ◌∷◌, ◌==◌,
  if◌then◌else◌, Bool-cases, inl, inr,
}
use juju_utils.Common.Bytes.{Bytes, bytes_eq, bytes_order}
use juju_utils.Common.Int.{ℤ, int_eq, int_order}
use juju_utils.GoMap.{Map, lookup, insert, lookup-insert}
use juju_utils.Registry.{
  Versions, Registry, new_registry, names, add_new, add_version, registered, register, found,
  version_of, get,
}

-- The abstract registry: a function from names and versions to objects.
abbrev pub Objects : Type 0 → Type 0
Objects T = Bytes → ℤ → Option T

module _ {T : Type 0} where
  -- Calls of `Register`, one after the other.
  unfoldable pub register_all : List (Bytes × ℤ × Option T) → Registry T → Registry T
  register_all [] r = r
  register_all ((name, version, obj) ∷ calls) r = register_all calls (register name version obj r).0

  -- The first object that stands with a name and a version.
  abbrev pub or_first : Option T → Option T → Option T
  or_first (some a) b = some a
  or_first none b = b

  unfoldable pub first_registered : List (Bytes × ℤ × Option T) → Objects T
  first_registered [] name version = none
  first_registered ((n, v, obj) ∷ calls) name version =
      or_first (if (n == name) && (v == version) then obj else none)
        (first_registered calls name version)

  -- The object in a map of maps.
  abbrev pub object : Map Bytes (Versions T) → Objects T
  object m name version = version_of version (lookup name m)

  or_none : (a : Option T) → a ≡ or_first a none
  or_none none = refl
  or_none (some a) = refl

  object-insert :
      (n : Bytes) (v : ℤ) (obj : T) (m : Map Bytes (Versions T)) (versions : Versions T)
      (name : Bytes) (version : ℤ)
      → object (insert n (insert v obj versions) m) name version ≡ (
          if n == name
          then (if v == version then some obj else lookup version versions)
          else object m name version)
  object-insert n v obj m versions name version =
      rw (lookup-insert n name (insert v obj versions) m) (elim (Bool-cases (n == name)) [
        | inl same ↦ rw same (lookup-insert v version obj versions)
        | inr other ↦ rw other refl
      ])

  object-here :
      (n name : Bytes) (version : ℤ) (m : Map Bytes (Versions T)) (here : Option (Versions T))
      → (n == name) ≡ true
      → lookup n m ≡ here
      → object m name version ≡ version_of version here
  object-here n name version m here same e =
      ap (version_of version)
        (ap (λ (k : Bytes). lookup k m) (sym ((bytes_eq.beq_iff n name).0 same)) ∙ e)

  -- A version of a name that is there.
  first_version :
      (v version : ℤ) (obj : T) (versions : Versions T)
      → lookup v versions ≡ none
      → (if v == version then some obj else lookup version versions)
        ≡ or_first (lookup version versions) (if v == version then some obj else none)
  first_version v version obj versions free = elim (Bool-cases (v == version)) [
    | inl same ↦
        rw
          (same, ap (λ (k : ℤ). lookup k versions) (sym ((int_eq.beq_iff v version).0 same)) ∙ free)
          refl
    | inr other ↦ rw other (or_none (lookup version versions))
  ]

  second_version :
      (v version : ℤ) (obj o : T) (versions : Versions T)
      → lookup v versions ≡ some o
      → lookup version versions
        ≡ or_first (lookup version versions) (if v == version then some obj else none)
  second_version v version obj o versions taken = elim (Bool-cases (v == version)) [
    | inl same ↦
        rw
          (
            same,
            ap (λ (k : ℤ). lookup k versions) (sym ((int_eq.beq_iff v version).0 same)) ∙ taken,
          )
          refl
    | inr other ↦ rw other (or_none (lookup version versions))
  ]

  registered_free :
      (n : Bytes) (v : ℤ) (obj : T) (m : Map Bytes (Versions T)) (versions : Versions T)
      (name : Bytes) (version : ℤ)
      → lookup n m ≡ some versions
      → lookup v versions ≡ none
      → object (insert n (insert v obj versions) m) name version
        ≡ or_first
            (object m name version)
            (if (n == name) && (v == version) then some obj else none)
  registered_free n v obj m versions name version e free = elim (Bool-cases (n == name)) [
    | inl same ↦
        rw
          (
            object-insert n v obj m versions name version,
            object-here n name version m (some versions) same e,
            same,
          )
          (first_version v version obj versions free)
    | inr other ↦
        rw (object-insert n v obj m versions name version, other) (or_none (object m name version))
  ]

  registered_taken :
      (n : Bytes) (v : ℤ) (obj o : T) (m : Map Bytes (Versions T)) (versions : Versions T)
      (name : Bytes) (version : ℤ)
      → lookup n m ≡ some versions
      → lookup v versions ≡ some o
      → object m name version
        ≡ or_first
            (object m name version)
            (if (n == name) && (v == version) then some obj else none)
  registered_taken n v obj o m versions name version e taken = elim (Bool-cases (n == name)) [
    | inl same ↦
        rw (object-here n name version m (some versions) same e, same)
          (second_version v version obj o versions taken)
    | inr other ↦ rw other (or_none (object m name version))
  ]

  registered-object :
      (n : Bytes) (v : ℤ) (obj : T) (m : Map Bytes (Versions T)) (here : Option (Versions T))
      (name : Bytes) (version : ℤ)
      → lookup n m ≡ here
      → object (names (registered n v m (add_version v obj here)).0) name version
        ≡ or_first
            (object m name version)
            (if (n == name) && (v == version) then some obj else none)
  unfolding lookup
  registered-object n v obj m none name version e = elim (Bool-cases (n == name)) [
    | inl same ↦
        rw (object-here n name version m none same e, lookup-insert n name ((v, obj) ∷ []) m, same)
          refl
    | inr other ↦
        rw (lookup-insert n name ((v, obj) ∷ []) m, other) (or_none (object m name version))
  ]
  registered-object n v obj m (some versions) name version e =
      registered_again (lookup v versions) refl
    where
      registered_again :
          (there : Option T)
          → lookup v versions ≡ there
          → object (names (registered n v m (add_new v obj versions there)).0) name version
            ≡ or_first
                (object m name version)
                (if (n == name) && (v == version) then some obj else none)
      registered_again none free = registered_free n v obj m versions name version e free
      registered_again (some o) taken = registered_taken n v obj o m versions name version e taken

  object-register :
      (n : Bytes) (v : ℤ) (obj : Option T) (r : Registry T) (name : Bytes) (version : ℤ)
      → object (names (register n v obj r).0) name version
        ≡ or_first
            (object (names r) name version)
            (if (n == name) && (v == version) then obj else none)
  unfolding register
  object-register n v none r name version = ground arith
  object-register n v (some obj) r name version =
      registered-object n v obj (names r) (lookup n (names r)) name version refl

  or_first_assoc : (a b c : Option T) → or_first (or_first a b) c ≡ or_first a (or_first b c)
  or_first_assoc none b c = refl
  or_first_assoc (some a) b c = refl

  register_all-object :
      (calls : List (Bytes × ℤ × Option T)) (r : Registry T) (name : Bytes) (version : ℤ)
      → object (names (register_all calls r)) name version
        ≡ or_first (object (names r) name version) (first_registered calls name version)
  unfolding register_all first_registered
  register_all-object [] r name version = or_none (object (names r) name version)
  register_all-object ((n, v, obj) ∷ calls) r name version =
      rw
        (
          register_all-object calls (register n v obj r).0 name version,
          object-register n v obj r name version,
        )
        (or_first_assoc (object (names r) name version)
          (if (n == name) && (v == version) then obj else none)
          (first_registered calls name version))

  -- After any calls of `Register`, `Get` finds for each name and version the first object that was
  -- registered under them and could be converted, and nothing else.
  pub get-register_all :
      (calls : List (Bytes × ℤ × Option T)) (name : Bytes) (version : ℤ)
      → get name version (register_all calls new_registry)
        ≡ found name version (first_registered calls name version)
  unfolding get lookup
  get-register_all calls name version =
      ap (found name version) (register_all-object calls new_registry name version)
