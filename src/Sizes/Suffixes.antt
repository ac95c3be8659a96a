-- ===== src/Sizes/Suffixes.antt =====
-- The suffixes that ParseSize accepts.
use juju_utils.Common.{
  some, not, ◌&&◌, append-nil, ℕ, ◌^◌, ◌≡◌, refl, arith, ◌∙◌, Bool, true, false, List, [], ◌∷◌,
  ◌++◌, nat_beq, All,
}
use juju_utils.Common.Results.{ok, err}
use juju_utils.Common.Bytes.{Bytes, bytes_eq, codes}
use juju_utils.Sizes.{
  invalid_multiplier_suffix, Floats, is_number_char, cut_number, find_multiplier, size_suffixes,
  parse_number, with_multiplier, parse_size,
}

abbrev pub IsNumberText : Bytes → Type 0
IsNumberText = All (λ c. is_number_char c ≡ true)

-- The multiples of a megabyte with their names.
abbrev pub small_units : List (Bytes × ℕ)
small_units =
    (codes "M", 1)
    ∷ (codes "MB", 1)
    ∷ (codes "MiB", 1)
    ∷ (codes "G", 1024)
    ∷ (codes "GB", 1024)
    ∷ (codes "GiB", 1024)
    ∷ (codes "T", 1024 ^ 2)
    ∷ (codes "TB", 1024 ^ 2)
    ∷ (codes "TiB", 1024 ^ 2)
    ∷ (codes "P", 1024 ^ 3)
    ∷ (codes "PB", 1024 ^ 3)
    ∷ (codes "PiB", 1024 ^ 3)
    ∷ []

abbrev pub large_units : List (Bytes × ℕ)
large_units =
    (codes "E", 1024 ^ 4)
    ∷ (codes "EB", 1024 ^ 4)
    ∷ (codes "EiB", 1024 ^ 4)
    ∷ (codes "Z", 1024 ^ 5)
    ∷ (codes "ZB", 1024 ^ 5)
    ∷ (codes "ZiB", 1024 ^ 5)
    ∷ (codes "Y", 1024 ^ 6)
    ∷ (codes "YB", 1024 ^ 6)
    ∷ (codes "YiB", 1024 ^ 6)
    ∷ []

cut_number-append :
    (number : Bytes) (r : ℕ) (rest : Bytes)
    → IsNumberText number
    → is_number_char r ≡ false
    → cut_number (number ++ r ∷ rest) ≡ (number, r ∷ rest)
unfolding cut_number
cut_number-append [] r rest h hr = rw hr refl
cut_number-append (c ∷ number) r rest h hr = rw (h.0, cut_number-append number r rest h.1 hr) refl

cut_number_all : (number : Bytes) → IsNumberText number → cut_number number ≡ (number, [])
unfolding cut_number
cut_number_all [] h = refl
cut_number_all (c ∷ number) h = rw (h.0, cut_number_all number h.1) refl

-- The loop finds a multiplier for a suffix.
abbrev finds : ℕ → Bytes → ℕ → Bool
finds width [] m = false
finds width (r ∷ rest) m =
    not (is_number_char r) && nat_beq (find_multiplier width (r ∷ rest) 0 size_suffixes 0) m

finds_lem :
    (width r : ℕ) (rest : Bytes) (m : ℕ)
    → finds width (r ∷ rest) m ≡ true
    → (is_number_char r ≡ false) × (find_multiplier width (r ∷ rest) 0 size_suffixes 0 ≡ m)
finds_lem width r rest m h = (ground arith, ground arith)

-- Each suffix of a table has its multiplier, which is not 0, or none of them has one.
abbrev all_found : ℕ → List (Bytes × ℕ) → Bool
all_found width [] = true
all_found width ((u, m) ∷ us) = (finds width u m && not (nat_beq m 0)) && all_found width us

abbrev none_found : ℕ → List (Bytes × ℕ) → Bool
none_found width [] = true
none_found width ((u, m) ∷ us) = finds width u 0 && none_found width us

large_found : (all_found 64 small_units ≡ true) × (all_found 64 large_units ≡ true)
unfolding find_multiplier
large_found = (refl, refl)

small_found : (all_found 32 small_units ≡ true) × (none_found 32 large_units ≡ true)
unfolding find_multiplier
small_found = (refl, refl)

module _ (floats : Floats) where
  open floats use {Float, parse, is_negative, times, ceiling}

  -- What `ParseSize` makes of a number with a suffix, where an int has a width.
  abbrev pub Scales : ℕ → Bytes → Float → Bytes × ℕ → Type 0
  Scales width number v (suffix, multiplier) =
      parse_size floats width (number ++ suffix) ≡ ok (ceiling (times v multiplier))

  abbrev pub Refuses : ℕ → Bytes → Bytes × ℕ → Type 0
  Refuses width number (suffix, multiplier) =
      parse_size floats width (number ++ suffix) ≡ err (invalid_multiplier_suffix suffix)

  module _ (c : ℕ) (number : Bytes) (h : IsNumberText (c ∷ number)) where
    parse_size-suffix :
        (width r : ℕ) (rest : Bytes)
        → is_number_char r ≡ false
        → parse_size floats width (c ∷ number ++ r ∷ rest)
          ≡ with_multiplier floats width
              (c ∷ number)
              (r ∷ rest)
              (find_multiplier width (r ∷ rest) 0 size_suffixes 0)
    unfolding parse_size
    parse_size-suffix width r rest hr = rw (cut_number-append (c ∷ number) r rest h hr) refl

    none_found-Refuses :
        (width : ℕ) (table : List (Bytes × ℕ))
        → none_found width table ≡ true
        → All (Refuses width (c ∷ number)) table
    none_found-Refuses width [] right = tt
    none_found-Refuses width (([], m) ∷ table) right = absurd (ground arith)
    none_found-Refuses width ((r ∷ rest, m) ∷ table) right =
        let (other, found) = finds_lem width r rest 0 (ground arith) in
        (
          parse_size-suffix width r rest other ∙ rw found refl,
          none_found-Refuses width table (ground arith),
        )

    module _ (v : Float) (parsed : parse (c ∷ number) ≡ some v)
        (positive : is_negative v ≡ false) where
      parse_number_lem :
          (width m : ℕ) → parse_number floats width (c ∷ number) m ≡ ok (ceiling (times v m))
      unfolding parse_number
      parse_number_lem width m = rw (parsed, positive) refl

      all_found-Scales :
          (width : ℕ) (table : List (Bytes × ℕ))
          → all_found width table ≡ true
          → All (Scales width (c ∷ number) v) table
      all_found-Scales width [] right = tt
      all_found-Scales width (([], m) ∷ table) right = absurd (ground arith)
      all_found-Scales width ((r ∷ rest, m) ∷ table) right =
          let (other, found) = finds_lem width r rest m (ground arith) in
          let some_multiplier : nat_beq m 0 ≡ false = ground arith in
          (
            parse_size-suffix width r rest other
                ∙ rw (found, some_multiplier) (parse_number_lem width m),
            all_found-Scales width table (ground arith),
          )

      parse_size_plain : (width : ℕ) → Scales width (c ∷ number) v ([], 1)
      unfolding parse_size
      parse_size_plain width =
          rw (append-nil number, cut_number_all (c ∷ number) h) (parse_number_lem width 1)

  -- For a text of digits and points that is a number and not negative: if an int has 64 bits, `ParseSize`
  -- returns the number, rounded up, and with each of the 21 suffixes the product of the number and the
  -- multiplier that the suffix names, rounded up. If an int has 32 bits it does so for the suffixes of M, G,
  -- T and P, and refuses those of E, Z and Y.
  pub parse_size-units :
      (c : ℕ) (number : Bytes) (v : Float)
      → IsNumberText (c ∷ number)
      → parse (c ∷ number) ≡ some v
      → is_negative v ≡ false
      → (Scales 64 (c ∷ number) v ([], 1)
          × All (Scales 64 (c ∷ number) v) small_units
          × All (Scales 64 (c ∷ number) v) large_units)
        × (Scales 32 (c ∷ number) v ([], 1)
            × All (Scales 32 (c ∷ number) v) small_units
            × All (Refuses 32 (c ∷ number)) large_units)
  parse_size-units c number v h parsed positive = (
    (
      parse_size_plain c number h v parsed positive 64,
      all_found-Scales c number h v parsed positive 64 small_units large_found.0,
      all_found-Scales c number h v parsed positive 64 large_units large_found.1,
    ),
    (
      parse_size_plain c number h v parsed positive 32,
      all_found-Scales c number h v parsed positive 32 small_units small_found.0,
      none_found-Refuses c number h 32 large_units small_found.1,
    ),
  )
