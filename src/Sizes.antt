-- ===== src/Sizes.antt =====
-- size.go, on ASCII texts. Numbers of 64 bits with a floating point are the parameter `Floats`.
pub mod Suffixes
use juju_utils.Common.{
  ◌%◌, ℕ, zero, suc, ◌+◌, ◌*◌, ◌^◌, Bool, true, false, ◌&&◌, ◌||◌, not, Option, none, some, List,
  [], ◌∷◌, ◌++◌, if◌then◌else◌, leb, nat_beq, ◌==◌,
}
use juju_utils.Common.Bytes.{Bytes, bytes_eq, codes}
use juju_utils.Common.Results.{Result, ok, err}

-- What size.go uses of strconv and math: `strconv.ParseFloat(…, 64)`, the test `val < 0`, the product with a
-- multiplier, and `uint64(math.Ceil(val))`.
pub record Floats : Type 1 where
  pub Float : Type 0
  pub parse : Bytes → Option Float
  pub is_negative : Float → Bool
  pub times : Float → ℕ → Float
  pub ceiling : Float → ℕ

pub data SizeError : Type 0 where
  invalid_multiplier_suffix : Bytes → SizeError
  expected_non_negative : Bytes → SizeError

-- The characters of the number.
abbrev pub is_number_char : ℕ → Bool
is_number_char c = nat_beq c b'.' || (leb b'0' c && leb c b'9')

-- The text up to its first other character, and the rest, which is empty if there is none.
abbrev pub longer : ℕ → Bytes × Bytes → Bytes × Bytes
longer c (number, rest) = (c ∷ number, rest)

unfoldable pub cut_number : Bytes → Bytes × Bytes
cut_number [] = ([], [])
cut_number (c ∷ s) =
    let found = cut_number s in if is_number_char c then longer c found else ([], c ∷ s)

abbrev pub size_suffixes : Bytes
size_suffixes = codes "MGTPEZY"

-- `sizeSuffixMultiplier`, for an int of a width: a bit that is shifted out is lost.
abbrev pub size_suffix_multiplier : ℕ → ℕ → ℕ
size_suffix_multiplier width j = 2 ^ (j * 10) % 2 ^ width

abbrev pub is_unit : Bytes → Bytes → Bool
is_unit suffix base =
    suffix == base || (suffix == base ++ codes "B" || suffix == base ++ codes "iB")

-- The loop over the suffixes, from the j-th on, with the multiplier that it has found.
unfoldable pub find_multiplier : ℕ → Bytes → ℕ → Bytes → ℕ → ℕ
find_multiplier width suffix j [] multiplier = multiplier
find_multiplier width suffix j (base ∷ bases) multiplier =
    find_multiplier width suffix (suc j) bases
      (if is_unit suffix (base ∷ []) then size_suffix_multiplier width j else multiplier)

-- `width` is that of an int.
module _ (floats : Floats) (width : ℕ) where
  open floats use {Float, parse, is_negative, times, ceiling}

  abbrev pub scaled : Bytes → ℕ → Option Float → Result SizeError ℕ
  scaled text multiplier none = err (expected_non_negative text)
  scaled text multiplier (some val) =
      if is_negative val
      then err (expected_non_negative text)
      else ok (ceiling (times val multiplier))

  -- The end of `ParseSize`.
  unfoldable pub parse_number : Bytes → ℕ → Result SizeError ℕ
  parse_number text multiplier = scaled text multiplier (parse text)

  abbrev pub with_multiplier : Bytes → Bytes → ℕ → Result SizeError ℕ
  with_multiplier number suffix multiplier =
      if nat_beq multiplier 0
      then err (invalid_multiplier_suffix suffix)
      else parse_number number multiplier

  -- A number at the beginning, and a rest, are both there if the index is positive.
  abbrev pub parse_parts : Bytes → Bytes × Bytes → Result SizeError ℕ
  parse_parts str ([], rest) = parse_number str 1
  parse_parts str (c ∷ number, []) = parse_number str 1
  parse_parts str (c ∷ number, r ∷ rest) =
      with_multiplier (c ∷ number) (r ∷ rest) (find_multiplier width (r ∷ rest) 0 size_suffixes 0)

  -- `ParseSize`.
  unfoldable pub parse_size : Bytes → Result SizeError ℕ
  unfolding parse_number find_multiplier cut_number
  parse_size str = parse_parts str (cut_number str)
