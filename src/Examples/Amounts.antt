-- ===== src/Examples/Amounts.antt =====
-- Sizes at concrete inputs, with natural numbers in place of floating-point numbers.
use juju_utils.Common.{
  ℕ, ◌+◌, ◌*◌, ◌-◌, ◌≡◌, refl, false, Option, none, some, [], ◌∷◌, All, if◌then◌else◌,
}
use juju_utils.Common.Bytes.{Bytes, codes}
use juju_utils.Common.Results.{ok, err}
use juju_utils.Sizes.{
  Floats, invalid_multiplier_suffix, expected_non_negative, is_number_char, cut_number,
  find_multiplier, parse_number, parse_size,
}
use juju_utils.Sizes.Suffixes.{Scales, Refuses, small_units, large_units, parse_size-units}

abbrev value : ℕ → Bytes → Option ℕ
value n [] = some n
value n (c ∷ s) = if is_number_char c then value (n * 10 + (c - b'0')) s else none

abbrev whole_numbers : Floats
whole_numbers = record {
  Float = ℕ;
  parse = value 0;
  is_negative = λ n. false;
  times = λ n m. n * m;
  ceiling = λ n. n;
}

parse_size-units_example :
    (Scales whole_numbers 64 (codes "12") 12 ([], 1)
      × All (Scales whole_numbers 64 (codes "12") 12) small_units
      × All (Scales whole_numbers 64 (codes "12") 12) large_units)
    × (Scales whole_numbers 32 (codes "12") 12 ([], 1)
        × All (Scales whole_numbers 32 (codes "12") 12) small_units
        × All (Refuses whole_numbers 32 (codes "12")) large_units)
parse_size-units_example =
    parse_size-units whole_numbers b'1' (codes "2") 12 (refl, (refl, tt)) refl refl

gigabytes : parse_size whole_numbers 64 (codes "12GiB") ≡ ok 12288
unfolding parse_size cut_number find_multiplier parse_number
gigabytes = refl

bad_suffix :
    parse_size whole_numbers 64 (codes "12Gb") ≡ err (invalid_multiplier_suffix (codes "Gb"))
unfolding parse_size cut_number find_multiplier parse_number
bad_suffix = refl

on_32_bits : parse_size whole_numbers 32 (codes "1E") ≡ err (invalid_multiplier_suffix (codes "E"))
unfolding parse_size cut_number find_multiplier parse_number
on_32_bits = refl

no_number : parse_size whole_numbers 64 (codes "M") ≡ err (expected_non_negative (codes "M"))
unfolding parse_size cut_number find_multiplier parse_number
no_number = refl
