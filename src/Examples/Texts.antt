-- ===== src/Examples/Texts.antt =====
-- Key-value arguments and UUIDs at concrete inputs.
use juju_utils.Common.{◌≡◌, ◌↔◌, refl, true, false, nat_eq, arith, [], ◌∷◌, ◌++◌, List, map, All}
use juju_utils.Common.Bytes.{Bytes, codes, bytes_eq}
use juju_utils.Common.Results.{ok, err}
use juju_utils.GoMap.{Map, IsMap, lookup, insert}
use juju_utils.GoMap.Keys.{elem}
use juju_utils.KeyValues.{parse, parse_from, parse_one, check_parts, store, duplicate}
use juju_utils.KeyValues.Entries.{parse_iff, print, IsEntry}
use juju_utils.KeyValues.Failures.{parse_fails, Offends}
use juju_utils.Text.Cut.{split_in_two}
use juju_utils.Text.Hex.{encode, hex_digit}
use juju_utils.Text.Classes.{matches}
use juju_utils.Uuid.{Uuid, string, is_valid_uuid_string, uuid_from_string}
use juju_utils.Uuid.RoundTrip.{IsArray, from_string-string}

abbrev arguments : List Bytes
arguments = codes "a=1" ∷ codes "b=x=y" ∷ []

abbrev entries : Map Bytes Bytes
entries = (codes "a", codes "1") ∷ (codes "b", codes "x=y") ∷ []

parse_iff_example :
    (parse arguments false ≡ ok entries)
    ↔ (IsMap entries × All (IsEntry false) entries × (arguments ≡ map print entries))
parse_iff_example = parse_iff arguments false entries

abbrev doubled : List Bytes
doubled = codes "a=1" ∷ codes "a=2" ∷ codes "c" ∷ []

parse-doubled : parse doubled false ≡ err (duplicate (codes "a"))
unfolding parse parse_from parse_one check_parts store split_in_two lookup insert
parse-doubled = refl

parse_fails_example :
    (before : List Bytes) × (kv : Bytes) × (after : List Bytes) × (m : Map Bytes Bytes) × (doubled
      ≡ before ++ kv ∷ after)
    × (parse before false ≡ ok m)
    × Offends false kv m (duplicate (codes "a"))
parse_fails_example = parse_fails doubled false (duplicate (codes "a")) parse-doubled

abbrev sample : Uuid
sample = record {
  b0 = 0x00;
  b1 = 0x11;
  b2 = 0x22;
  b3 = 0x33;
  b4 = 0x44;
  b5 = 0x55;
  b6 = 0x46;
  b7 = 0x77;
  b8 = 0x98;
  b9 = 0x99;
  b10 = 0xaa;
  b11 = 0xbb;
  b12 = 0xcc;
  b13 = 0xdd;
  b14 = 0xee;
  b15 = 0xff;
}

sample-IsArray : IsArray sample
sample-IsArray = omega arith

string_sample : string sample ≡ codes "00112233-4455-4677-9899-aabbccddeeff"
unfolding string encode hex_digit
string_sample = refl

from_string-string_example : uuid_from_string (string sample) ≡ ok sample
from_string-string_example = from_string-string sample sample-IsArray refl

abbrev odd_text : Bytes
odd_text = codes "00112233-4455-4677-,899-aabbccddeeff"

odd_text_valid : is_valid_uuid_string odd_text ≡ true
unfolding is_valid_uuid_string matches
odd_text_valid = refl

odd_text_comma : elem b',' odd_text ≡ true
unfolding elem
odd_text_comma = refl
