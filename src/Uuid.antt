-- ===== src/Uuid.antt =====
-- uuid.go: version 4 UUIDs and their text form.
pub mod RoundTrip
pub mod Fresh
pub mod Commas
use Prim.Native.Nat.{bit_and, bit_or}
use juju_utils.Common.{
  replicate, get_or, ℕ, ◌+◌, ◌-◌, ◌*◌, ◌≤◌, ◌<◌, ◌≡◌, refl, Bool, true, false, ◌&&◌, ◌||◌, not,
  Option, none, some, List, [], ◌∷◌, ◌++◌, if◌then◌else◌, ltb, leb, arith, nat_eq, ◌==◌,
}
use juju_utils.Common.Bytes.{Bytes}
use juju_utils.Common.Results.{Result, ok, err}
use juju_utils.Text.Hex.{encode, decode, is_hex}
use juju_utils.Text.Cut.{remove}
use juju_utils.Text.Classes.{Class, matches}

-- `[16]byte`.
pub record Uuid : Type 0 where
  pub b0 : ℕ
  pub b1 : ℕ
  pub b2 : ℕ
  pub b3 : ℕ
  pub b4 : ℕ
  pub b5 : ℕ
  pub b6 : ℕ
  pub b7 : ℕ
  pub b8 : ℕ
  pub b9 : ℕ
  pub b10 : ℕ
  pub b11 : ℕ
  pub b12 : ℕ
  pub b13 : ℕ
  pub b14 : ℕ
  pub b15 : ℕ

-- `copy(uuid[:], raw)` into a zero array.
unfoldable pub from_raw : Bytes → Uuid
from_raw raw = record {
  b0 = get_or raw 0 0;
  b1 = get_or raw 1 0;
  b2 = get_or raw 2 0;
  b3 = get_or raw 3 0;
  b4 = get_or raw 4 0;
  b5 = get_or raw 5 0;
  b6 = get_or raw 6 0;
  b7 = get_or raw 7 0;
  b8 = get_or raw 8 0;
  b9 = get_or raw 9 0;
  b10 = get_or raw 10 0;
  b11 = get_or raw 11 0;
  b12 = get_or raw 12 0;
  b13 = get_or raw 13 0;
  b14 = get_or raw 14 0;
  b15 = get_or raw 15 0;
}

-- The slices that `String` prints.
abbrev pub block1 : Uuid → Bytes
block1 u = u.b0 ∷ u.b1 ∷ u.b2 ∷ u.b3 ∷ []

abbrev pub block2 : Uuid → Bytes
block2 u = u.b4 ∷ u.b5 ∷ []

abbrev pub block3 : Uuid → Bytes
block3 u = u.b6 ∷ u.b7 ∷ []

abbrev pub block4 : Uuid → Bytes
block4 u = u.b8 ∷ u.b9 ∷ []

abbrev pub block5 : Uuid → Bytes
block5 u = u.b10 ∷ u.b11 ∷ u.b12 ∷ u.b13 ∷ u.b14 ∷ u.b15 ∷ []

-- `String`.
unfoldable pub string : Uuid → Bytes
string u =
    encode (block1 u)
    ++ b'-'
      ∷ (encode (block2 u)
          ++ b'-' ∷ (encode (block3 u) ++ b'-' ∷ (encode (block4 u) ++ b'-' ∷ encode (block5 u))))

abbrev pub hex : Class
hex = is_hex

abbrev pub dash : Class
dash c = c == b'-'

-- `version`.
abbrev pub version : Class
version c = c == b'4'

-- `variant`, the class `[8,9,a,b]`: its commas stand for themselves.
abbrev pub variant : Class
variant c = c == b'8' || (c == b',' || (c == b'9' || (c == b'a' || c == b'b')))

-- `validUUID`, one class for each character.
abbrev pub valid_uuid : List Class
valid_uuid =
    replicate 8 hex
    ++ dash
      ∷ (replicate 4 hex
          ++ dash
            ∷ (version
                ∷ (replicate 3 hex
                    ++ dash ∷ (variant ∷ (replicate 3 hex ++ dash ∷ replicate 12 hex)))))

-- `IsValidUUIDString`.
unfoldable pub is_valid_uuid_string : Bytes → Bool
is_valid_uuid_string s = matches valid_uuid s

pub data UuidError : Type 0 where
  invalid_uuid : Bytes → UuidError
  bad_hex : UuidError

-- `UUIDFromString`.
unfoldable pub uuid_from_string : Bytes → Result UuidError Uuid
uuid_from_string s =
    if not (is_valid_uuid_string s)
    then err (invalid_uuid s)
    else elim (decode (remove 4 b'-' s)) [ none ↦ err bad_hex | some raw ↦ ok (from_raw raw) ]

-- `NewUUID`, from what `rand.Reader` filled the array with.
unfoldable pub new_uuid : Uuid → Uuid
new_uuid u = record u { b6 = bit_or 64 (bit_and u.b6 15); b8 = bit_or 128 (bit_and u.b8 15) }
