-- ===== src/Uuid/RoundTrip.antt =====
-- Printing a UUID and reading it back.
use juju_utils.Common.{
  length-replicate, ℕ, ◌/◌, ◌%◌, ◌<◌, ◌≡◌, refl, Bool, true, ◌&&◌, List, [], ◌∷◌, ◌++◌, leb, arith,
  nat_eq, nat_beq, All, length, replicate, ◌∙◌, ap,
}
use juju_utils.Common.Bytes.{Bytes}
use juju_utils.Common.Results.{ok}
use juju_utils.Text.Hex.{
  encode, is_hex, hex_digit, encode-hex, decode-encode, is_hex-hex_digit, IsByte,
}
use juju_utils.Text.Cut.{remove, Lacks, remove_first}
use juju_utils.Text.Classes.{Class, matches, matches-append, All-matches}
use juju_utils.Uuid.{
  Uuid, from_raw, block1, block2, block3, block4, block5, string, hex, dash, version, variant,
  is_valid_uuid_string, uuid_from_string,
}

-- The elements of the array are bytes.
pub record IsArray (u : Uuid) : Type 0 where
  pub bytes1 : All IsByte (block1 u)
  pub bytes2 : All IsByte (block2 u)
  pub bytes3 : All IsByte (block3 u)
  pub bytes4 : All IsByte (block4 u)
  pub bytes5 : All IsByte (block5 u)

-- Version 4 and variant 2 of RFC 4122, in the high digits of the bytes 6 and 8.
abbrev pub is_version4 : Uuid → Bool
is_version4 u = nat_beq (u.b6 / 16) 4 && (leb 8 (u.b8 / 16) && leb (u.b8 / 16) 11)

matches_block :
    (bs : Bytes) (qs : List Class) (t : Bytes)
    → All IsByte bs
    → matches (replicate (length (encode bs)) hex ++ qs) (encode bs ++ t) ≡ matches qs t
matches_block bs qs t h =
    matches-append (replicate (length (encode bs)) hex) qs (encode bs) t (length-replicate _ hex)
    ∙ rw (All-matches hex (encode bs) (encode-hex bs h)) refl

version_digit : (n : ℕ) → n < 16 → version (hex_digit n) ≡ nat_beq n 4
unfolding hex_digit
version_digit n h = ground arith

variant_digit : (n : ℕ) → n < 16 → variant (hex_digit n) ≡ (leb 8 n && leb n 11)
unfolding hex_digit
variant_digit n h = ground arith

matches_block3 :
    (a b : ℕ) (qs : List Class) (t : Bytes)
    → a < 256
    → b < 256
    → matches (version ∷ (replicate 3 hex ++ qs)) (encode (a ∷ b ∷ []) ++ t)
      ≡ (nat_beq (a / 16) 4 && matches qs t)
unfolding encode matches
matches_block3 a b qs t ha hb = ground (
  arith,
  version_digit (a / 16),
  is_hex-hex_digit (a % 16),
  is_hex-hex_digit (b / 16),
  is_hex-hex_digit (b % 16),
)

matches_block4 :
    (a b : ℕ) (qs : List Class) (t : Bytes)
    → a < 256
    → b < 256
    → matches (variant ∷ (replicate 3 hex ++ qs)) (encode (a ∷ b ∷ []) ++ t)
      ≡ ((leb 8 (a / 16) && leb (a / 16) 11) && matches qs t)
unfolding encode matches
matches_block4 a b qs t ha hb = ground (
  arith,
  variant_digit (a / 16),
  is_hex-hex_digit (a % 16),
  is_hex-hex_digit (b / 16),
  is_hex-hex_digit (b % 16),
)

&&-true : (b : Bool) → (b && true) ≡ b
&&-true b = ground arith

-- The printed form of an array is a valid string exactly when the array has the version and variant.
pub valid-string : (u : Uuid) → IsArray u → is_valid_uuid_string (string u) ≡ is_version4 u
unfolding is_valid_uuid_string string encode matches
valid-string u h =
    let q5 : List Class = replicate 12 hex in
    let q4 : List Class = variant ∷ (replicate 3 hex ++ dash ∷ q5) in
    let q3 : List Class = version ∷ (replicate 3 hex ++ dash ∷ q4) in
    let q2 : List Class = replicate 4 hex ++ dash ∷ q3 in
    let t5 : Bytes = encode (block5 u) in
    let t4 : Bytes = encode (block4 u) ++ b'-' ∷ t5 in
    let t3 : Bytes = encode (block3 u) ++ b'-' ∷ t4 in
    let t2 : Bytes = encode (block2 u) ++ b'-' ∷ t3 in
    let last : matches q5 t5 ≡ true = All-matches hex t5 (encode-hex (block5 u) h.bytes5) in
    matches_block (block1 u) (dash ∷ q2) (b'-' ∷ t2) h.bytes1
    ∙ matches_block (block2 u) (dash ∷ q3) (b'-' ∷ t3) h.bytes2
    ∙ matches_block3 u.b6 u.b7 (dash ∷ q4) (b'-' ∷ t4) h.bytes3.0 h.bytes3.1.0
    ∙ ap (λ r. nat_beq (u.b6 / 16) 4 && r)
        (matches_block4 u.b8 u.b9 (dash ∷ q5) (b'-' ∷ t5) h.bytes4.0 h.bytes4.1.0
          ∙ ap (λ r. (leb 8 (u.b8 / 16) && leb (u.b8 / 16) 11) && r) last
          ∙ &&-true _)

hex-Lacks : (s : Bytes) → All (λ c. is_hex c ≡ true) s → Lacks b'-' s
hex-Lacks [] h = tt
hex-Lacks (c ∷ s) h = ((λ e. ground arith), hex-Lacks s h.1)

encode-Lacks : (bs : Bytes) → All IsByte bs → Lacks b'-' (encode bs)
encode-Lacks bs h = hex-Lacks (encode bs) (encode-hex bs h)

encode-append : (xs ys : Bytes) → encode (xs ++ ys) ≡ encode xs ++ encode ys
unfolding encode
encode-append [] ys = refl
encode-append (x ∷ xs) ys =
    ap (λ l. hex_digit (x / 16) ∷ hex_digit (x % 16) ∷ l) (encode-append xs ys)

-- The bytes of the array in order.
abbrev pub raw : Uuid → Bytes
raw u = block1 u ++ (block2 u ++ (block3 u ++ (block4 u ++ block5 u)))

from_raw-raw : (u : Uuid) → from_raw (raw u) ≡ u
unfolding from_raw
from_raw-raw u = refl

remove-string : (u : Uuid) → IsArray u → remove 4 b'-' (string u) ≡ encode (raw u)
unfolding string
remove-string u h =
    let t5 : Bytes = encode (block5 u) in
    let t4 : Bytes = encode (block4 u) ++ b'-' ∷ t5 in
    let t3 : Bytes = encode (block3 u) ++ b'-' ∷ t4 in
    let t2 : Bytes = encode (block2 u) ++ b'-' ∷ t3 in
    rw
      (
        remove_first 3 b'-' (encode (block1 u)) t2 (encode-Lacks (block1 u) h.bytes1),
        remove_first 2 b'-' (encode (block2 u)) t3 (encode-Lacks (block2 u) h.bytes2),
        remove_first 1 b'-' (encode (block3 u)) t4 (encode-Lacks (block3 u) h.bytes3),
        remove_first 0 b'-' (encode (block4 u)) t5 (encode-Lacks (block4 u) h.bytes4),
      )
      (unfold remove encode in refl)

raw-IsByte : (u : Uuid) → IsArray u → All IsByte (raw u)
raw-IsByte u h = (omega arith)

-- `UUIDFromString` reads back what `String` prints of any version 4 UUID.
pub from_string-string :
    (u : Uuid) → IsArray u → is_version4 u ≡ true → uuid_from_string (string u) ≡ ok u
unfolding uuid_from_string
from_string-string u h v =
    rw (valid-string u h, v, remove-string u h, decode-encode (raw u) (raw-IsByte u h))
      (ap ok (from_raw-raw u))
