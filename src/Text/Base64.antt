-- ===== src/Text/Base64.antt =====
-- `base64.StdEncoding` of `encoding/base64`, and the reading of what it writes.
use juju_utils.Common.{
  not, ℕ, ◌+◌, ◌-◌, ◌*◌, ◌/◌, ◌%◌, ◌<◌, ◌≡◌, refl, arith, false, ◌&&◌, Option, none, some, [], ◌∷◌,
  length, if◌then◌else◌, ltb, leb, nat_beq, All,
}
use juju_utils.Common.Bytes.{Bytes}
use juju_utils.Text.Hex.{IsByte}

-- The character for a number below 64.
unfoldable pub digit : ℕ → ℕ
digit n =
    if ltb n 26
    then b'A' + n
    else if ltb n 52
    then b'a' + n - 26
    else if ltb n 62
    then b'0' + n - 52
    else if nat_beq n 62
    then b'+'
    else b'/'

-- `EncodeToString`.
unfoldable pub encode : Bytes → Bytes
unfolding digit
encode [] = []
encode (a ∷ []) = digit (a / 4) ∷ digit (a % 4 * 16) ∷ b'=' ∷ b'=' ∷ []
encode (a ∷ b ∷ []) = digit (a / 4) ∷ digit (a % 4 * 16 + b / 16) ∷ digit (b % 16 * 4) ∷ b'=' ∷ []
encode (a ∷ b ∷ c ∷ rest) =
    digit (a / 4)
    ∷ digit (a % 4 * 16 + b / 16)
    ∷ digit (b % 16 * 4 + c / 64)
    ∷ digit (c % 64)
    ∷ encode rest

-- `EncodedLen`.
abbrev pub encoded_len : ℕ → ℕ
encoded_len n = (n + 2) / 3 * 4

-- The number for a character, as RFC 4648 has it.
unfoldable pub value : ℕ → Option ℕ
value c =
    if leb b'A' c && leb c b'Z'
    then some (c - b'A')
    else if leb b'a' c && leb c b'z'
    then some (c - b'a' + 26)
    else if leb b'0' c && leb c b'9'
    then some (c - b'0' + 52)
    else if nat_beq c b'+'
    then some 62
    else if nat_beq c b'/'
    then some 63
    else none

abbrev pub three : Option ℕ → Option ℕ → Option ℕ → Option ℕ → Option Bytes → Option Bytes
three (some p) (some q) (some r) (some s) (some rest) =
    some ((p * 4 + q / 16) ∷ (q % 16 * 16 + r / 4) ∷ (r % 4 * 64 + s) ∷ rest)
three _ _ _ _ _ = none

abbrev pub two : Option ℕ → Option ℕ → Option ℕ → Option Bytes
two (some p) (some q) (some r) = some ((p * 4 + q / 16) ∷ (q % 16 * 16 + r / 4) ∷ [])
two _ _ _ = none

abbrev pub one : Option ℕ → Option ℕ → Option Bytes
one (some p) (some q) = some ((p * 4 + q / 16) ∷ [])
one _ _ = none

-- The last group may be padded.
unfoldable pub decode : Bytes → Option Bytes
unfolding value
decode [] = some []
decode (p ∷ []) = none
decode (p ∷ q ∷ []) = none
decode (p ∷ q ∷ r ∷ []) = none
decode (p ∷ q ∷ r ∷ s ∷ rest) =
    let others = decode rest in
    if not (nat_beq s b'=')
    then three (value p) (value q) (value r) (value s) others
    else if not (nat_beq r b'=')
    then two (value p) (value q) (value r)
    else one (value p) (value q)

value-digit : (n : ℕ) → n < 64 → value (digit n) ≡ some n
unfolding value digit
value-digit n h = ground arith

pub digit_no_padding : (n : ℕ) → n < 64 → nat_beq (digit n) b'=' ≡ false
unfolding digit
digit_no_padding n h = ground arith

pub decode-encode : (bs : Bytes) → All IsByte bs → decode (encode bs) ≡ some bs
unfolding decode encode
decode-encode [] h = refl
decode-encode (a ∷ []) h =
    rw (value-digit (a / 4) (omega (arith, h.0)), value-digit (a % 4 * 16) (omega arith))
      (ground (arith, h.0))
decode-encode (a ∷ b ∷ []) h =
    rw
      (
        digit_no_padding (b % 16 * 4) (omega arith),
        value-digit (a / 4) (omega (arith, h.0)),
        value-digit (a % 4 * 16 + b / 16) (omega (arith, h.1.0)),
        value-digit (b % 16 * 4) (omega arith),
      )
      (ground (arith, h.0, h.1.0))
decode-encode (a ∷ b ∷ c ∷ rest) h =
    rw
      (
        digit_no_padding (c % 64) (omega arith),
        value-digit (a / 4) (omega (arith, h.0)),
        value-digit (a % 4 * 16 + b / 16) (omega (arith, h.1.0)),
        value-digit (b % 16 * 4 + c / 64) (omega (arith, h.1.1.0)),
        value-digit (c % 64) (omega arith),
        decode-encode rest h.1.1.1,
      )
      (ground (arith, h.0, h.1.0, h.1.1.0))

pub length-encode : (bs : Bytes) → length (encode bs) ≡ encoded_len (length bs)
unfolding encode
length-encode [] = refl
length-encode (a ∷ []) = refl
length-encode (a ∷ b ∷ []) = refl
length-encode (a ∷ b ∷ c ∷ rest) = omega (arith, length-encode rest)

-- No padding after a whole number of groups.
pub encode_no_padding :
    (bs : Bytes) → All IsByte bs → length bs % 3 ≡ 0 → All (λ c. nat_beq c b'=' ≡ false) (encode bs)
unfolding encode
encode_no_padding [] h e = tt
encode_no_padding (a ∷ []) h e = absurd (omega arith)
encode_no_padding (a ∷ b ∷ []) h e = absurd (omega arith)
encode_no_padding (a ∷ b ∷ c ∷ rest) h e = (
  digit_no_padding (a / 4) (omega (arith, h.0)),
  (
    digit_no_padding (a % 4 * 16 + b / 16) (omega (arith, h.1.0)),
    (
      digit_no_padding (b % 16 * 4 + c / 64) (omega (arith, h.1.1.0)),
      (digit_no_padding (c % 64) (omega arith), encode_no_padding rest h.1.1.1 (omega arith)),
    ),
  ),
)
