-- ===== src/Text/Hex.antt =====
-- The lower-case hexadecimal of `%x` and of `encoding/hex`.
use Prim.Native.Nat.{◌/◌, ◌%◌, ◌*◌}
use juju_utils.Common.{
  ap₂, ◌∙◌, some-injective, sym, subst, ℕ, ◌+◌, ◌-◌, ◌<◌, ◌≡◌, refl, Bool, true, ◌&&◌, ◌||◌, Option,
  none, some, [], ◌∷◌, if◌then◌else◌, ltb, leb, arith, All, nat_eq,
}
use juju_utils.Common.Bytes.{Bytes}

-- The digit for a number below 16.
unfoldable pub hex_digit : ℕ → ℕ
hex_digit n = if ltb n 10 then b'0' + n else b'a' + n - 10

-- `%x` of a byte slice: two digits for each byte.
unfoldable pub encode : Bytes → Bytes
encode [] = []
encode (b ∷ bs) = hex_digit (b / 16) ∷ hex_digit (b % 16) ∷ encode bs

-- A digit's value; `hex.DecodeString` takes upper case too.
unfoldable pub from_hex_digit : ℕ → Option ℕ
from_hex_digit c =
    if leb b'0' c && leb c b'9'
    then some (c - b'0')
    else if leb b'a' c && leb c b'f'
    then some (c - b'a' + 10)
    else if leb b'A' c && leb c b'F'
    then some (c - b'A' + 10)
    else none

abbrev pub pair_up : Option ℕ → Option ℕ → Option Bytes → Option Bytes
pair_up (some high) (some low) (some bs) = some ((high * 16 + low) ∷ bs)
pair_up (some high) (some low) none = none
pair_up (some high) none rest = none
pair_up none low rest = none

-- `hex.DecodeString`; `none` for a text of odd length, or one with another character.
unfoldable pub decode : Bytes → Option Bytes
unfolding from_hex_digit
decode [] = some []
decode (c ∷ []) = none
decode (c ∷ d ∷ s) = pair_up (from_hex_digit c) (from_hex_digit d) (decode s)

-- The class `[0-9a-f]`.
abbrev pub is_hex : ℕ → Bool
is_hex c = (leb b'0' c && leb c b'9') || (leb b'a' c && leb c b'f')

abbrev pub IsByte : ℕ → Type 0
IsByte b = b < 256

pub from_hex_digit-hex_digit : (n : ℕ) → n < 16 → from_hex_digit (hex_digit n) ≡ some n
unfolding from_hex_digit hex_digit
from_hex_digit-hex_digit n h = ground arith

pub is_hex-hex_digit : (n : ℕ) → n < 16 → is_hex (hex_digit n) ≡ true
unfolding hex_digit
is_hex-hex_digit n h = ground arith

pub decode-encode : (bs : Bytes) → All IsByte bs → decode (encode bs) ≡ some bs
unfolding decode encode
decode-encode [] h = refl
decode-encode (b ∷ bs) h =
    rw
      (
        from_hex_digit-hex_digit (b / 16) (omega arith),
        from_hex_digit-hex_digit (b % 16) (omega arith),
        decode-encode bs h.1,
      )
      (ground arith)

hex_digit-from_hex_digit :
    (c n : ℕ) → is_hex c ≡ true → from_hex_digit c ≡ some n → (hex_digit n ≡ c) × (n < 16)
unfolding from_hex_digit hex_digit
hex_digit-from_hex_digit c n h e = ground arith

pair_up-some :
    (x y : Option ℕ) (z : Option Bytes) (bs : Bytes)
    → pair_up x y z ≡ some bs
    → (high : ℕ) × (low : ℕ) × (rest : Bytes) × (x ≡ some high)
      × (y ≡ some low)
      × (z ≡ some rest)
      × (bs ≡ (high * 16 + low) ∷ rest)
pair_up-some none y z bs e = ground arith
pair_up-some (some high) none z bs e = ground arith
pair_up-some (some high) (some low) none bs e = ground arith
pair_up-some (some high) (some low) (some rest) bs e =
    (high, low, rest, refl, refl, refl, sym (some-injective _ _ e))

encode-pair :
    (high low : ℕ) (rest : Bytes)
    → low < 16
    → encode ((high * 16 + low) ∷ rest) ≡ hex_digit high ∷ hex_digit low ∷ encode rest
unfolding encode
encode-pair high low rest h =
    let e1 : (high * 16 + low) / 16 ≡ high = omega arith in
    let e2 : (high * 16 + low) % 16 ≡ low = omega arith in rw (e1, e2)

-- Decoding a lower-case text and encoding it again gives the text.
pub encode-decode :
    (s bs : Bytes)
    → All (λ c. is_hex c ≡ true) s
    → decode s ≡ some bs
    → (encode bs ≡ s) × All IsByte bs
unfolding decode
encode-decode [] [] h e = (unfold encode in refl, tt)
encode-decode [] (b ∷ bs) h e = ground arith
encode-decode (c ∷ []) bs h e = ground arith
encode-decode (c ∷ d ∷ s) bs (hc, (hd, h)) e =
    let (high, low, rest, ec, ed, es, eb) = pair_up-some _ _ _ bs e in
    let (printed_high, small_high) = hex_digit-from_hex_digit c high hc ec in
    let (printed_low, small_low) = hex_digit-from_hex_digit d low hd ed in
    let (printed, bytes) = encode-decode s rest h es in
    subst (λ l. (encode l ≡ c ∷ d ∷ s) × All IsByte l) (sym eb)
      (
        encode-pair high low rest small_low ∙ ap₂ ◌∷◌ printed_high (ap₂ ◌∷◌ printed_low printed),
        (omega arith, bytes),
      )

-- What `%x` prints are digits of the class.
pub encode-hex : (bs : Bytes) → All IsByte bs → All (λ c. is_hex c ≡ true) (encode bs)
unfolding encode
encode-hex [] h = tt
encode-hex (b ∷ bs) h = (
  is_hex-hex_digit (b / 16) (omega arith),
  (is_hex-hex_digit (b % 16) (omega arith), encode-hex bs h.1),
)
