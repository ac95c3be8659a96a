-- ===== src/Uuid/Commas.antt =====
-- The commas in the variant's class `[8,9,a,b]`.
use juju_utils.Common.{ℕ, zero, suc, ◌≡◌, refl, true, none, [], ◌∷◌, arith, nat_eq}
use juju_utils.Common.Bytes.{Bytes}
use juju_utils.Common.Results.{err}
use juju_utils.GoMap.Keys.{elem}
use juju_utils.Text.Hex.{decode}
use juju_utils.Text.Cut.{remove}
use juju_utils.Uuid.{is_valid_uuid_string, uuid_from_string, bad_hex}

elem-remove : (n : ℕ) (s : Bytes) → elem b',' s ≡ true → elem b',' (remove n b'-' s) ≡ true
unfolding elem remove
elem-remove zero s h = h
elem-remove (suc n) [] h = h
elem-remove (suc n) (c ∷ s) h = ground (arith, elem-remove (suc n) s, elem-remove n s)

decode-comma : (s : Bytes) → elem b',' s ≡ true → decode s ≡ none
unfolding elem decode
decode-comma [] h = ground arith
decode-comma (c ∷ []) h = refl
decode-comma (c ∷ d ∷ s) h = ground (arith, decode-comma s)

-- A string with a comma that `IsValidUUIDString` accepts is no UUID: `UUIDFromString` passes it to
-- the decoder, which fails.
pub comma_is_no_uuid :
    (s : Bytes)
    → is_valid_uuid_string s ≡ true
    → elem b',' s ≡ true
    → uuid_from_string s ≡ err bad_hex
unfolding uuid_from_string
comma_is_no_uuid s v h = rw (v, decode-comma (remove 4 b'-' s) (elem-remove 4 s h))
