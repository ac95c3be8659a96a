-- ===== src/Uuid/Fresh.antt =====
-- What `NewUUID` makes of its random bytes.
use juju_utils.Common.{◌≡◌, true, arith}
use juju_utils.Common.Tables.{version_bits, variant_bits}
use juju_utils.Common.Results.{ok}
use juju_utils.Uuid.{Uuid, string, uuid_from_string, new_uuid}
use juju_utils.Uuid.RoundTrip.{IsArray, is_version4, from_string-string}

new_uuid-IsArray : (u : Uuid) → IsArray u → IsArray (new_uuid u)
unfolding new_uuid
new_uuid-IsArray u h = record {
  bytes1 = h.bytes1;
  bytes2 = h.bytes2;
  bytes3 = omega (arith, version_bits u.b6 h.bytes3.0, h.bytes3);
  bytes4 = omega (arith, variant_bits u.b8 h.bytes4.0, h.bytes4);
  bytes5 = h.bytes5;
}

-- Whatever the random bytes, `NewUUID` returns a version 4 UUID, and what it prints is read back.
pub new_uuid_lem :
    (u : Uuid)
    → IsArray u
    → IsArray (new_uuid u)
      × (is_version4 (new_uuid u) ≡ true)
      × (uuid_from_string (string (new_uuid u)) ≡ ok (new_uuid u))
new_uuid_lem u h =
    let v : is_version4 (new_uuid u) ≡ true =
      unfold new_uuid in
      ground (arith, version_bits u.b6 h.bytes3.0, variant_bits u.b8 h.bytes4.0) in
    (new_uuid-IsArray u h, v, from_string-string (new_uuid u) (new_uuid-IsArray u h) v)
