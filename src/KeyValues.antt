-- ===== src/KeyValues.antt =====
-- keyvalues/keyvalues.go: `Parse`.
pub mod Entries
pub mod Failures
use juju_utils.Common.{
  ℕ, ◌≡◌, Bool, true, false, ◌&&◌, ◌||◌, not, Option, none, some, List, [], ◌∷◌, ◌++◌, ◌==◌, nat_eq,
  if◌then◌else◌, length, is_some,
}
use juju_utils.Common.Bytes.{Bytes, bytes_eq}
use juju_utils.Common.Results.{Result, ok, err, ◌>>=◌}
use juju_utils.GoMap.{Map, lookup, insert}
use juju_utils.Text.Cut.{split_in_two}

-- The two errors of `Parse`, with the text that the message quotes: an argument that is no
-- `key=value`, and the key of a `DuplicateError`.
pub data ParseError : Type 0 where
  expected_key_value : Bytes → ParseError
  duplicate : Bytes → ParseError

-- The two tests on the parts of one argument.
unfoldable pub check_parts : Bool → Bytes → List Bytes → Result ParseError (Bytes × Bytes)
check_parts allow_empty_values kv (key ∷ value ∷ []) =
    if length key == 0
    then err (expected_key_value kv)
    else if not allow_empty_values && length value == 0
    then err (expected_key_value kv)
    else ok (key, value)
check_parts allow_empty_values kv _ = err (expected_key_value kv)

-- The test for a second value, and the write.
unfoldable pub store : Bytes × Bytes → Map Bytes Bytes → Result ParseError (Map Bytes Bytes)
store (key, value) results =
    if is_some (lookup key results) then err (duplicate key) else ok (insert key value results)

-- One round of the loop.
unfoldable pub parse_one : Bool → Bytes → Map Bytes Bytes → Result ParseError (Map Bytes Bytes)
parse_one allow_empty_values kv results = do
  entry ← check_parts allow_empty_values kv (split_in_two b'=' kv)
  store entry results

unfoldable pub parse_from :
    Bool → List Bytes → Map Bytes Bytes → Result ParseError (Map Bytes Bytes)
parse_from allow_empty_values [] results = ok results
parse_from allow_empty_values (kv ∷ src) results = do
  results' ← parse_one allow_empty_values kv results
  parse_from allow_empty_values src results'

unfoldable pub parse : List Bytes → Bool → Result ParseError (Map Bytes Bytes)
parse src allow_empty_values = parse_from allow_empty_values src []
