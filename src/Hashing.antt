-- ===== src/Hashing.antt =====
-- hash/writer.go, and `ReadSHA256` and `ReadFileSHA256` of trivial.go. `Hash` is what they use of the
-- packages `hash` and `crypto/sha256`.
pub mod Sums
use juju_utils.Common.{ℕ, ◌+◌, ◌≡◌, Option, none, some, List, [], ◌∷◌, ◌++◌, take, length, All}
use juju_utils.Common.Bytes.{Bytes}
use juju_utils.Common.Results.{Result, ok, err}
use juju_utils.Text.Hex.{IsByte}
use juju_utils.Text.Hex
use juju_utils.Text.Base64

-- A running hash. Its sum depends on all that was written, and not on how it was divided.
pub record Hash : Type 1 where
  pub State : Type 0
  pub new : State
  pub write : Bytes → State → State
  pub sum : State → Bytes
  pub write-append : (a b : Bytes) (h : State) → write b (write a h) ≡ write (a ++ b) h
  pub write-empty : (h : State) → write [] h ≡ h
  pub sum-IsByte : (h : State) → All IsByte (sum h)

module _ (hash : Hash) where
  open hash use {State, new, write, sum}

  -- `HashingWriter`, with what its wrapped writer has taken.
  pub record HashingWriter : Type 0 where
    pub wrapped : Bytes
    pub hasher : State

  -- `NewHashingWriter`.
  abbrev pub new_hashing_writer : HashingWriter
  new_hashing_writer = record { wrapped = []; hasher = new }

-- The bytes that a writer takes: all, or some before an error.
abbrev pub accepted : Bytes → Option ℕ → Bytes
accepted bytes none = bytes
accepted bytes (some n) = take n bytes

module _ (hash : Hash) where
  -- `Write`. It returns what the wrapped writer returns.
  unfoldable pub write_both : Bytes → Option ℕ → HashingWriter hash → HashingWriter hash
  write_both bytes short w = record {
    wrapped = w.wrapped ++ accepted bytes short;
    hasher = hash.write bytes w.hasher;
  }

  -- `Sum`, `Base64Sum` and `HexSum`.
  unfoldable pub sum : HashingWriter hash → Bytes
  sum w = hash.sum w.hasher

  unfoldable pub base64_sum : HashingWriter hash → Bytes
  base64_sum w = Base64.encode (hash.sum w.hasher)

  unfoldable pub hex_sum : HashingWriter hash → Bytes
  hex_sum w = Hex.encode (hash.sum w.hasher)

  -- `io.Copy` from a source that gives its bytes in parts.
  abbrev pub copied : List Bytes → hash.State → ℕ → hash.State × ℕ
  copied [] h size = (h, size)
  copied (part ∷ parts) h size = copied parts (hash.write part h) (size + length part)

  abbrev pub digest_and_size : hash.State × ℕ → Bytes × ℕ
  digest_and_size (h, size) = (Hex.encode (hash.sum h), size)

module _ (hash : Hash) {E : Type 0} where
  -- `ReadSHA256`, with the error that ends the source, if it is not io.EOF.
  unfoldable pub read_sha256 : List Bytes → Option E → Result E (Bytes × ℕ)
  read_sha256 parts (some e) = err e
  read_sha256 parts none = ok (digest_and_size hash (copied hash parts hash.new 0))

  -- `ReadFileSHA256`, with the error of opening the file.
  unfoldable pub read_file_sha256 : Option E → List Bytes → Option E → Result E (Bytes × ℕ)
  unfolding read_sha256
  read_file_sha256 (some e) parts ended = err e
  read_file_sha256 none parts ended = read_sha256 parts ended
