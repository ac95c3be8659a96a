-- ===== src/Hashing/Sums.antt =====
-- The sums are those of all the bytes, however these are divided.
use juju_utils.Common.{
  ℕ, ◌+◌, ◌≡◌, arith, ap, sym, ◌∙◌, none, some, List, [], ◌∷◌, ◌++◌, append_assoc, append-nil,
  length, length-append,
}
use juju_utils.Common.Bytes.{Bytes}
use juju_utils.Common.Results.{ok}
use juju_utils.Text.Hex
use juju_utils.Text.Base64
use juju_utils.Hashing.{
  Hash, HashingWriter, new_hashing_writer, write_both, sum, base64_sum, hex_sum, copied,
  digest_and_size, read_sha256,
}

abbrev pub concat : List Bytes → Bytes
concat [] = []
concat (part ∷ parts) = part ++ concat parts

module _ (hash : Hash) where
  open hash use {State, new, write}

  -- Writes that the wrapped writer takes wholly.
  abbrev pub write_all : List Bytes → HashingWriter hash → HashingWriter hash
  write_all [] w = w
  write_all (part ∷ parts) w = write_all parts (write_both hash part none w)

  write_all_parts :
      (parts : List Bytes) (w : HashingWriter hash)
      → let w' = write_all parts w in
        (w'.wrapped ≡ w.wrapped ++ concat parts) × (w'.hasher ≡ write (concat parts) w.hasher)
  unfolding write_both
  write_all_parts [] w = (sym (append-nil w.wrapped), sym (hash.write-empty w.hasher))
  write_all_parts (part ∷ parts) w =
      let (bytes, hashed) = write_all_parts parts (write_both hash part none w) in
      (
        bytes ∙ append_assoc w.wrapped part (concat parts),
        hashed ∙ hash.write-append part (concat parts) w.hasher,
      )

  -- If the wrapped writer takes every write of a new `HashingWriter` wholly, the sum is the hash of what
  -- it has taken, and this sum is what `Base64Sum` and `HexSum` encode.
  pub sum-write_all :
      (parts : List Bytes)
      → let w = write_all parts (new_hashing_writer hash) in
        (sum hash w ≡ hash.sum (write w.wrapped new))
        × (Base64.decode (base64_sum hash w) ≡ some (sum hash w))
        × (Hex.decode (hex_sum hash w) ≡ some (sum hash w))
  unfolding sum base64_sum hex_sum
  sum-write_all parts =
      let w : HashingWriter hash = write_all parts (new_hashing_writer hash) in
      let (bytes, hashed) = write_all_parts parts (new_hashing_writer hash) in
      (
        ap hash.sum (hashed ∙ ap (λ (b : Bytes). write b new) (sym bytes)),
        Base64.decode-encode (hash.sum w.hasher) (hash.sum-IsByte w.hasher),
        Hex.decode-encode (hash.sum w.hasher) (hash.sum-IsByte w.hasher),
      )

  copied_lem :
      (parts : List Bytes) (h : State) (size : ℕ)
      → copied hash parts h size ≡ (write (concat parts) h, length (concat parts) + size)
  copied_lem [] h size = rw (hash.write-empty h) (ap (λ (n : ℕ). (h, n)) (omega arith))
  copied_lem (part ∷ parts) h size =
      copied_lem parts (write part h) (size + length part)
      ∙ rw (hash.write-append part (concat parts) h) (
          ap (λ (n : ℕ). (write (part ++ concat parts) h, n))
            (omega (arith, length-append part (concat parts))))

  -- However the source divides its bytes, `ReadSHA256` gives the hash of all of them in hexadecimal, and
  -- how many they are.
  pub read_sha256_lem :
      {E : Type 0} (parts : List Bytes)
      → read_sha256 hash {E = E} parts none
        ≡ ok (Hex.encode (hash.sum (write (concat parts) new)), length (concat parts))
  unfolding read_sha256
  read_sha256_lem parts =
      ap (λ r. ok (digest_and_size hash r))
        (copied_lem parts new 0 ∙ ap (λ (n : ℕ). (write (concat parts) new, n)) (omega arith))
