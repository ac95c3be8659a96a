-- ===== src/Examples/Hashes.antt =====
-- Hashes and passwords at concrete inputs, with functions in place of the hash functions.
use juju_utils.Common.{
  ℕ, suc, zero, ◌%◌, ◌<◌, ◌≡◌, refl, arith, false, none, some, List, [], ◌∷◌, ◌++◌, append_assoc,
  append-nil, All, replicate, length, length-replicate,
}
use juju_utils.Common.Bytes.{Bytes, bytes_eq, codes}
use juju_utils.Common.Results.{Result, ok}
use juju_utils.Text.Hex.{IsByte}
use juju_utils.Text.Hex
use juju_utils.Hashing.{Hash, read_sha256}
use juju_utils.Hashing.Sums.{concat, read_sha256_lem}
use juju_utils.Password.{
  Crypto, min_agent_password_length, random_password, user_password_hash, agent_password_hash,
}
use juju_utils.Password.Lengths.{IsPrinted, random_password-IsPrinted, password_hashes-IsPrinted}

pub is_byte_rem : (n : ℕ) → n % 256 < 256
is_byte_rem n = omega arith

-- The hash is the number of bytes.
abbrev pub counting : Hash
counting = record {
  State = Bytes;
  new = [];
  write = λ bytes h. h ++ bytes;
  sum = λ h. length h % 256 ∷ [];
  write-append = λ a b h. append_assoc h a b;
  write-empty = λ h. append-nil h;
  sum-IsByte = λ h. (is_byte_rem (length h), tt);
}

abbrev parts : List Bytes
parts = codes "ab" ∷ [] ∷ codes "c" ∷ []

read_sha256_example :
    read_sha256 counting {E = ℕ} parts none
    ≡ ok (
      Hex.encode (counting.sum (counting.write (concat parts) counting.new)),
      length (concat parts),
    )
read_sha256_example = read_sha256_lem counting parts

replicate-IsByte : (n b : ℕ) → b < 256 → All IsByte (replicate n b)
replicate-IsByte zero b h = tt
replicate-IsByte (suc n) b h = (h, replicate-IsByte n b h)

abbrev sevens : Crypto
sevens = record {
  sha512 = λ s. replicate 64 7;
  length-sha512 = λ s. length-replicate {A = ℕ} 64 7;
  sha512-IsByte = λ s. replicate-IsByte 64 7 (omega arith);
  pbkdf2 = λ p s rounds n. replicate n 7;
  length-pbkdf2 = λ p s rounds n. length-replicate {A = ℕ} n 7;
  pbkdf2-IsByte = λ p s rounds n. replicate-IsByte n 7 (omega arith);
}

abbrev zeros : ℕ → Result ℕ Bytes
zeros n = ok (replicate n 0)

random_password_example :
    (text : Bytes) × (random_password zeros ≡ ok text)
    × IsPrinted min_agent_password_length (replicate 18 0) text
random_password_example =
    random_password-IsPrinted zeros (replicate 18 0) refl refl (replicate-IsByte 18 0 (omega arith))

password_hashes_example :
    ((bytes : Bytes) × (text : Bytes) × (user_password_hash sevens false (codes "p") (codes "s")
        ≡ some text)
      × IsPrinted 24 bytes text)
    × ((bytes : Bytes) × IsPrinted 24 bytes (agent_password_hash sevens (codes "p")))
password_hashes_example = password_hashes-IsPrinted sevens false (codes "p") (codes "s") refl
