-- ===== src/Password/Lengths.antt =====
-- How long passwords are.
use juju_utils.Common.{
  zero, suc, suc, ℕ, ◌%◌, ◌≡◌, refl, arith, ap, ◌∙◌, Bool, false, some, [], ◌∷◌, ◌==◌, take, length,
  length-take, All, if◌then◌else◌, nat_beq,
}
use juju_utils.Common.Bytes.{Bytes, bytes_eq}
use juju_utils.Common.Results.{Result, ok}
use juju_utils.Text.Hex.{IsByte}
use juju_utils.Text.Base64.{
  encode, decode, encoded_len, decode-encode, length-encode, encode_no_padding,
}
use juju_utils.Password.{
  Crypto, printed, random_password_bytes, min_agent_password_length, random_bytes, random_password,
  user_password_hash, agent_password_hash,
}

-- A text without padding, of a given length, that stands for given bytes.
abbrev pub IsPrinted : ℕ → Bytes → Bytes → Type 0
IsPrinted n bytes text =
    (length text ≡ n) × All (λ c. nat_beq c b'=' ≡ false) text × (decode text ≡ some bytes)

encode-IsPrinted :
    (k : ℕ) (bytes : Bytes)
    → length bytes ≡ k
    → k % 3 ≡ 0
    → All IsByte bytes
    → IsPrinted (encoded_len k) bytes (encode bytes)
encode-IsPrinted k bytes h whole small = (
  length-encode bytes ∙ ap encoded_len h,
  encode_no_padding bytes small (omega (arith, h)),
  decode-encode bytes small,
)

take-All : (n : ℕ) (xs : Bytes) → All IsByte xs → All IsByte (take n xs)
take-All zero xs h = tt
take-All (suc n) [] h = tt
take-All (suc n) (x ∷ xs) h = (h.0, take-All n xs h.1)

module _ {E : Type 0} where
  -- If 18 random bytes can be read, `RandomPassword` has the least length of an agent's password, 24,
  -- with no padding, and the bytes can be read back from it, so that other bytes give another password.
  pub random_password-IsPrinted :
      (read : ℕ → Result E Bytes) (bytes : Bytes)
      → read random_password_bytes ≡ ok bytes
      → length bytes ≡ random_password_bytes
      → All IsByte bytes
      → (text : Bytes) × (random_password read ≡ ok text)
        × IsPrinted min_agent_password_length bytes text
  unfolding random_password random_bytes
  random_password-IsPrinted read bytes h n small =
      (encode bytes, ap printed h, encode-IsPrinted 18 bytes n refl small)

module _ (crypto : Crypto) where
  -- Whatever the password and the salt, unless this is empty, both hashes of a password have 24
  -- characters and no padding.
  pub password_hashes-IsPrinted :
      (fast : Bool) (password salt : Bytes)
      → (salt == []) ≡ false
      → ((bytes : Bytes) × (text : Bytes) × (user_password_hash crypto fast password salt
            ≡ some text)
          × IsPrinted 24 bytes text)
        × ((bytes : Bytes) × IsPrinted 24 bytes (agent_password_hash crypto password))
  unfolding user_password_hash agent_password_hash
  password_hashes-IsPrinted fast password salt h =
      let rounds : ℕ = if fast then 1 else 8192 in
      let key : Bytes = crypto.pbkdf2 password salt rounds 18 in
      let digest : Bytes = crypto.sha512 password in
      (
        rw h (
          key,
          encode key,
          refl,
          encode-IsPrinted 18 key (crypto.length-pbkdf2 password salt rounds 18) refl
              (crypto.pbkdf2-IsByte password salt rounds 18),
        ),
        (
          take 18 digest,
          encode-IsPrinted 18 (take 18 digest)
              (length-take 18 digest (omega (arith, crypto.length-sha512 password))) refl
              (take-All 18 digest (crypto.sha512-IsByte password)),
        ),
      )
