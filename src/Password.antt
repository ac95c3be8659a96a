-- ===== src/Password.antt =====
-- password.go. `Crypto` is what it uses of crypto/sha512 and golang.org/x/crypto/pbkdf2.
pub mod Lengths
use juju_utils.Common.{
  ℕ, ◌≤◌, ◌≡◌, Bool, true, Option, none, some, List, [], ◌∷◌, take, length, All, if◌then◌else◌,
  ◌==◌,
}
use juju_utils.Common.Bytes.{Bytes, bytes_eq}
use juju_utils.Common.Results.{Result, ok, err}
use juju_utils.Text.Hex.{IsByte}
use juju_utils.Text.Base64.{encode, encoded_len}

pub record Crypto : Type 0 where
  pub sha512 : Bytes → Bytes
  pub length-sha512 : (s : Bytes) → length (sha512 s) ≡ 64
  pub sha512-IsByte : (s : Bytes) → All IsByte (sha512 s)
  -- The password, the salt, the number of rounds and the length of the key.
  pub pbkdf2 : Bytes → Bytes → ℕ → ℕ → Bytes
  pub length-pbkdf2 : (p s : Bytes) (rounds n : ℕ) → length (pbkdf2 p s rounds n) ≡ n
  pub pbkdf2-IsByte : (p s : Bytes) (rounds n : ℕ) → All IsByte (pbkdf2 p s rounds n)

abbrev pub random_password_bytes : ℕ
random_password_bytes = 18

abbrev pub min_agent_password_length : ℕ
min_agent_password_length = encoded_len random_password_bytes

abbrev pub printed {ℓ} : {E : Type ℓ} → Result E Bytes → Result E Bytes
printed (err e) = err e
printed (ok bytes) = ok (encode bytes)

module _ {E : Type 0} where
  -- `RandomBytes`, where `read n` is what `io.ReadFull` reads into `n` bytes.
  unfoldable pub random_bytes : (ℕ → Result E Bytes) → ℕ → Result E Bytes
  random_bytes read n = read n

  -- `RandomPassword`.
  unfoldable pub random_password : (ℕ → Result E Bytes) → Result E Bytes
  unfolding random_bytes
  random_password read = printed (random_bytes read random_password_bytes)

  -- `RandomSalt`.
  unfoldable pub random_salt : (ℕ → Result E Bytes) → Result E Bytes
  unfolding random_bytes
  random_salt read = printed (random_bytes read 12)

module _ (crypto : Crypto) where
  -- `UserPasswordHash`, given `FastInsecureHash`; it panics for an empty salt.
  unfoldable pub user_password_hash : Bool → Bytes → Bytes → Option Bytes
  user_password_hash fast password salt =
      if salt == []
      then none
      else some (encode (crypto.pbkdf2 password salt (if fast then 1 else 8192) 18))

  -- `AgentPasswordHash`.
  unfoldable pub agent_password_hash : Bytes → Bytes
  agent_password_hash password = encode (take 18 (crypto.sha512 password))
