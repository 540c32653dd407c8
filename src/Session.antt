-- ===== src/Session.antt =====
-- src/definitions/session.rs: the encryption of session messages under a message counter, and the
-- status codes of a session. AES-256-GCM of `aws-lc-rs` is a parameter.
pub mod Status
pub mod Nonce
pub mod Channel
pub mod Sha256
pub mod Blocks
pub mod Absorbed
pub mod Hashed
pub mod Finished
pub mod Parts
pub mod Hmac
pub mod Keyed
pub mod Derived
pub mod Example
mod Tests
use isomdl_elevenid.Common.{
  ℕ, ◌+◌, ◌/◌, ◌%◌, ◌^◌, ◌≡◌, Bool, true, false, List, [], ◌∷◌, ◌++◌, Option, none, some, ltb,
  if◌then◌else◌, take, Result, ok, err, ◌>>=◌, ok_or,
}

abbrev pub Bytes : Type 0
Bytes = List ℕ

-- `aes_gcm::Error`
pub data AeadError : Type 0 where
  aead_error : AeadError

-- The AES-256-GCM key of the backend: `UnboundKey::new`, `seal_in_place_append_tag`, and
-- `open_in_place`, which gives the buffer it has written and the length of the plaintext in it.
pub record Aead (Key : Type 0) : Type 0 where
  pub unbound_key : Bytes → Option Key
  pub seal_in_place : Key → Bytes → Bytes → Option Bytes
  pub open_in_place : Key → Bytes → Bytes → Option (Bytes × ℕ)

-- What is sealed under a key and a nonce is opened by the same key and nonce.
abbrev pub OpensSealed : {Key : Type 0} → Aead Key → Type 0
OpensSealed {Key} lib =
    (key : Key) (nonce plaintext ciphertext : Bytes)
    → lib.seal_in_place key nonce plaintext ≡ some ciphertext
    → (buffer : Bytes) × (len : ℕ) × (lib.open_in_place key nonce ciphertext ≡ some (buffer, len))
      × (take len buffer ≡ plaintext)

-- `u32::to_be_bytes`
abbrev pub be_bytes32 : ℕ → Bytes
be_bytes32 n = n / 2 ^ 24 % 256 ∷ n / 2 ^ 16 % 256 ∷ n / 2 ^ 8 % 256 ∷ n % 256 ∷ []

abbrev pub identifier : Bool → Bytes
identifier true = 0 ∷ 0 ∷ 0 ∷ 0 ∷ 0 ∷ 0 ∷ 0 ∷ 0 ∷ []
identifier false = 0 ∷ 0 ∷ 0 ∷ 0 ∷ 0 ∷ 0 ∷ 0 ∷ 1 ∷ []

-- The new value of `*message_count` is the second part of the result.
unfoldable pub get_initialization_vector : ℕ → Bool → Result AeadError Bytes × ℕ
get_initialization_vector message_count reader =
    if ltb (message_count + 1) (2 ^ 32)
    then (ok (identifier reader ++ be_bytes32 (message_count + 1)), message_count + 1)
    else (err aead_error, message_count)

-- `*message_count = previous_message_count` on an error of the backend.
abbrev pub keep_or_restore {ℓ} : {A : Type ℓ} → Result AeadError A → ℕ → ℕ → Result AeadError A × ℕ
keep_or_restore (ok a) previous count = (ok a, count)
keep_or_restore (err e) previous count = (err e, previous)

module _ {Key : Type 0} (lib : Aead Key) where
  new_key : Bytes → Result AeadError Key
  new_key key_bytes = ok_or (lib.unbound_key key_bytes) aead_error

  seal : Key → Bytes → Bytes → Result AeadError Bytes
  seal key nonce plaintext = ok_or (lib.seal_in_place key nonce plaintext) aead_error

  -- The buffer, truncated to the length of the plaintext.
  open_with : Key → Bytes → Bytes → Result AeadError Bytes
  open_with key nonce ciphertext = do
    (buffer, len) ← ok_or (lib.open_in_place key nonce ciphertext) aead_error
    ok (take len buffer)

  unfoldable pub encrypt_with_backend : Bytes → Bytes → Bytes → Result AeadError Bytes
  unfolding new_key seal
  encrypt_with_backend session_key nonce plaintext = do
    key ← new_key session_key
    seal key nonce plaintext

  unfoldable pub decrypt_with_backend : Bytes → Bytes → Bytes → Result AeadError Bytes
  unfolding new_key open_with
  decrypt_with_backend session_key nonce ciphertext = do
    key ← new_key session_key
    open_with key nonce ciphertext

  encrypt_under : Bytes → Bytes → ℕ → Result AeadError Bytes × ℕ → Result AeadError Bytes × ℕ
  encrypt_under session_key plaintext previous (err e, count) = (err e, count)
  encrypt_under session_key plaintext previous (ok nonce, count) =
      keep_or_restore (encrypt_with_backend session_key nonce plaintext) previous count

  unfoldable pub encrypt : Bytes → Bytes → ℕ → Bool → Result AeadError Bytes × ℕ
  unfolding encrypt_under
  encrypt session_key plaintext message_count reader =
      encrypt_under session_key plaintext message_count
        (get_initialization_vector message_count reader)

  decrypt_under : Bytes → Bytes → ℕ → Result AeadError Bytes × ℕ → Result AeadError Bytes × ℕ
  decrypt_under session_key ciphertext previous (err e, count) = (err e, count)
  decrypt_under session_key ciphertext previous (ok nonce, count) =
      keep_or_restore (decrypt_with_backend session_key nonce ciphertext) previous count

  unfoldable pub decrypt : Bytes → Bytes → ℕ → Bool → Result AeadError Bytes × ℕ
  unfolding decrypt_under
  decrypt session_key ciphertext message_count reader =
      decrypt_under session_key ciphertext message_count
        (get_initialization_vector message_count reader)

  unfoldable pub encrypt_device_data : Bytes → Bytes → ℕ → Result AeadError Bytes × ℕ
  encrypt_device_data sk_device plaintext message_count =
      encrypt sk_device plaintext message_count false

  unfoldable pub encrypt_reader_data : Bytes → Bytes → ℕ → Result AeadError Bytes × ℕ
  encrypt_reader_data sk_reader plaintext message_count =
      encrypt sk_reader plaintext message_count true

  unfoldable pub decrypt_device_data : Bytes → Bytes → ℕ → Result AeadError Bytes × ℕ
  decrypt_device_data sk_device ciphertext message_count =
      decrypt sk_device ciphertext message_count false

  unfoldable pub decrypt_reader_data : Bytes → Bytes → ℕ → Result AeadError Bytes × ℕ
  decrypt_reader_data sk_reader ciphertext message_count =
      decrypt sk_reader ciphertext message_count true
