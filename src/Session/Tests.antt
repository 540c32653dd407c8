-- ===== src/Session/Tests.antt =====
-- Runs of the session's encryption over a small stand-in for the AEAD, and the theorems at inputs.
use isomdl_elevenid.Session.Example.{toy_compress, toy_compress-KeepsEight}
use isomdl_elevenid.Common.{
  take-append, ℕ, ◌-◌, ◌^◌, ◌≡◌, refl, true, false, List, [], ◌∷◌, ◌++◌, arith, length, Option,
  none, some, ok, err, ◌↔◌, replicate,
}
use isomdl_elevenid.Session.{
  Bytes, aead_error, Aead, OpensSealed, get_initialization_vector, encrypt, encrypt_with_backend,
  encrypt_reader_data,
}
use isomdl_elevenid.Session.Sha256.{hash_parts}
use isomdl_elevenid.Session.Blocks.{sha256, concat}
use isomdl_elevenid.Session.Parts.{hash_parts-sha256}
use isomdl_elevenid.Session.Hmac.{hkdf_wiped, hkdf_sha256_32_with_scratch}
use isomdl_elevenid.Session.Keyed.{hkdf, hkdf_sha256_32_with_scratch-hkdf}
use isomdl_elevenid.Session.Derived.{session_key_info, derive_session_key, derive_session_key-hkdf}
use isomdl_elevenid.Session.Nonce.{sent_nonces}
use isomdl_elevenid.Session.Channel.{encrypt_all, decrypt_all, decrypt_all-encrypt_all}
use isomdl_elevenid.Session.Status.{
  session_termination, session_status_code, session_status_of_code, general_error,
  response_status_code, response_status_of_code, status_of_code_iff,
}

-- It puts a tag in front of the message, refuses the empty message, and opens into a buffer that
-- still holds the tag behind the plaintext.
abbrev toy_seal : Bytes → Option Bytes
toy_seal [] = none
toy_seal (b ∷ bs) = some (99 ∷ b ∷ bs)

abbrev toy_open : Bytes → Option (Bytes × ℕ)
toy_open [] = none
toy_open (t ∷ bs) = some (bs ++ t ∷ [], length bs)

abbrev toy : Aead (Unit {0})
toy = record {
  unbound_key = λ k. some tt;
  seal_in_place = λ key nonce plaintext. toy_seal plaintext;
  open_in_place = λ key nonce ciphertext. toy_open ciphertext;
}

toy-OpensSealed : OpensSealed toy
toy-OpensSealed key nonce [] ciphertext h = absurd (cc)
toy-OpensSealed key nonce (b ∷ bs) ciphertext h =
    ((b ∷ bs) ++ 99 ∷ [], length (b ∷ bs), ground arith, take-append (b ∷ bs) (99 ∷ []))

abbrev messages : List Bytes
messages = (1 ∷ 2 ∷ []) ∷ [] ∷ (3 ∷ []) ∷ []

sealed_nonces :
    sent_nonces toy [] false messages 6
    ≡ (0 ∷ 0 ∷ 0 ∷ 0 ∷ 0 ∷ 0 ∷ 0 ∷ 1 ∷ 0 ∷ 0 ∷ 0 ∷ 7 ∷ [])
      ∷ (0 ∷ 0 ∷ 0 ∷ 0 ∷ 0 ∷ 0 ∷ 0 ∷ 1 ∷ 0 ∷ 0 ∷ 0 ∷ 8 ∷ [])
      ∷ []
unfolding sent_nonces encrypt encrypt_with_backend get_initialization_vector
sealed_nonces = refl

exhausted : encrypt_reader_data toy [] (1 ∷ []) (2 ^ 32 - 1) ≡ (err aead_error, 2 ^ 32 - 1)
unfolding encrypt_reader_data encrypt get_initialization_vector
exhausted = refl

abbrev first_nonce : Bytes
first_nonce = 0 ∷ 0 ∷ 0 ∷ 0 ∷ 0 ∷ 0 ∷ 0 ∷ 0 ∷ 0 ∷ 0 ∷ 1 ∷ 1 ∷ []

abbrev plain : List Bytes
plain = (1 ∷ []) ∷ (2 ∷ 3 ∷ []) ∷ []

abbrev sealed : List Bytes
sealed = (99 ∷ 1 ∷ []) ∷ (99 ∷ 2 ∷ 3 ∷ []) ∷ []

decrypt_all-encrypt_all_example : decrypt_all toy [] true sealed 3 ≡ ok plain
unfolding encrypt_all encrypt encrypt_with_backend get_initialization_vector
decrypt_all-encrypt_all_example =
    decrypt_all-encrypt_all toy [] toy-OpensSealed true plain sealed 3 refl

status_of_code_iff_example :
    ((session_status_of_code 20 ≡ ok session_termination)
      ↔ (session_status_code session_termination ≡ 20))
    × ((response_status_of_code 20 ≡ ok general_error) ↔ (response_status_code general_error ≡ 20))
status_of_code_iff_example = status_of_code_iff 20 session_termination general_error

-- A part of 60 bytes and one of 10: the block boundary lies inside the second.
abbrev two_parts : List Bytes
two_parts = replicate 60 7 ∷ replicate 10 8 ∷ []

hash_parts-sha256_example :
    hash_parts toy_compress two_parts ≡ some (sha256 toy_compress (concat two_parts))
hash_parts-sha256_example = hash_parts-sha256 toy_compress two_parts (omega arith)

hkdf_sha256_32_with_scratch-hkdf_example :
    hkdf_sha256_32_with_scratch toy_compress (1 ∷ []) (2 ∷ []) (3 ∷ []) (ok tt)
    ≡ some (ok tt, hkdf toy_compress (1 ∷ []) (2 ∷ []) (3 ∷ []), hkdf_wiped)
hkdf_sha256_32_with_scratch-hkdf_example =
    hkdf_sha256_32_with_scratch-hkdf toy_compress toy_compress-KeepsEight (1 ∷ []) (2 ∷ []) (3 ∷ [])
      (ok tt) (omega arith) (omega arith) (omega arith) (omega arith)

-- A transcript that is its own encoding.
derive_session_key-hkdf_example :
    derive_session_key some toy_compress (5 ∷ 6 ∷ []) (7 ∷ 8 ∷ 9 ∷ []) true
    ≡ some (
        ok (
          hkdf toy_compress
            (5 ∷ 6 ∷ [])
            (sha256 toy_compress (7 ∷ 8 ∷ 9 ∷ []))
            (session_key_info true)))
derive_session_key-hkdf_example =
    derive_session_key-hkdf some toy_compress toy_compress-KeepsEight (5 ∷ 6 ∷ []) (7 ∷ 8 ∷ 9 ∷ [])
      true (7 ∷ 8 ∷ 9 ∷ []) refl (omega arith) (omega arith)
