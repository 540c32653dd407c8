-- ===== src/Session/Derived.antt =====
-- src/definitions/session.rs: the derivation of a session key from the shared secret and the
-- transcript. The CBOR encoding of the transcript is a parameter.
use isomdl_elevenid.Common.{
  ◌+◌, ◌*◌, ◌<◌, ◌^◌, ◌≡◌, Bool, true, false, [], ◌∷◌, Option, none, some, arith, length, Result,
  ok, err,
}
use isomdl_elevenid.Common.Order.{str}
use mathlib.Core.List.{append-nil}
use isomdl_elevenid.Session.{Bytes}
use isomdl_elevenid.Session.Sha256.{Words, ◌>>=◌, hash_parts}
use isomdl_elevenid.Session.Blocks.{sha256}
use isomdl_elevenid.Session.Parts.{hash_parts-sha256}
use isomdl_elevenid.Session.Hmac.{HkdfScratch, hkdf_sha256_32_with_scratch}
use isomdl_elevenid.Session.Keyed.{
  KeepsEight, hkdf, hkdf_sha256_32_with_scratch-hkdf, sha256-IsByte, length-sha256,
}

pub data DeriveError : Type 0 where
  unserializable_transcript unexpandable_key : DeriveError

abbrev pub session_key_info : Bool → Bytes
session_key_info true = str "SKReader"
session_key_info false = str "SKDevice"

abbrev pub session_key_of :
    Result (Unit {0}) (Unit {0}) × Bytes × HkdfScratch → Result DeriveError Bytes
session_key_of (ok u, okm, scratch) = ok okm
session_key_of (err u, okm, scratch) = err unexpandable_key

module _ {Transcript : Type 0} (to_vec : Transcript → Option Bytes)
    (compress256 : Words → Bytes → Words) where
  abbrev pub derive_from : Bytes → Bool → Option Bytes → Option (Result DeriveError Bytes)
  derive_from shared_secret reader none = some (err unserializable_transcript)
  derive_from shared_secret reader (some transcript) = do
    salt ← hash_parts compress256 (transcript ∷ [])
    expanded ←
        hkdf_sha256_32_with_scratch compress256 shared_secret salt (session_key_info reader) (ok tt)
    some (session_key_of expanded)

  unfoldable pub derive_session_key : Bytes → Transcript → Bool → Option (Result DeriveError Bytes)
  derive_session_key shared_secret session_transcript reader =
      derive_from shared_secret reader (to_vec session_transcript)

  -- For a transcript that is encoded, and a shared secret and an encoding of fewer than 2^60 bytes,
  -- the session key is the HKDF of the shared secret, with the SHA-256 of the encoding as salt and
  -- "SKReader" or "SKDevice" as info; no step fails.
  pub derive_session_key-hkdf :
      KeepsEight compress256
      → (shared_secret : Bytes) (session_transcript : Transcript) (reader : Bool)
        (transcript : Bytes)
      → to_vec session_transcript ≡ some transcript
      → length shared_secret < 2 ^ 60
      → length transcript < 2 ^ 60
      → derive_session_key shared_secret session_transcript reader
        ≡ some (
            ok (
              hkdf compress256 shared_secret
                (sha256 compress256 transcript)
                (session_key_info reader)))
  unfolding derive_session_key
  derive_session_key-hkdf keeps shared_secret session_transcript reader transcript e fits fits' =
      let salt = sha256 compress256 transcript in
      let first =
        hash_parts-sha256 compress256 (transcript ∷ [])
          (rw (append-nil transcript) (omega arith)) in
      let second =
        hkdf_sha256_32_with_scratch-hkdf compress256 keeps shared_secret salt
          (session_key_info reader) (ok tt) (sha256-IsByte compress256 transcript)
          (omega (arith, length-sha256 compress256 keeps transcript)) (omega arith)
          (short_info reader) in
      rw (e, first, append-nil transcript, second)
    where
      short_info : (r : Bool) → (length (session_key_info r) + 65) * 8 < 2 ^ 64
      short_info true = omega arith
      short_info false = omega arith
