-- ===== src/Cose/Verified.antt =====
-- src/cose: what is prepared, signed or tagged, and completed is verified over the same bytes.
use mathlib.Core.Path.{subst}
use mathlib.Core.List.{append-nil}
use isomdl_elevenid.Common.{
  ◌<◌, ◌^◌, ◌≡◌, refl, Bool, false, true, [], ◌∷◌, All, Option, none, some, arith, length,
  Bool-cases, inl, inr, Result, ok, err, ok-injective, >>=-eq-ok,
}
use isomdl_elevenid.Common.Order.{list_ord, nat_ord, ◌==◌}
use isomdl_elevenid.Session.{Bytes}
use isomdl_elevenid.Session.Sha256.{Words}
use isomdl_elevenid.Session.Keyed.{KeepsEight, IsByte, hmac, hmac_sha256_with_scratch-hmac}
use isomdl_elevenid.Cose.{
  CoseError, MaybeTagged, success, checked, exclusive_payload, or_empty, is_mismatch, hmac_256_256,
}
use isomdl_elevenid.Cose.Sign1.{
  CoseSign1, PreparedCoseSign1, Signatures, prepare_sign1, finalize_sign1, verify_signature,
  verify_payload, verify_sign1,
}
use isomdl_elevenid.Cose.Mac0.{
  CoseMac0, PreparedCoseMac0, Macs, prepare_mac0, finalize_mac0, verify_tag, verify_mac0,
}

module _ {Protected Unprotected Signature Verifier : Type 0}
    (lib : Signatures Protected Signature Verifier) where
  -- A COSE_Sign1 that was prepared, and completed with a signature, is verified with the same
  -- detached payload and the same additional data exactly where the verifier accepts the signature
  -- over the payload that was handed out for signing, if the header names no other algorithm.
  pub verify_sign1-finalize_sign1 :
      (cose_sign1 : CoseSign1 Protected Unprotected) (detached aad : Option Bytes) (tagged : Bool)
      (prepared : PreparedCoseSign1 Protected Unprotected) (bytes : Bytes) (signature : Signature)
      (verifier : Verifier)
      → prepare_sign1 lib cose_sign1 detached aad tagged ≡ ok prepared
      → lib.signature_try_from bytes ≡ some signature
      → is_mismatch (lib.alg cose_sign1.protected) (lib.algorithm verifier) ≡ false
      → verify_sign1 lib (finalize_sign1 prepared bytes) verifier detached aad
        ≡ checked (lib.verifies verifier prepared.signature_payload signature)
  unfolding prepare_sign1 finalize_sign1 verify_sign1
  verify_sign1-finalize_sign1 cose_sign1 detached aad tagged prepared bytes signature verifier h s
        same =
      let (payload, found, e) = >>=-eq-ok (exclusive_payload cose_sign1.payload detached) _ h in
      let made = ok-injective _ prepared e in rw (← made, same, found, s)

  -- What a successful verification says.
  pub record IsVerified (sign1 : CoseSign1 Protected Unprotected) (verifier : Verifier)
      (detached aad : Option Bytes) : Type 0 where
    pub payload : Bytes
    pub signature : Signature
    pub exclusive : exclusive_payload sign1.payload detached ≡ ok payload
    pub parsed : lib.signature_try_from sign1.signature ≡ some signature
    pub accepted :
        lib.verifies verifier
          (lib.sig_structure_data sign1.protected (or_empty aad) payload)
          signature
        ≡ true
    pub agreed : is_mismatch (lib.alg sign1.protected) (lib.algorithm verifier) ≡ false

  pub verify_sign1-IsVerified :
      (sign1 : MaybeTagged (CoseSign1 Protected Unprotected)) (verifier : Verifier)
      (detached aad : Option Bytes)
      → verify_sign1 lib sign1 verifier detached aad ≡ success
      → IsVerified sign1.inner verifier detached aad
  unfolding verify_sign1
  verify_sign1-IsVerified sign1 verifier detached aad h =
      elim (Bool-cases (is_mismatch (lib.alg sign1.inner.protected) (lib.algorithm verifier))) [
        | inl other ↦ absurd (cc (rw other at h))
        | inr same ↦ go same (exclusive_payload sign1.inner.payload detached) refl (rw same at h)
      ]
    where
      accepted-true : (b : Bool) → checked b ≡ success → b ≡ true
      accepted-true true k = refl
      accepted-true false k = absurd cc

      go :
          is_mismatch (lib.alg sign1.inner.protected) (lib.algorithm verifier) ≡ false
          → (r : Result CoseError Bytes) → exclusive_payload sign1.inner.payload detached ≡ r
          → verify_payload lib sign1.inner verifier aad r ≡ success
          → IsVerified sign1.inner verifier detached aad
      go same (err x) e k = absurd cc
      go same (ok payload) e k = signed (lib.signature_try_from sign1.inner.signature) refl k
        where
          bytes : Bytes
          bytes = lib.sig_structure_data sign1.inner.protected (or_empty aad) payload

          signed :
              (o : Option Signature)
              → lib.signature_try_from sign1.inner.signature ≡ o
              → verify_signature lib verifier bytes o ≡ success
              → IsVerified sign1.inner verifier detached aad
          signed none f k = absurd cc
          signed (some signature) f k = record {
            payload = payload;
            signature = signature;
            exclusive = e;
            parsed = f;
            accepted = accepted-true _ k;
            agreed = same;
          }

module _ (compress256 : Words → Bytes → Words) (keeps : KeepsEight compress256) where
  verify_tag-hmac :
      (key payload tag : Bytes)
      → All IsByte key
      → length key < 2 ^ 60
      → length payload < 2 ^ 60
      → verify_tag compress256 key payload tag ≡ some (hmac compress256 key payload == tag)
  unfolding verify_tag
  verify_tag-hmac key payload tag bytes fits fits' = rw (
    hmac_sha256_with_scratch-hmac compress256 keeps key (payload ∷ []) (ok tt) bytes (omega arith)
        (rw (append-nil payload) (omega arith)),
    append-nil payload,
  )

  module _ {Protected Unprotected : Type 0} (lib : Macs Protected)
      (cose_mac0 : CoseMac0 Protected Unprotected) (detached aad : Option Bytes)
      (tagged : Bool) where
    built : Bytes → PreparedCoseMac0 Protected Unprotected
    built payload = record {
      cose_mac0 = record { tagged = tagged; inner = cose_mac0 };
      tag_payload = lib.mac_structure_data cose_mac0.protected (or_empty aad) payload;
    }

    built-verified :
        (key tag payload : Bytes)
        → exclusive_payload cose_mac0.payload detached ≡ ok payload
        → is_mismatch (lib.alg cose_mac0.protected) hmac_256_256 ≡ false
        → All IsByte key
        → length key < 2 ^ 60
        → length (built payload).tag_payload < 2 ^ 60
        → verify_mac0 compress256 lib (finalize_mac0 (built payload) tag) key detached aad
          ≡ some (checked (hmac compress256 key (built payload).tag_payload == tag))
    unfolding finalize_mac0 verify_mac0 built
    built-verified key tag payload found same bytes fits fits' =
        rw (same, found) (rw (verify_tag-hmac key (built payload).tag_payload tag bytes fits fits'))

    -- A COSE_Mac0 that was prepared, and completed with a tag, is verified with the same detached
    -- payload and the same additional data exactly where the tag is the HMAC, under the same key, of
    -- the payload that was handed out, if the header names no other algorithm and the key and the
    -- payload have fewer than 2^60 bytes.
    pub verify_mac0-finalize_mac0 :
        (prepared : PreparedCoseMac0 Protected Unprotected) (key tag : Bytes)
        → prepare_mac0 lib cose_mac0 detached aad tagged ≡ ok prepared
        → is_mismatch (lib.alg cose_mac0.protected) hmac_256_256 ≡ false
        → All IsByte key
        → length key < 2 ^ 60
        → length prepared.tag_payload < 2 ^ 60
        → verify_mac0 compress256 lib (finalize_mac0 prepared tag) key detached aad
          ≡ some (checked (hmac compress256 key prepared.tag_payload == tag))
    unfolding prepare_mac0 built
    verify_mac0-finalize_mac0 prepared key tag h same bytes fits =
        let (payload, found, e) = >>=-eq-ok (exclusive_payload cose_mac0.payload detached) _ h in
        subst
          (λ p.
            length p.tag_payload < 2 ^ 60
            → verify_mac0 compress256 lib (finalize_mac0 p tag) key detached aad
              ≡ some (checked (hmac compress256 key p.tag_payload == tag)))
          (ok-injective _ prepared e) (built-verified key tag payload found same bytes fits)
