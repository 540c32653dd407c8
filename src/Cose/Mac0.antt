-- ===== src/Cose/Mac0.antt =====
-- src/cose/mac0.rs: the preparation, completion and verification of a COSE_Mac0 with HMAC-SHA-256. A
-- panic is `none`.
use isomdl_elevenid.Common.{
  Bool, [], ◌∷◌, Option, some, if◌then◌else◌, Result, ok, err, ◌>>=◌ as and_then,
}
use isomdl_elevenid.Common.Order.{list_ord, nat_ord, ◌==◌}
use isomdl_elevenid.Session.{Bytes}
use isomdl_elevenid.Session.Sha256.{Words, ◌>>=◌}
use isomdl_elevenid.Session.Hmac.{hmac_sha256_with_scratch}
use isomdl_elevenid.Cose.{
  AlgorithmLabel, hmac_256_256, MaybeTagged, CoseError, VerificationResult, checked, failure, error,
  algorithm_mismatch, exclusive_payload, or_empty, is_mismatch,
}

pub record CoseMac0 (Protected Unprotected : Type 0) : Type 0 where
  pub protected : Protected
  pub unprotected : Unprotected
  pub payload : Option Bytes
  pub tag : Bytes

pub record PreparedCoseMac0 (Protected Unprotected : Type 0) : Type 0 where
  pub cose_mac0 : MaybeTagged (CoseMac0 Protected Unprotected)
  pub tag_payload : Bytes

-- The header of coset, and its encoding `mac_structure_data` for the context CoseMac0.
pub record Macs (Protected : Type 0) : Type 0 where
  pub alg : Protected → Option AlgorithmLabel
  pub mac_structure_data : Protected → Bytes → Bytes → Bytes

module _ {Protected Unprotected : Type 0} where
  unfoldable pub finalize_mac0 :
      PreparedCoseMac0 Protected Unprotected → Bytes → MaybeTagged (CoseMac0 Protected Unprotected)
  finalize_mac0 prepared tag = record prepared.cose_mac0 {
    inner = record prepared.cose_mac0.inner { tag = tag };
  }

module _ {Protected Unprotected : Type 0} (lib : Macs Protected) where
  unfoldable pub prepare_mac0 :
      CoseMac0 Protected Unprotected
      → Option Bytes
      → Option Bytes
      → Bool
      → Result CoseError (PreparedCoseMac0 Protected Unprotected)
  prepare_mac0 cose_mac0 detached_payload aad tagged =
      and_then (exclusive_payload cose_mac0.payload detached_payload) λ payload. ok (record {
        cose_mac0 = record { tagged = tagged; inner = cose_mac0 };
        tag_payload = lib.mac_structure_data cose_mac0.protected (or_empty aad) payload;
      })

module _ (compress256 : Words → Bytes → Words) where
  -- `HmacSha256Key::tag`
  unfoldable pub tag_payload_with : Bytes → Bytes → Option Bytes
  tag_payload_with key payload = do
    (result, output, scratch) ← hmac_sha256_with_scratch compress256 key (payload ∷ []) (ok tt)
    some output

  -- `HmacSha256Key::verify_payload`
  unfoldable pub verify_tag : Bytes → Bytes → Bytes → Option Bool
  verify_tag key payload tag = do
    (result, output, scratch) ← hmac_sha256_with_scratch compress256 key (payload ∷ []) (ok tt)
    some (output == tag)

  module _ {Protected Unprotected : Type 0} (lib : Macs Protected) where
    abbrev pub verify_mac0_payload :
        CoseMac0 Protected Unprotected
        → Bytes
        → Option Bytes
        → Result CoseError Bytes
        → Option VerificationResult
    verify_mac0_payload cose_mac0 key aad (err e) = some (error e)
    verify_mac0_payload cose_mac0 key aad (ok payload) = do
      verified ←
          verify_tag key (lib.mac_structure_data cose_mac0.protected (or_empty aad) payload)
            cose_mac0.tag
      some (checked verified)

    unfoldable pub verify_mac0 :
        MaybeTagged (CoseMac0 Protected Unprotected)
        → Bytes
        → Option Bytes
        → Option Bytes
        → Option VerificationResult
    verify_mac0 mac0 key detached_payload external_aad =
        if is_mismatch (lib.alg mac0.inner.protected) hmac_256_256
        then some (failure algorithm_mismatch)
        else verify_mac0_payload mac0.inner key external_aad
            (exclusive_payload mac0.inner.payload detached_payload)
