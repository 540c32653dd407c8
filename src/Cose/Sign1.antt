-- ===== src/Cose/Sign1.antt =====
-- src/cose/sign1.rs: the preparation, completion and verification of a COSE_Sign1. A builder is the
-- structure that it builds.
use isomdl_elevenid.Common.{Bool, Option, none, some, if◌then◌else◌, Result, ok, err, ◌>>=◌}
use isomdl_elevenid.Session.{Bytes}
use isomdl_elevenid.Cose.{
  Algorithm, AlgorithmLabel, assigned, private_use, text, MaybeTagged, CoseError,
  malformed_signature, VerificationResult, checked, failure, error, algorithm_mismatch,
  exclusive_payload, or_empty, is_mismatch,
}

pub record CoseSign1 (Protected Unprotected : Type 0) : Type 0 where
  pub protected : Protected
  pub unprotected : Unprotected
  pub payload : Option Bytes
  pub signature : Bytes

pub record PreparedCoseSign1 (Protected Unprotected : Type 0) : Type 0 where
  pub cose_sign1 : MaybeTagged (CoseSign1 Protected Unprotected)
  pub signature_payload : Bytes

-- The encoding of coset and a signature algorithm: `sig_structure_data` for the context CoseSign1,
-- `S::try_from`, and the verifier.
pub record Signatures (Protected Signature Verifier : Type 0) : Type 0 where
  pub alg : Protected → Option AlgorithmLabel
  pub sig_structure_data : Protected → Bytes → Bytes → Bytes
  pub signature_try_from : Bytes → Option Signature
  pub algorithm : Verifier → Algorithm
  pub verifies : Verifier → Bytes → Signature → Bool

abbrev pub assigned_algorithm : Option AlgorithmLabel → Option Algorithm
assigned_algorithm none = none
assigned_algorithm (some (private_use n)) = none
assigned_algorithm (some (text name)) = none
assigned_algorithm (some (assigned alg)) = some alg

module _ {Protected Signature Verifier : Type 0}
    (lib : Signatures Protected Signature Verifier) where
  abbrev pub verify_signature : Verifier → Bytes → Option Signature → VerificationResult
  verify_signature verifier bytes none = error malformed_signature
  verify_signature verifier bytes (some signature) = checked (lib.verifies verifier bytes signature)

module _ {Protected Unprotected : Type 0} where
  unfoldable pub finalize_sign1 :
      PreparedCoseSign1 Protected Unprotected
      → Bytes
      → MaybeTagged (CoseSign1 Protected Unprotected)
  finalize_sign1 prepared signature = record prepared.cose_sign1 {
    inner = record prepared.cose_sign1.inner { signature = signature };
  }

module _ {Protected Unprotected Signature Verifier : Type 0}
    (lib : Signatures Protected Signature Verifier) where
  unfoldable pub prepare_sign1 :
      CoseSign1 Protected Unprotected
      → Option Bytes
      → Option Bytes
      → Bool
      → Result CoseError (PreparedCoseSign1 Protected Unprotected)
  prepare_sign1 cose_sign1 detached_payload aad tagged = do
    payload ← exclusive_payload cose_sign1.payload detached_payload
    ok (record {
      cose_sign1 = record { tagged = tagged; inner = cose_sign1 };
      signature_payload = lib.sig_structure_data cose_sign1.protected (or_empty aad) payload;
    })

  unfoldable pub prepared_algorithm : PreparedCoseSign1 Protected Unprotected → Option Algorithm
  prepared_algorithm prepared = assigned_algorithm (lib.alg prepared.cose_sign1.inner.protected)

  abbrev pub verify_payload :
      CoseSign1 Protected Unprotected
      → Verifier
      → Option Bytes
      → Result CoseError Bytes
      → VerificationResult
  verify_payload cose_sign1 verifier aad (err e) = error e
  verify_payload cose_sign1 verifier aad (ok payload) =
      verify_signature lib verifier
        (lib.sig_structure_data cose_sign1.protected (or_empty aad) payload)
        (lib.signature_try_from cose_sign1.signature)

  unfoldable pub verify_sign1 :
      MaybeTagged (CoseSign1 Protected Unprotected)
      → Verifier
      → Option Bytes
      → Option Bytes
      → VerificationResult
  verify_sign1 sign1 verifier detached_payload external_aad =
      if is_mismatch (lib.alg sign1.inner.protected) (lib.algorithm verifier)
      then failure algorithm_mismatch
      else verify_payload sign1.inner verifier external_aad
          (exclusive_payload sign1.inner.payload detached_payload)
