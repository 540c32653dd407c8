-- ===== src/Reader/Authentic.antt =====
-- src/presentation/reader.rs, reader_utils.rs and authentication/mdoc.rs: what stands behind a response
-- that is reported as authentic.
use isomdl_elevenid.Common.{
  ok_or-eq-ok, ◌≡◌, refl, sym, ◌∙◌, List, [], ◌∷◌, none, some, Result, ok, err, >>=-eq-ok, ok_or,
}
use isomdl_elevenid.Common.Order.{Str}
use isomdl_elevenid.Common.Map.{Map}
use isomdl_elevenid.Session.{Bytes}
use isomdl_elevenid.Cose.{VerificationResult, success, failure, error, MaybeTagged}
use isomdl_elevenid.Cose.Sign1.{CoseSign1, Signatures, verify_sign1}
use isomdl_elevenid.Cose.Verified.{IsVerified, verify_sign1-IsVerified}
use isomdl_elevenid.DeviceKey.CoseKey.{CoseKey}
use isomdl_elevenid.Device.ReaderAuth.{valid}
use isomdl_elevenid.X509.{CertificateLib, TrustAnchorRegistry, ValidationError}
use isomdl_elevenid.X509.Validation.{mdl, validate, public_key_with_oid, secp_256_r_1}
use isomdl_elevenid.X509.Chain.{X5Chain}
use isomdl_elevenid.X509.Trusted.{IsTrusted, validate-IsTrusted}
use isomdl_elevenid.Reader.{
  Unprotected, IssuerAuth, DeviceAuth, device_signature, device_mac, Document, Authenticator,
}
use isomdl_elevenid.Reader.Json.{Json}
use isomdl_elevenid.Reader.Authentication.{
  AuthError, issuer_authentication_failed, device_signature_failed, into_result,
  issuer_authentication, verify_device_auth, verifier_of, verify_device_authentication_payload,
  device_payload, device_authentication,
}
use isomdl_elevenid.Reader.Manager.{
  ResponseAuthenticationOutcome, status_of, with_issuer, validate_response,
}

into_result-success :
    (wrap : VerificationResult → AuthError) (r : VerificationResult) (u : Unit {0})
    → into_result wrap r ≡ ok u
    → r ≡ success
into_result-success wrap success u h = refl
into_result-success wrap (failure reason) u h = absurd cc
into_result-success wrap (error e) u h = absurd cc

status_of-valid : (r : Result AuthError (Unit {0})) → status_of r ≡ valid → r ≡ ok tt
status_of-valid (ok u) h = refl
status_of-valid (err e) h = absurd cc

module _ {Protected Signature Verifier : Type 0}
    (lib : Signatures Protected Signature Verifier) where
  -- The signature of the issuer is verified with the key of the end-entity certificate.
  pub record IsIssued {CertSignature : Type 0}
      (certificates : CertificateLib Verifier CertSignature) (x5chain : X5Chain)
      (issuer_auth : IssuerAuth Protected) : Type 0 where
    pub issuer_key : Verifier
    pub certified :
        public_key_with_oid certificates x5chain.end_entity.inner secp_256_r_1 ≡ some issuer_key
    pub verified : IsVerified lib issuer_auth.inner issuer_key none none

  issuer_authentication-IsIssued :
      {CertSignature : Type 0} (certificates : CertificateLib Verifier CertSignature)
      (x5chain : X5Chain) (issuer_auth : IssuerAuth Protected)
      → issuer_authentication lib certificates x5chain issuer_auth ≡ ok tt
      → IsIssued certificates x5chain issuer_auth
  unfolding issuer_authentication
  issuer_authentication-IsIssued certificates x5chain issuer_auth h =
      let (key, found, h₁) =
        >>=-eq-ok (ok_or (public_key_with_oid certificates x5chain.end_entity.inner secp_256_r_1) _)
          _ h in
      record {
        issuer_key = key;
        certified = ok_or-eq-ok _ _ _ found;
        verified =
            verify_sign1-IsVerified lib issuer_auth key none none
              (into_result-success issuer_authentication_failed _ tt h₁);
      }

  module _ {Namespaces Transcript Point : Type 0}
      (auth : Authenticator Protected Namespaces Transcript Point Verifier) where
    -- The device has signed the transcript, the document type and its namespaces with the device key of
    -- the MSO.
    pub record IsDevice (document : Document Protected Namespaces) (session_transcript : Transcript)
        : Type 0 where
      pub mso_bytes : Bytes
      pub device_key : CoseKey
      pub verifier : Verifier
      pub payload : Bytes
      pub sign1 : MaybeTagged (CoseSign1 Protected Unprotected)
      pub attached : document.issuer_auth.inner.payload ≡ some mso_bytes
      pub keyed : auth.mso_device_key mso_bytes ≡ some device_key
      pub decoded : verifier_of lib auth device_key ≡ ok verifier
      pub encoded : device_payload lib auth document session_transcript ≡ ok payload
      pub signed : document.device_auth.device_auth ≡ device_signature sign1
      pub verified : IsVerified lib sign1.inner verifier (some payload) none

    device_authentication-IsDevice :
        (document : Document Protected Namespaces) (session_transcript : Transcript)
        → device_authentication lib auth document session_transcript ≡ ok tt
        → IsDevice document session_transcript
    unfolding device_authentication verify_device_authentication_payload
    device_authentication-IsDevice document session_transcript h =
        let (payload, encoded, h₁) =
          >>=-eq-ok (device_payload lib auth document session_transcript) _ h in
        let (mso_bytes, attached, h₂) =
          >>=-eq-ok (ok_or document.issuer_auth.inner.payload _) _ h₁ in
        let (device_key, keyed, h₃) = >>=-eq-ok (ok_or (auth.mso_device_key mso_bytes) _) _ h₂ in
        let (verifier, decoded, h₄) = >>=-eq-ok (verifier_of lib auth device_key) _ h₃ in
        go payload encoded mso_bytes (ok_or-eq-ok _ _ _ attached) device_key
          (ok_or-eq-ok _ _ _ keyed) verifier decoded document.device_auth.device_auth refl h₄
      where
        go :
            (payload : Bytes)
            → device_payload lib auth document session_transcript ≡ ok payload
            → (mso_bytes : Bytes) → document.issuer_auth.inner.payload ≡ some mso_bytes
            → (device_key : CoseKey) → auth.mso_device_key mso_bytes ≡ some device_key
            → (verifier : Verifier) → verifier_of lib auth device_key ≡ ok verifier
            → (device_auth : DeviceAuth Protected) → document.device_auth.device_auth ≡ device_auth
            → verify_device_auth lib verifier payload device_auth ≡ ok tt
            → IsDevice document session_transcript
        go p e m a k f v d (device_mac mac0) s h = absurd cc
        go p e m a k f v d (device_signature sign1) s h = record {
          mso_bytes = m;
          device_key = k;
          verifier = v;
          payload = p;
          sign1 = sign1;
          attached = a;
          keyed = f;
          decoded = d;
          encoded = e;
          signed = s;
          verified = verify_sign1-IsVerified lib sign1 v (some p) none (
              into_result-success device_signature_failed (verify_sign1 lib sign1 v (some p) none)
                tt h);
        }

module _ {Protected Namespaces Transcript Point Signature Verifier CertSignature : Type 0}
    (lib : Signatures Protected Signature Verifier)
    (auth : Authenticator Protected Namespaces Transcript Point Verifier)
    (certificates : CertificateLib Verifier CertSignature) where
  -- The checks of a document that is valid on both counts.
  pub record IsChecked (session_transcript : Transcript) (registry : TrustAnchorRegistry)
      (x5chain : X5Chain) (document : Document Protected Namespaces) : Type 0 where
    pub trusted : IsTrusted certificates x5chain.end_entity.inner registry
    pub issued : IsIssued lib certificates x5chain document.issuer_auth
    pub device : IsDevice lib auth document session_transcript

  pub validate_response-IsChecked :
      (session_transcript : Transcript) (registry : TrustAnchorRegistry) (x5chain : X5Chain)
      (document : Document Protected Namespaces) (namespaces : Map Str Json)
      → (validate_response lib auth certificates session_transcript registry x5chain document
          namespaces).issuer_authentication
        ≡ valid
      → (validate_response lib auth certificates session_transcript registry x5chain document
          namespaces).device_authentication
        ≡ valid
      → IsChecked session_transcript registry x5chain document
        × ((validate_response lib auth certificates session_transcript registry x5chain document
              namespaces).response
            ≡ namespaces)
  unfolding validate_response
  validate_response-IsChecked session_transcript registry x5chain document namespaces h k =
      go (validate certificates mdl x5chain.end_entity.inner registry) refl _ refl h k
    where
      go :
          (errors : List ValidationError)
          → validate certificates mdl x5chain.end_entity.inner registry ≡ errors
          → (outcome : ResponseAuthenticationOutcome)
          → outcome.device_authentication
            ≡ status_of (device_authentication lib auth document session_transcript)
          → (with_issuer lib auth certificates errors x5chain document
              outcome).issuer_authentication
            ≡ valid
          → (with_issuer lib auth certificates errors x5chain document
              outcome).device_authentication
            ≡ valid
          → IsChecked session_transcript registry x5chain document
            × ((with_issuer lib auth certificates errors x5chain document outcome).response
                ≡ outcome.response)
      go [] e outcome d h k = (
        record {
          trusted = validate-IsTrusted certificates x5chain.end_entity.inner registry e;
          issued =
              issuer_authentication-IsIssued lib certificates x5chain document.issuer_auth
                (status_of-valid _ h);
          device =
              device_authentication-IsDevice lib auth document session_transcript
                (status_of-valid _ (sym d ∙ k));
        },
        refl,
      )
      go (x ∷ xs) e outcome d h k = absurd cc
