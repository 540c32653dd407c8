-- ===== src/Reader/Authentication.antt =====
-- src/presentation/authentication/mdoc.rs: the authentication of the issuer and of the device.
use isomdl_elevenid.Common.{
  ℕ, ◌+◌, ◌/◌, ◌%◌, [], ◌∷◌, ◌++◌, none, some, length, ltb, if◌then◌else◌, Result, ok, err, ◌>>=◌,
  ◌>>◌, fail_if, not, ok_or, map_err,
}
use isomdl_elevenid.Common.Order.{Str, str}
use isomdl_elevenid.Session.{Bytes, be_bytes32}
use isomdl_elevenid.Session.Sha256.{be_bytes64}
use isomdl_elevenid.Cose.{VerificationResult, success, failure, error}
use isomdl_elevenid.Cose.Sign1.{Signatures, verify_sign1}
use isomdl_elevenid.DeviceKey.CoseKey.{CoseKey, ec2, okp, CoseKeyError, encoded_point}
use isomdl_elevenid.X509.{CertificateLib}
use isomdl_elevenid.X509.Validation.{public_key_with_oid, secp_256_r_1}
use isomdl_elevenid.X509.Chain.{X5Chain}
use isomdl_elevenid.Reader.{
  IssuerAuth, DeviceAuth, device_signature, device_mac, Document, Authenticator,
}

-- `authentication::Error`; the messages of `MdocAuth` are data.
pub data AuthError : Type 0 where
  detached_issuer_auth mso_parsing auth_cbor_decoding unsupported issuer_public_key : AuthError
  invalid_device_key : CoseKeyError → AuthError
  invalid_point unsupported_device_key_type : AuthError
  device_signature_failed issuer_authentication_failed : VerificationResult → AuthError

-- `VerificationResult::into_result`, with the error that is made of its message.
abbrev pub into_result :
    (VerificationResult → AuthError) → VerificationResult → Result AuthError (Unit {0})
into_result wrap success = ok tt
into_result wrap (failure reason) = err (wrap (failure reason))
into_result wrap (error e) = err (wrap (error e))

module _ {Protected Signature Verifier : Type 0}
    (lib : Signatures Protected Signature Verifier) where
  unfoldable pub issuer_authentication :
      {CertSignature : Type 0}
      → CertificateLib Verifier CertSignature
      → X5Chain
      → IssuerAuth Protected
      → Result AuthError (Unit {0})
  issuer_authentication certificates x5chain issuer_auth = do
    signer_key ←
        ok_or (public_key_with_oid certificates x5chain.end_entity.inner secp_256_r_1)
          issuer_public_key
    into_result issuer_authentication_failed (verify_sign1 lib issuer_auth signer_key none none)

  abbrev pub verify_device_auth :
      Verifier → Bytes → DeviceAuth Protected → Result AuthError (Unit {0})
  verify_device_auth verifying_key cbor_payload (device_signature sign1) =
      into_result device_signature_failed
        (verify_sign1 lib sign1 verifying_key (some cbor_payload) none)
  verify_device_auth verifying_key cbor_payload (device_mac mac0) = err unsupported

  module _ {Namespaces Transcript Point : Type 0}
      (auth : Authenticator Protected Namespaces Transcript Point Verifier) where
    abbrev pub verifier_of : CoseKey → Result AuthError Verifier
    verifier_of (ec2 crv x y) = do
      point ← map_err invalid_device_key (encoded_point auth.point_from_bytes (ec2 crv x y))
      ok_or (auth.verifier_from_point point) invalid_point
    verifier_of (okp crv x) = err unsupported_device_key_type

    unfoldable pub verify_device_authentication_payload :
        Document Protected Namespaces → Bytes → Result AuthError (Unit {0})
    verify_device_authentication_payload document cbor_payload = do
      mso_bytes ← ok_or document.issuer_auth.inner.payload detached_issuer_auth
      device_key ← ok_or (auth.mso_device_key mso_bytes) mso_parsing
      verifying_key ← verifier_of device_key
      verify_device_auth verifying_key cbor_payload document.device_auth.device_auth

    unfoldable pub device_payload :
        Document Protected Namespaces → Transcript → Result AuthError Bytes
    device_payload document session_transcript = do
      detached_payload ←
          ok_or
            (auth.device_authentication session_transcript document.doc_type
              document.device_auth.namespaces)
            auth_cbor_decoding
      ok_or (auth.payload_to_vec detached_payload) auth_cbor_decoding

    unfoldable pub device_authentication :
        Document Protected Namespaces → Transcript → Result AuthError (Unit {0})
    unfolding device_payload verify_device_authentication_payload
    device_authentication document session_transcript = do
      cbor_payload ← device_payload document session_transcript
      verify_device_authentication_payload document cbor_payload

-- The header of a byte string in CBOR; the length is a `usize` of 64 bits.
unfoldable pub byte_string_header : ℕ → Bytes
byte_string_header len =
    if ltb len 24
    then (64 + len) ∷ []
    else if ltb len 256
    then 0x58 ∷ len ∷ []
    else if ltb len 65536
    then 0x59 ∷ len / 256 ∷ len % 256 ∷ []
    else if ltb len 4294967296
    then 0x5a ∷ be_bytes32 len
    else 0x5b ∷ be_bytes64 len

module _ {Protected Namespaces Transcript Point Verifier : Type 0}
    (auth : Authenticator Protected Namespaces Transcript Point Verifier) where
  unfoldable pub raw_device_authentication_payload :
      Bytes → Str → Namespaces → Result AuthError Bytes
  raw_device_authentication_payload session_transcript_cbor doc_type namespaces = do
    name ← ok_or (auth.text_to_vec (str "DeviceAuthentication")) auth_cbor_decoding
    doc_type_bytes ← ok_or (auth.text_to_vec doc_type) auth_cbor_decoding
    namespaces_bytes ← ok_or (auth.namespaces_to_vec namespaces) auth_cbor_decoding
    let device_authentication =
        0x84 ∷ (name ++ (session_transcript_cbor ++ (doc_type_bytes ++ namespaces_bytes)))
    ok (0xd8 ∷ 0x18 ∷ (byte_string_header (length device_authentication) ++ device_authentication))

  unfoldable pub device_authentication_with_raw_session_transcript :
      {Signature : Type 0}
      → Signatures Protected Signature Verifier
      → Document Protected Namespaces
      → Bytes
      → Result AuthError (Unit {0})
  unfolding raw_device_authentication_payload
  device_authentication_with_raw_session_transcript lib document session_transcript_cbor = do
    fail_if (not (auth.is_cbor session_transcript_cbor)) auth_cbor_decoding
    cbor_payload ←
        raw_device_authentication_payload session_transcript_cbor document.doc_type
          document.device_auth.namespaces
    verify_device_authentication_payload lib auth document cbor_payload
