-- ===== src/Reader/Manager.antt =====
-- src/presentation/reader.rs and reader_utils.rs: the session manager of the reader, and the outcome of
-- a response. CBOR is a parameter. Each method is a function of the manager.
use isomdl_elevenid.Common.{
  ℕ, Bool, List, [], ◌∷◌, Option, none, some, Result, ok, err, ◌>>=◌, ok_or, map,
}
use isomdl_elevenid.Common.Order.{Str, str, list_ord, nat_ord}
use isomdl_elevenid.Common.Int.{ℤ}
use isomdl_elevenid.Common.Map.{Map, insert}
use isomdl_elevenid.Session.{Bytes, Aead, AeadError, encrypt_reader_data, decrypt_device_data}
use isomdl_elevenid.Cose.Sign1.{Signatures}
use isomdl_elevenid.Device.{ItemsRequest}
use isomdl_elevenid.Device.ReaderAuth.{
  AuthenticationStatus, valid, invalid, unchecked, DeviceRequest,
}
use isomdl_elevenid.Device.Manager.{SessionData}
use isomdl_elevenid.X509.{Certificate, CertificateLib, TrustAnchorRegistry, ValidationError}
use isomdl_elevenid.X509.Chain.{X5Chain}
use isomdl_elevenid.X509.Validation.{mdl, validate}
use isomdl_elevenid.Reader.{Authenticator, Document, Response, mdl_doc_type}
use isomdl_elevenid.Reader.Json.{Json}
use isomdl_elevenid.Reader.Parse.{
  ReaderError, reader_panicked, holder_error, decryption_error, cbor_decoding_error, parse,
}
use isomdl_elevenid.Reader.Authentication.{AuthError, issuer_authentication, device_authentication}

-- The messages in `errors`.
pub data OutcomeError : Type 0 where
  reader_error : ReaderError → OutcomeError
  auth_error : AuthError → OutcomeError
  certificate_error : ValidationError → OutcomeError

pub record ResponseAuthenticationOutcome : Type 0 where
  pub response : Map Str Json
  pub issuer_authentication : AuthenticationStatus
  pub device_authentication : AuthenticationStatus
  pub errors : Map Str (List OutcomeError)

pub data RequestBuildError : Type 0 where
  unable_to_encode_items unable_to_encode_request unable_to_encrypt : RequestBuildError
  unable_to_encode_session : RequestBuildError

-- The encoding of what the reader sends, and the decoding of what it receives: an items request under
-- tag 24 is tested for its encoding.
pub record ReaderCbor (ReaderAuth Resp : Type 0) : Type 0 where
  pub items_to_vec : ItemsRequest → Option Bytes
  pub request_to_vec : DeviceRequest ReaderAuth → Option Bytes
  pub session_data_to_vec : SessionData → Option Bytes
  pub session_data_from_slice : Bytes → Option SessionData
  pub response_from_slice : Bytes → Option Resp

pub record ReaderManager (Transcript : Type 0) : Type 0 where
  pub session_transcript : Transcript
  pub sk_device : Bytes
  pub device_message_counter : ℕ
  pub sk_reader : Bytes
  pub reader_message_counter : ℕ
  pub trust_anchor_registry : TrustAnchorRegistry

abbrev pub failed_outcome : Str → ReaderError → ResponseAuthenticationOutcome
failed_outcome key e = record {
  response = [];
  issuer_authentication = unchecked;
  device_authentication = unchecked;
  errors = (key, reader_error e ∷ []) ∷ [];
}

-- A status, and the messages that are added for it.
abbrev pub status_of : Result AuthError (Unit {0}) → AuthenticationStatus
status_of (ok u) = valid
status_of (err e) = invalid

abbrev pub with_error :
    Str → Result AuthError (Unit {0}) → Map Str (List OutcomeError) → Map Str (List OutcomeError)
with_error key (ok u) errors = errors
with_error key (err e) errors = insert key (auth_error e ∷ []) errors

module _ {Protected Namespaces Transcript Point Signature Verifier CertSignature : Type 0}
    (lib : Signatures Protected Signature Verifier)
    (auth : Authenticator Protected Namespaces Transcript Point Verifier)
    (certificates : CertificateLib Verifier CertSignature) where
  -- The issuer is authenticated only where the chain is validated without an error.
  abbrev pub with_issuer :
      List ValidationError
      → X5Chain
      → Document Protected Namespaces
      → ResponseAuthenticationOutcome
      → ResponseAuthenticationOutcome
  with_issuer [] x5chain document outcome =
      let result = issuer_authentication lib certificates x5chain document.issuer_auth in
      record outcome {
        issuer_authentication = status_of result;
        errors = with_error (str "issuer_authentication_errors") result outcome.errors;
      }
  with_issuer (e ∷ es) x5chain document outcome = record outcome {
    issuer_authentication = invalid;
    errors = insert (str "certificate_errors") (map certificate_error (e ∷ es)) outcome.errors;
  }

  unfoldable pub validate_response :
      Transcript
      → TrustAnchorRegistry
      → X5Chain
      → Document Protected Namespaces
      → Map Str Json
      → ResponseAuthenticationOutcome
  validate_response session_transcript registry x5chain document namespaces =
      let result = device_authentication lib auth document session_transcript in
      with_issuer (validate certificates mdl x5chain.end_entity.inner registry) x5chain document
        (record {
          response = namespaces;
          issuer_authentication = unchecked;
          device_authentication = status_of result;
          errors = with_error (str "device_authentication_errors") result [];
        })

  -- A panic of the parser ends the call without an outcome.
  abbrev pub validate_parsed :
      ReaderManager Transcript
      → Result ReaderError (Document Protected Namespaces × X5Chain × Map Str Json)
      → Option ResponseAuthenticationOutcome
  validate_parsed manager (ok (document, x5chain, namespaces)) = some (
      validate_response manager.session_transcript manager.trust_anchor_registry x5chain document
        namespaces)
  validate_parsed manager (err reader_panicked) = none
  validate_parsed manager (err e) = some (failed_outcome (str "parsing_errors") e)

  module _ {ReaderAuth AeadKey : Type 0}
      (cbor : ReaderCbor ReaderAuth (Response Protected Namespaces)) (aead : Aead AeadKey) where
    abbrev pub sealed_request : Result AeadError Bytes → Result RequestBuildError Bytes
    sealed_request (ok bytes) = ok bytes
    sealed_request (err e) = err unable_to_encrypt

    -- The request for the mDL, without reader authentication.
    abbrev pub device_request : Map Str (Map Str Bool) → DeviceRequest ReaderAuth
    device_request namespaces = record {
      version = str "1.0";
      doc_request = record {
        items_request = record { doc_type = mdl_doc_type; namespaces = namespaces };
        reader_auth = none;
      };
      doc_requests = [];
    }

    abbrev pub request_bytes : Map Str (Map Str Bool) → Result RequestBuildError Bytes
    request_bytes namespaces = do
      items ←
          ok_or (cbor.items_to_vec (record { doc_type = mdl_doc_type; namespaces = namespaces }))
            unable_to_encode_items
      ok_or (cbor.request_to_vec (device_request namespaces)) unable_to_encode_request

    abbrev pub encrypt_request :
        ReaderManager Transcript
        → Result RequestBuildError Bytes
        → Result RequestBuildError Bytes × ReaderManager Transcript
    encrypt_request manager (err e) = (err e, manager)
    encrypt_request manager (ok bytes) =
        let (sealed, count) =
          encrypt_reader_data aead manager.sk_reader bytes manager.reader_message_counter in
        (sealed_request sealed, record manager { reader_message_counter = count })

    unfoldable pub build_request :
        Map Str (Map Str Bool)
        → ReaderManager Transcript
        → Result RequestBuildError Bytes × ReaderManager Transcript
    build_request namespaces manager = encrypt_request manager (request_bytes namespaces)

    abbrev pub session_bytes : Bytes → Result RequestBuildError Bytes
    session_bytes request =
        ok_or (cbor.session_data_to_vec (record { data_bytes = some request; status = none }))
          unable_to_encode_session

    unfoldable pub new_request :
        Map Str (Map Str Bool)
        → ReaderManager Transcript
        → Result RequestBuildError Bytes × ReaderManager Transcript
    unfolding build_request
    new_request namespaces manager =
        let (built, manager') = build_request namespaces manager in
        (built >>= session_bytes, manager')

    abbrev pub decoded_response :
        Result AeadError Bytes → Result ReaderError (Response Protected Namespaces)
    decoded_response (err e) = err decryption_error
    decoded_response (ok bytes) = ok_or (cbor.response_from_slice bytes) cbor_decoding_error

    abbrev pub decrypt_data :
        ReaderManager Transcript
        → Option Bytes
        → Result ReaderError (Response Protected Namespaces) × ReaderManager Transcript
    decrypt_data manager none = (err holder_error, manager)
    decrypt_data manager (some encrypted) =
        let (opened, count) =
          decrypt_device_data aead manager.sk_device encrypted manager.device_message_counter in
        (decoded_response opened, record manager { device_message_counter = count })

    abbrev pub decrypt_session :
        ReaderManager Transcript
        → Option SessionData
        → Result ReaderError (Response Protected Namespaces) × ReaderManager Transcript
    decrypt_session manager none = (err cbor_decoding_error, manager)
    decrypt_session manager (some session_data) = decrypt_data manager session_data.data_bytes

    unfoldable pub decrypt_response :
        Bytes
        → ReaderManager Transcript
        → Result ReaderError (Response Protected Namespaces) × ReaderManager Transcript
    decrypt_response response manager =
        decrypt_session manager (cbor.session_data_from_slice response)

    abbrev pub outcome_of :
        (Bytes → Option Certificate)
        → (ℤ → Option Json)
        → ReaderManager Transcript
        → Result ReaderError (Response Protected Namespaces)
        → Option ResponseAuthenticationOutcome
    outcome_of from_der json_integer manager (err e) =
        some (failed_outcome (str "decryption_errors") e)
    outcome_of from_der json_integer manager (ok device_response) =
        validate_parsed manager (parse json_integer from_der device_response)

    unfoldable pub handle_response :
        (Bytes → Option Certificate)
        → (ℤ → Option Json)
        → Bytes
        → ReaderManager Transcript
        → Option ResponseAuthenticationOutcome × ReaderManager Transcript
    unfolding decrypt_response
    handle_response from_der json_integer response manager =
        let (decrypted, manager') = decrypt_response response manager in
        (outcome_of from_der json_integer manager' decrypted, manager')
