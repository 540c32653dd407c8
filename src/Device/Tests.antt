-- ===== src/Device/Tests.antt =====
-- A holder with one document, and the theorems on its session at inputs.
use isomdl_elevenid.Common.{
  ℕ, ◌≡◌, refl, Bool, ok, true, false, List, [], ◌∷◌, ◌++◌, All, Option, none, some, length, err,
}
use isomdl_elevenid.Common.Order.{Str, str, list_ord, nat_ord}
use isomdl_elevenid.Common.Map.{Map}
use isomdl_elevenid.Session.{Bytes, Aead}
use isomdl_elevenid.Session.Status.{status_ok}
use isomdl_elevenid.Device.{
  RequestedItems, PermittedItems, Document, PreparedDocument, ResponseDocument,
  PreparedDeviceResponse, DeviceResponse, awaiting_request, signing, ready_to_respond,
}
use isomdl_elevenid.Device.Filter.{filter_permitted}
use isomdl_elevenid.Device.Response.{
  DeviceCose, prepare_response, submit_next_signature, finalize_document, pop, is_complete,
  finalize_response,
}
use isomdl_elevenid.Device.Age.{
  nearest, min_by_key, max_by_key, parse_age_from_element_identifier, strip_prefix, parse_u8,
  parse_digits, nearest_age_attestation, contains_str, numerical_claims,
}
use isomdl_elevenid.Device.Nearest.{IsNearest, nearest-IsNearest}
use isomdl_elevenid.Device.Permitted.{KeptDocument, filter_permitted_sound}
use isomdl_elevenid.Device.Disclosed.{Discloses, prepare_response-Discloses}
use isomdl_elevenid.Device.ReaderAuth.{
  ReaderCrypto, DeviceRequest, validate_request, reader_authentication, find_x5chain,
  check_signature,
}
use isomdl_elevenid.Device.Authenticated.{IsAuthenticated, validate_request-IsAuthenticated}
use isomdl_elevenid.Device.Manager.{
  SessionCbor, SessionManager, unable_to_encode, with_state, respond, response_bytes,
  manager_submit_next_signature, manager_next_signature_payload,
}
use isomdl_elevenid.Device.Signing.{
  waiting, signed_with, signed_response, submit_signatures, submit_signatures-signed,
  next_payload-waiting, submit-failed,
}

-- Two elements are requested, and two permitted; they share one.
abbrev requests : RequestedItems
requests =
    record {
      doc_type = str "mDL";
      namespaces = (str "ns", (str "age", false) ∷ (str "name", true) ∷ []) ∷ [];
    }
    ∷ []

abbrev permitted : PermittedItems
permitted = (str "mDL", (str "ns", str "name" ∷ str "photo" ∷ []) ∷ []) ∷ []

abbrev documents : Map Str (Document ℕ ℕ ℕ)
documents =
    (
      str "mDL",
      record {
        id = 1;
        issuer_auth = 2;
        device_key = 3;
        namespaces = (str "ns", (str "age", 17) ∷ (str "name", 18) ∷ (str "photo", 19) ∷ []) ∷ [];
      },
    )
    ∷ []

abbrev toy_cose : DeviceCose ℕ ℕ Bytes Bytes
toy_cose = record {
  signature_algorithm = λ key. some key;
  device_auth_bytes = λ doc_type. some doc_type;
  prepare = λ algorithm bytes. some (algorithm ∷ bytes);
  finalize = λ cose signature. cose ++ signature;
  signature_payload = λ cose. cose;
}

filter_permitted_sound_example :
    All (KeptDocument requests permitted) (filter_permitted requests permitted)
filter_permitted_sound_example = filter_permitted_sound requests permitted

prepare_response-Discloses_example :
    All
      (Discloses toy_cose documents requests permitted)
      (prepare_response {DeviceAuth = Bytes} toy_cose documents requests
        permitted).prepared_documents
prepare_response-Discloses_example =
    prepare_response-Discloses {DeviceAuth = Bytes} toy_cose documents requests permitted

abbrev toy_crypto : ReaderCrypto ℕ ℕ ℕ Bytes
toy_crypto = record {
  x5chain_header = λ auth. some [];
  x5chain_from_cbor = λ bytes. some 1;
  end_entity_common_name = λ chain. str "reader";
  validate = λ chain. [];
  end_entity_public_key = λ chain. some chain;
  payload = λ items. some [];
  payload_to_vec = λ payload. some payload;
  verify = λ auth verifier bytes. true;
}

-- An encoding of nothing but the number of documents; the other fails.
abbrev count_documents : Option (List (ResponseDocument ℕ ℕ Bytes)) → ℕ
count_documents none = 0
count_documents (some ds) = length ds

abbrev toy_cbor : SessionCbor ℕ ℕ (DeviceResponse ℕ ℕ Bytes)
toy_cbor = record {
  value_from_slice = λ bytes. none;
  request_from_value = λ value. none;
  session_data_from_slice = λ bytes. none;
  session_data_to_vec = λ session. session.data_bytes;
  response_to_vec = λ response. some (count_documents response.documents ∷ []);
  response_from_slice = λ bytes.
      some (record { version = []; documents = none; document_errors = none; status = status_ok });
}

abbrev failing_cbor : SessionCbor ℕ ℕ (DeviceResponse ℕ ℕ Bytes)
failing_cbor = record {
  value_from_slice = λ bytes. none;
  request_from_value = λ value. none;
  session_data_from_slice = λ bytes. none;
  session_data_to_vec = λ session. none;
  response_to_vec = λ response. none;
  response_from_slice = λ bytes. none;
}

abbrev toy_aead : Aead (Unit {0})
toy_aead = record {
  unbound_key = λ k. some tt;
  seal_in_place = λ key nonce plaintext. some plaintext;
  open_in_place = λ key nonce ciphertext. some (ciphertext, length ciphertext);
}

abbrev document_of : ℕ → PreparedDocument ℕ ℕ Bytes
document_of n = record {
  id = n;
  doc_type = str "mDL";
  issuer_namespaces = none;
  issuer_auth = n;
  prepared_cose = n ∷ [];
  errors = none;
}

abbrev prepared : PreparedDeviceResponse ℕ ℕ Bytes Bytes
prepared = record {
  prepared_documents = [];
  signed_documents = [];
  document_errors = none;
  status = status_ok;
}

abbrev holder : SessionManager ℕ ℕ ℕ Bytes Bytes
holder = record {
  documents = documents;
  sk_device = [];
  device_message_counter = 0;
  sk_reader = [];
  reader_message_counter = 0;
  state = awaiting_request;
}

abbrev signing_two : SessionManager ℕ ℕ ℕ Bytes Bytes
signing_two =
    with_state toy_cose toy_crypto toy_cbor toy_aead holder
      (signing (waiting toy_cose prepared (document_of 4 ∷ document_of 5 ∷ []) []))

submit_signatures-signed_example :
    submit_signatures toy_cose toy_crypto toy_cbor toy_aead ((8 ∷ []) ∷ (9 ∷ []) ∷ []) signing_two
    ≡ (respond toy_cose toy_crypto toy_cbor toy_aead holder (
        response_bytes toy_cose toy_crypto toy_cbor toy_aead (
          signed_response toy_cose prepared (
            signed_with toy_cose
              (document_of 4 ∷ document_of 5 ∷ [])
              ((8 ∷ []) ∷ (9 ∷ []) ∷ []))))).1
submit_signatures-signed_example =
    submit_signatures-signed toy_cose toy_crypto toy_cbor toy_aead holder prepared (document_of 4)
      (document_of 5 ∷ []) [] (8 ∷ []) ((9 ∷ []) ∷ []) refl

next_payload-waiting_example :
    (manager_next_signature_payload toy_cose toy_crypto toy_cbor toy_aead signing_two
      ≡ some (4, 4 ∷ []))
    × (submit_next_signature toy_cose
          (8 ∷ [])
          (waiting toy_cose prepared (document_of 4 ∷ document_of 5 ∷ []) [])
        ≡ waiting toy_cose prepared
            (document_of 5 ∷ [])
            (finalize_document toy_cose (document_of 4) (8 ∷ []) ∷ []))
next_payload-waiting_example =
    next_payload-waiting toy_cose toy_crypto toy_cbor toy_aead holder prepared (document_of 4)
      (document_of 5 ∷ []) [] (8 ∷ [])

abbrev ready : SessionManager ℕ ℕ ℕ Bytes Bytes
ready = with_state toy_cose toy_crypto toy_cbor toy_aead holder (ready_to_respond (1 ∷ []))

abbrev signing_one : SessionManager ℕ ℕ ℕ Bytes Bytes
signing_one =
    with_state toy_cose toy_crypto failing_cbor toy_aead holder
      (signing (waiting toy_cose prepared (document_of 4 ∷ []) []))

submission_fails :
    (manager_submit_next_signature toy_cose toy_crypto failing_cbor toy_aead (8 ∷ []) signing_one).0
    ≡ err unable_to_encode
unfolding manager_submit_next_signature submit_next_signature pop is_complete response_bytes
    finalize_response
submission_fails = refl

submit-failed_example :
    (manager_submit_next_signature toy_cose toy_crypto failing_cbor toy_aead
      (8 ∷ [])
      signing_one).1.state
    ≡ awaiting_request
submit-failed_example =
    submit-failed toy_cose toy_crypto failing_cbor toy_aead signing_one (8 ∷ []) unable_to_encode
      submission_fails

-- The claims of a holder of twenty: over 18 but not over 21 or 25.
abbrev claims : List (ℕ × Bool)
claims = (25, false) ∷ (18, true) ∷ (21, false) ∷ (16, true) ∷ []

nearest-IsNearest_example : IsNearest (λ b. b) 18 claims (nearest (λ b. b) 18 claims)
nearest-IsNearest_example = nearest-IsNearest (λ b. b) 18 claims

age_of_identifier : parse_age_from_element_identifier (str "age_over_21") ≡ ok 21
unfolding parse_age_from_element_identifier strip_prefix parse_u8 parse_digits
age_of_identifier = refl

nearest_attestation :
    nearest_age_attestation
      (λ b. b)
      (str "age_over_17")
      ((str "age_over_16", true) ∷ (str "age_over_18", true) ∷ (str "birth_date", false) ∷ [])
    ≡ ok (some true)
unfolding nearest_age_attestation parse_age_from_element_identifier strip_prefix parse_u8
    parse_digits contains_str numerical_claims nearest min_by_key max_by_key
nearest_attestation = refl

abbrev signed_request : DeviceRequest ℕ
signed_request = record {
  version = str "1.0";
  doc_request = record {
    items_request = record { doc_type = str "mDL"; namespaces = [] };
    reader_auth = some 6;
  };
  doc_requests = [];
}

validate_request-IsAuthenticated_example : IsAuthenticated toy_crypto signed_request.doc_request
unfolding validate_request reader_authentication find_x5chain check_signature
validate_request-IsAuthenticated_example =
    validate_request-IsAuthenticated toy_crypto signed_request refl
