-- ===== src/Reader/Tests.antt =====
-- The theorems on the reader at inputs.
use isomdl_elevenid.Reader.Authentication.{
  issuer_authentication, device_authentication, device_payload,
  verify_device_authentication_payload,
}
use isomdl_elevenid.Reader.Exchange.{InStep, Agree, handle_request-new_request}
use isomdl_elevenid.Reader.Delivered.{decrypt_response-submit_signatures}
use isomdl_elevenid.Reader.Parsable.{IsParsable, parse_response-IsParsable}
use isomdl_elevenid.Reader.Elements.{ReportsCore, parse_namespaces-ReportsCore}
use isomdl_elevenid.Device.{PreparedDocument, PreparedDeviceResponse, awaiting_request, signing}
use isomdl_elevenid.Device.Response.{finalize_document}
use isomdl_elevenid.Device.ReaderAuth.{valid}
use isomdl_elevenid.Device.Manager.{SessionManager, handle_request, retrieve_response, with_state}
use isomdl_elevenid.Device.Signing.{waiting, signed_with, signed_response, submit_signatures}
use isomdl_elevenid.Session.{
  encrypt_device_data, encrypt_reader_data, encrypt, encrypt_with_backend, Bytes,
  decrypt_device_data, decrypt, decrypt_with_backend, get_initialization_vector,
}
use isomdl_elevenid.Reader.Manager.{
  new_request, build_request, ReaderManager, ResponseAuthenticationOutcome, validate_response,
  decrypt_response, handle_response,
}
use isomdl_elevenid.Common.Map.{get, insert, remove}
use isomdl_elevenid.Common.Order.{str, list_ord, nat_ord}
use isomdl_elevenid.Cbor.{no_values, value, Value}
use isomdl_elevenid.Common.{ℕ, ◌↔◌, ok, ◌≡◌, refl, [], ◌∷◌, Option, none, some}
use isomdl_elevenid.Common.Int.{ℤ}
use isomdl_elevenid.Session.Status.{status_ok}
use isomdl_elevenid.Cose.{is_mismatch, exclusive_payload}
use isomdl_elevenid.Cose.Sign1.{verify_sign1}
use isomdl_elevenid.DeviceKey.CoseKey.{encoded_point}
use isomdl_elevenid.X509.{Certificate}
use isomdl_elevenid.X509.Chain.{from_cbor}
use isomdl_elevenid.X509.Example.{toy_lib, signer, registry, signer_accepted}
use isomdl_elevenid.X509.Validation.{public_key_with_oid}
use isomdl_elevenid.Reader.{Item, IssuerAuth, DeviceSigned, Response, mdl_doc_type, core_namespace}
use isomdl_elevenid.Reader.Json.{Json, parse_response, members_of}
use isomdl_elevenid.Reader.Parse.{
  parse, get_document, find_x5chain, parse_namespaces, parse_namespace, collect_elements,
}
use isomdl_elevenid.Reader.Reported.{IsAuthentic, handle_response-IsAuthentic}
use isomdl_elevenid.Reader.Example.{
  toy_signatures, toy_auth, response_document, mdl_response, toy_reader_cbor, toy_aead,
  toy_aead-OpensSealed, toy_cose, toy_crypto, asked, toy_session_cbor,
}

abbrev toy_from_der : Bytes → Option Certificate
toy_from_der bytes = some signer

abbrev toy_json_integer : ℤ → Option Json
toy_json_integer n = some (Json.number n)

abbrev reader : ReaderManager Bytes
reader = record {
  session_transcript = 4 ∷ [];
  sk_device = [];
  device_message_counter = 1;
  sk_reader = [];
  reader_message_counter = 1;
  trust_anchor_registry = registry;
}

abbrev outcome : ResponseAuthenticationOutcome
outcome = record {
  response =
      (core_namespace, Json.object (members_of ((str "name", Json.string (str "Ada")) ∷ []))) ∷ [];
  issuer_authentication = valid;
  device_authentication = valid;
  errors = [];
}

response_handled :
    (handle_response toy_signatures
      (toy_auth some)
      toy_lib
      toy_reader_cbor
      toy_aead
      toy_from_der
      toy_json_integer
      (5 ∷ [])
      reader).0
    ≡ some outcome
unfolding handle_response decrypt_response decrypt_device_data decrypt decrypt_with_backend
    get_initialization_vector parse get_document find_x5chain parse_namespaces parse_namespace
    collect_elements validate_response issuer_authentication device_authentication device_payload
    verify_device_authentication_payload verify_sign1 is_mismatch exclusive_payload
    public_key_with_oid encoded_point from_cbor get insert remove parse_response
response_handled = rw signer_accepted refl

handle_response-IsAuthentic_example :
    IsAuthentic toy_signatures
      (toy_auth some)
      toy_lib
      toy_reader_cbor
      toy_aead
      toy_from_der
      toy_json_integer
      (5 ∷ [])
      reader
      outcome
handle_response-IsAuthentic_example =
    handle_response-IsAuthentic toy_signatures (toy_auth some) toy_lib toy_reader_cbor toy_aead
      toy_from_der toy_json_integer (5 ∷ []) reader outcome response_handled refl refl

parse_namespaces-ReportsCore_example :
    ReportsCore toy_json_integer mdl_response
      ((core_namespace, Json.object (members_of ((str "name", Json.string (str "Ada")) ∷ []))) ∷ [])
unfolding get_document parse_namespaces parse_namespace collect_elements get insert remove
    parse_response
parse_namespaces-ReportsCore_example =
    parse_namespaces-ReportsCore toy_json_integer mdl_response _ refl

abbrev dated : Value
dated = Value.tag 1004 (Value.text (str "2020-01-01"))

parse_response-IsParsable_example :
    IsParsable toy_json_integer (Value.array (value dated (value Value.null no_values))) ↔ (
      (j : Json) × (parse_response toy_json_integer
          (Value.array (value dated (value Value.null no_values)))
        ≡ ok j))
parse_response-IsParsable_example =
    parse_response-IsParsable toy_json_integer
      (Value.array (value dated (value Value.null no_values)))

abbrev holder : SessionManager Item (IssuerAuth Bytes) ℕ Bytes (DeviceSigned Bytes Bytes)
holder = record {
  documents = [];
  sk_device = [];
  device_message_counter = 1;
  sk_reader = [];
  reader_message_counter = 1;
  state = awaiting_request;
}

same_counters :
    InStep toy_signatures
      (toy_auth some)
      toy_lib
      toy_reader_cbor
      toy_cose
      toy_crypto
      toy_session_cbor
      toy_aead
      reader
      holder
same_counters = record {
  reader_key = refl;
  reader_counter = refl;
  device_key = refl;
  device_counter = refl;
}

toy-Agree :
    Agree toy_signatures
      (toy_auth some)
      toy_lib
      toy_reader_cbor
      toy_cose
      toy_crypto
      toy_session_cbor
      toy_aead
      asked
toy-Agree = record { request_data = λ sealed bytes h. cc; request = λ bytes h. (1, refl, refl) }

abbrev sent : Bytes
sent = str "1.0"

handle_request-new_request_example :
    ((handle_request toy_cose toy_crypto toy_session_cbor toy_aead sent holder).0.items_request
      ≡ record { doc_type = mdl_doc_type; namespaces = asked } ∷ [])
    × ((handle_request toy_cose toy_crypto toy_session_cbor toy_aead sent holder).0.errors ≡ [])
    × InStep toy_signatures
        (toy_auth some)
        toy_lib
        toy_reader_cbor
        toy_cose
        toy_crypto
        toy_session_cbor
        toy_aead
        (new_request toy_signatures (toy_auth some) toy_lib toy_reader_cbor toy_aead asked reader).1
        (handle_request toy_cose toy_crypto toy_session_cbor toy_aead sent holder).1
unfolding new_request build_request encrypt_reader_data encrypt encrypt_with_backend
    get_initialization_vector
handle_request-new_request_example =
    handle_request-new_request toy_signatures (toy_auth some) toy_lib toy_reader_cbor toy_cose
      toy_crypto toy_session_cbor toy_aead asked toy-Agree toy_aead-OpensSealed reader holder sent
      same_counters refl

abbrev prepared : PreparedDeviceResponse Item (IssuerAuth Bytes) Bytes (DeviceSigned Bytes Bytes)
prepared = record {
  prepared_documents = [];
  signed_documents = [];
  document_errors = none;
  status = status_ok;
}

abbrev mdl_prepared : PreparedDocument Item (IssuerAuth Bytes) Bytes
mdl_prepared = record {
  id = 1;
  doc_type = mdl_doc_type;
  issuer_namespaces = response_document.issuer_namespaces;
  issuer_auth = response_document.issuer_auth;
  prepared_cose = 4 ∷ [];
  errors = none;
}

abbrev signed_mdl : Response Bytes Bytes
signed_mdl =
    signed_response toy_cose prepared (signed_with toy_cose (mdl_prepared ∷ []) ((4 ∷ []) ∷ []))

decrypt_response-submit_signatures_example :
    ((retrieve_response toy_cose toy_crypto toy_session_cbor toy_aead (
        submit_signatures toy_cose toy_crypto toy_session_cbor toy_aead ((4 ∷ []) ∷ []) (
          with_state toy_cose toy_crypto toy_session_cbor toy_aead holder
            (signing (waiting toy_cose prepared (mdl_prepared ∷ []) []))))).0
      ≡ some (6 ∷ []))
    × (decrypt_response toy_signatures
          (toy_auth some)
          toy_lib
          toy_reader_cbor
          toy_aead
          (6 ∷ [])
          reader
        ≡ (ok signed_mdl, record reader { device_message_counter = 2 }))
    × ((retrieve_response toy_cose toy_crypto toy_session_cbor toy_aead (
          submit_signatures toy_cose toy_crypto toy_session_cbor toy_aead ((4 ∷ []) ∷ []) (
            with_state toy_cose toy_crypto toy_session_cbor toy_aead holder (
              signing
                (waiting toy_cose prepared (mdl_prepared ∷ []) []))))).1.device_message_counter
        ≡ 2)
unfolding encrypt_device_data encrypt encrypt_with_backend get_initialization_vector
    finalize_document
decrypt_response-submit_signatures_example =
    decrypt_response-submit_signatures toy_signatures (toy_auth some) toy_lib toy_reader_cbor
      toy_cose toy_crypto toy_session_cbor toy_aead toy_aead-OpensSealed reader holder prepared
      mdl_prepared [] (4 ∷ []) [] (6 ∷ []) (6 ∷ []) (6 ∷ []) 2 same_counters refl refl refl refl
      refl refl refl
