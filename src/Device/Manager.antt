-- ===== src/Device/Manager.antt =====
-- src/presentation/device.rs: the session manager of the holder. Each method is a function of the
-- manager. CBOR and COSE are parameters.
use isomdl_elevenid.Common.{
  ℕ, Bool, true, false, [], ◌∷◌, Option, none, some, if◌then◌else◌, Result, ok, err, ◌>>=◌, ok_or,
}
use isomdl_elevenid.Common.Order.{Str, str, list_ord, nat_ord, ◌==◌}
use isomdl_elevenid.Common.Map.{Map}
use isomdl_elevenid.Session.{Bytes, Aead, AeadError, encrypt_device_data, decrypt_reader_data}
use isomdl_elevenid.Session.Status.{
  SessionStatus, session_encryption_error, ResponseStatus, cbor_decoding, cbor_validation,
}
use isomdl_elevenid.Device.{
  RequestedItems, PermittedItems, Document, PreparedDeviceResponse, DeviceResponse, State,
  awaiting_request, signing, ready_to_respond,
}
use isomdl_elevenid.Device.Response.{
  DeviceCose, empty, is_complete, get_next_signature_payload, submit_next_signature,
  finalize_response, prepare_response,
}
use isomdl_elevenid.Device.ReaderAuth.{
  DeviceRequest, RequestError, no_requests, undecodable, undecryptable,
  RequestAuthenticationOutcome, unchecked, no_outcome, ReaderCrypto, validate_request,
}

-- `SessionData`
pub record SessionData : Type 0 where
  pub data_bytes : Option Bytes
  pub status : Option SessionStatus

-- Where `submit_next_signature` returns an error, or panics.
pub data SubmitError : Type 0 where
  unable_to_encode panicked : SubmitError

-- The CBOR encoding of what the session receives and sends.
pub record SessionCbor (ReaderAuth Value Response : Type 0) : Type 0 where
  pub value_from_slice : Bytes → Option Value
  pub request_from_value : Value → Option (DeviceRequest ReaderAuth)
  pub session_data_from_slice : Bytes → Option SessionData
  pub session_data_to_vec : SessionData → Option Bytes
  pub response_to_vec : Response → Option Bytes
  pub response_from_slice : Bytes → Option Response

pub record SessionManager (Item Auth Key Cose DeviceAuth : Type 0) : Type 0 where
  pub documents : Map Str (Document Item Auth Key)
  pub sk_device : Bytes
  pub device_message_counter : ℕ
  pub sk_reader : Bytes
  pub reader_message_counter : ℕ
  pub state : State Item Auth Cose DeviceAuth

module _
    {Item Auth Key Algorithm Cose DeviceAuth ReaderAuth Chain Verifier Payload Value
      AeadKey : Type 0}
    (cose : DeviceCose Key Algorithm Cose DeviceAuth)
    (crypto : ReaderCrypto ReaderAuth Chain Verifier Payload)
    (cbor : SessionCbor ReaderAuth Value (DeviceResponse Item Auth DeviceAuth))
    (lib : Aead AeadKey) where
  abbrev pub Manager : Type 0
  Manager = SessionManager Item Auth Key Cose DeviceAuth

  abbrev pub with_state :
      SessionManager Item Auth Key Cose DeviceAuth
      → State Item Auth Cose DeviceAuth
      → SessionManager Item Auth Key Cose DeviceAuth
  with_state manager state = record {
    documents = manager.documents;
    sk_device = manager.sk_device;
    device_message_counter = manager.device_message_counter;
    sk_reader = manager.sk_reader;
    reader_message_counter = manager.reader_message_counter;
    state = state;
  }

  abbrev pub with_reader_counter :
      SessionManager Item Auth Key Cose DeviceAuth
      → ℕ
      → SessionManager Item Auth Key Cose DeviceAuth
  with_reader_counter manager count = record {
    documents = manager.documents;
    sk_device = manager.sk_device;
    device_message_counter = manager.device_message_counter;
    sk_reader = manager.sk_reader;
    reader_message_counter = count;
    state = manager.state;
  }

  abbrev pub with_device_counter :
      SessionManager Item Auth Key Cose DeviceAuth
      → ℕ
      → SessionManager Item Auth Key Cose DeviceAuth
  with_device_counter manager count = record {
    documents = manager.documents;
    sk_device = manager.sk_device;
    device_message_counter = count;
    sk_reader = manager.sk_reader;
    reader_message_counter = manager.reader_message_counter;
    state = manager.state;
  }

  unfoldable pub parse_request : Bytes → Result ResponseStatus (DeviceRequest ReaderAuth)
  parse_request request = do
    value ← ok_or (cbor.value_from_slice request) cbor_decoding
    ok_or (cbor.request_from_value value) cbor_validation

  abbrev pub answer_parsed :
      SessionManager Item Auth Key Cose DeviceAuth
      → Result ResponseStatus (DeviceRequest ReaderAuth)
      → RequestAuthenticationOutcome × SessionManager Item Auth Key Cose DeviceAuth
  answer_parsed manager (err status) =
      (no_outcome, with_state manager (signing (empty cose status)))
  answer_parsed manager (ok request) = (validate_request crypto request, manager)

  abbrev pub failed : Str → RequestError → RequestAuthenticationOutcome
  failed key error = record {
    items_request = [];
    common_name = none;
    reader_authentication = unchecked;
    errors = (key, error) ∷ [];
  }

  abbrev pub answer_decrypted :
      SessionManager Item Auth Key Cose DeviceAuth
      → Result AeadError Bytes × ℕ
      → RequestAuthenticationOutcome × SessionManager Item Auth Key Cose DeviceAuth
  answer_decrypted manager (err e, count) =
      (failed (str "decryption_errors") undecryptable, with_reader_counter manager count)
  answer_decrypted manager (ok request, count) =
      answer_parsed (with_reader_counter manager count) (parse_request request)

  unfoldable pub handle_decoded_request :
      SessionData
      → SessionManager Item Auth Key Cose DeviceAuth
      → RequestAuthenticationOutcome × SessionManager Item Auth Key Cose DeviceAuth
  handle_decoded_request request manager = elim request.data_bytes [
    | none ↦ (failed (str "parsing_errors") no_requests, manager)
    | some bytes ↦
        answer_decrypted manager
          (decrypt_reader_data lib manager.sk_reader bytes manager.reader_message_counter)
  ]

  unfoldable pub handle_request :
      Bytes
      → SessionManager Item Auth Key Cose DeviceAuth
      → RequestAuthenticationOutcome × SessionManager Item Auth Key Cose DeviceAuth
  handle_request request manager = elim (cbor.session_data_from_slice request) [
    | none ↦ (failed (str "parsing_errors") undecodable, manager)
    | some bytes ↦ handle_decoded_request bytes manager
  ]

  unfoldable pub manager_prepare_response :
      RequestedItems
      → PermittedItems
      → SessionManager Item Auth Key Cose DeviceAuth
      → SessionManager Item Auth Key Cose DeviceAuth
  manager_prepare_response requests permitted manager =
      with_state manager (signing (prepare_response cose manager.documents requests permitted))

  unfoldable pub manager_next_signature_payload :
      SessionManager Item Auth Key Cose DeviceAuth → Option (ℕ × Bytes)
  manager_next_signature_payload manager = elim manager.state [
    | awaiting_request ↦ none
    | signing p ↦ get_next_signature_payload cose p
    | ready_to_respond bytes ↦ none
  ]

  abbrev pub session_data_of : Result AeadError Bytes → SessionData
  session_data_of (ok bytes) = record { data_bytes = some bytes; status = none }
  session_data_of (err e) = record { data_bytes = none; status = some session_encryption_error }

  abbrev pub store_response :
      SessionManager Item Auth Key Cose DeviceAuth
      → Option Bytes
      → Result SubmitError (Unit {0}) × SessionManager Item Auth Key Cose DeviceAuth
  store_response manager none = (err unable_to_encode, with_state manager awaiting_request)
  store_response manager (some bytes) = (ok tt, with_state manager (ready_to_respond bytes))

  -- The bytes of the response, which are decoded and encoded again: both must agree.
  unfoldable pub response_bytes : DeviceResponse Item Auth DeviceAuth → Result SubmitError Bytes
  response_bytes response = do
    bytes ← ok_or (cbor.response_to_vec response) unable_to_encode
    response₂ ← ok_or (cbor.response_from_slice bytes) panicked
    bytes₂ ← ok_or (cbor.response_to_vec response₂) unable_to_encode
    if bytes == bytes₂ then ok bytes else err panicked

  abbrev pub respond :
      SessionManager Item Auth Key Cose DeviceAuth
      → Result SubmitError Bytes
      → Result SubmitError (Unit {0}) × SessionManager Item Auth Key Cose DeviceAuth
  respond manager (err e) = (err e, with_state manager awaiting_request)
  respond manager (ok bytes) =
      let (sealed, count) =
        encrypt_device_data lib manager.sk_device bytes manager.device_message_counter in
      store_response (with_device_counter manager count)
        (cbor.session_data_to_vec (session_data_of sealed))

  abbrev pub submitted :
      SessionManager Item Auth Key Cose DeviceAuth
      → PreparedDeviceResponse Item Auth Cose DeviceAuth
      → Bool
      → Result SubmitError (Unit {0}) × SessionManager Item Auth Key Cose DeviceAuth
  submitted manager p true = respond manager (response_bytes (finalize_response cose p))
  submitted manager p false = (ok tt, with_state manager (signing p))

  abbrev pub submit_in :
      State Item Auth Cose DeviceAuth
      → Bytes
      → SessionManager Item Auth Key Cose DeviceAuth
      → Result SubmitError (Unit {0}) × SessionManager Item Auth Key Cose DeviceAuth
  submit_in awaiting_request signature manager = (ok tt, manager)
  submit_in (signing p) signature manager =
      submitted manager (submit_next_signature cose signature p)
        (is_complete cose (submit_next_signature cose signature p))
  submit_in (ready_to_respond bytes) signature manager = (ok tt, manager)

  unfoldable pub manager_submit_next_signature :
      Bytes
      → SessionManager Item Auth Key Cose DeviceAuth
      → Result SubmitError (Unit {0}) × SessionManager Item Auth Key Cose DeviceAuth
  manager_submit_next_signature signature manager = submit_in manager.state signature manager

  abbrev pub is_ready : State Item Auth Cose DeviceAuth → Bool
  is_ready awaiting_request = false
  is_ready (signing p) = false
  is_ready (ready_to_respond bytes) = true

  unfoldable pub response_ready : SessionManager Item Auth Key Cose DeviceAuth → Bool
  response_ready manager = is_ready manager.state

  abbrev pub retrieve_in :
      State Item Auth Cose DeviceAuth
      → SessionManager Item Auth Key Cose DeviceAuth
      → Option Bytes × SessionManager Item Auth Key Cose DeviceAuth
  retrieve_in awaiting_request manager = (none, manager)
  retrieve_in (signing p) manager = (none, manager)
  retrieve_in (ready_to_respond bytes) manager = (some bytes, with_state manager awaiting_request)

  unfoldable pub retrieve_response :
      SessionManager Item Auth Key Cose DeviceAuth
      → Option Bytes × SessionManager Item Auth Key Cose DeviceAuth
  retrieve_response manager = retrieve_in manager.state manager
