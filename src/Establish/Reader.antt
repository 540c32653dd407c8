-- ===== src/Establish/Reader.antt =====
-- src/presentation/reader.rs: the reader scans the QR code, derives the keys and makes the first request.
use isomdl_elevenid.Common.{
  ◌∷◌, [], List, Bool, true, false, Option, none, some, Result, ok, ◌>>=◌, ok_or, map_err,
}
use isomdl_elevenid.Common.Order.{Str}
use isomdl_elevenid.Common.Map.{Map}
use isomdl_elevenid.Session.{Bytes, Aead}
use isomdl_elevenid.Session.Sha256.{Words}
use isomdl_elevenid.DeviceKey.CoseKey.{CoseKey}
use isomdl_elevenid.Issuance.Plan.{Tag24}
use isomdl_elevenid.Cose.Sign1.{Signatures}
use isomdl_elevenid.X509.{CertificateLib, TrustAnchorRegistry}
use isomdl_elevenid.Engagement.{
  Uuid, CentralClientMode, DeviceEngagement, DeviceRetrievalMethod, wifi, ble, nfc,
  DeviceRetrievalMethods,
}
use isomdl_elevenid.Engagement.Tagged.{tag24_of}
use isomdl_elevenid.Engagement.Codec.{Serde}
use isomdl_elevenid.Engagement.Qr.{Base64, from_qr_code_uri}
use isomdl_elevenid.Reader.{Response, Authenticator}
use isomdl_elevenid.Reader.Manager.{ReaderCbor, ReaderManager, RequestBuildError, build_request}
use isomdl_elevenid.Establish.{
  EstablishError, invalid_qr_code, ephemeral_key, tag24_encoding, shared_secret, request,
  unencodable_establishment, qr, SessionTranscript, SessionEstablishment,
}
use isomdl_elevenid.Establish.Keys.{
  calculate_ble_ident, Curve, create_p256_ephemeral_keys, get_shared_secret, key_to_vec,
  session_key,
}

abbrev pub central_uuid : Option CentralClientMode → Option Uuid
central_uuid none = none
central_uuid (some mode) = some mode.uuid

abbrev pub method_uuid : DeviceRetrievalMethod → Option Uuid
method_uuid (ble o) = central_uuid o.central_client_mode
method_uuid (wifi o) = none
method_uuid (nfc o) = none

-- `filter_map(f).next()`
abbrev pub next_uuid : List DeviceRetrievalMethod → Option Uuid
next_uuid [] = none
next_uuid (m ∷ ms) = first_or (method_uuid m) (next_uuid ms)
  where
    first_or : Option Uuid → Option Uuid → Option Uuid
    first_or none rest = rest
    first_or (some uuid) rest = some uuid

abbrev pub methods_uuid : Option DeviceRetrievalMethods → Option Uuid
methods_uuid none = none
methods_uuid (some (m, ms)) = next_uuid (m ∷ ms)

unfoldable pub first_central_client_uuid : ReaderManager SessionTranscript → Option Uuid
first_central_client_uuid manager =
    methods_uuid manager.session_transcript.device_engagement.inner.device_retrieval_methods

abbrev pub new_reader :
    SessionTranscript → Bytes → Bytes → TrustAnchorRegistry → ReaderManager SessionTranscript
new_reader session_transcript sk_device sk_reader registry = record {
  session_transcript = session_transcript;
  sk_device = sk_device;
  device_message_counter = 0;
  sk_reader = sk_reader;
  reader_message_counter = 0;
  trust_anchor_registry = registry;
}

abbrev pub reader_transcript : Tag24 DeviceEngagement → Tag24 CoseKey → SessionTranscript
reader_transcript device_engagement e_reader_key = record {
  device_engagement = device_engagement;
  e_reader_key = e_reader_key;
  handover = qr;
}

module _
    {Protected Namespaces AuthPoint Signature Verifier CertSignature ReaderAuth AeadKey : Type 0}
    (lib : Signatures Protected Signature Verifier)
    (auth : Authenticator Protected Namespaces SessionTranscript AuthPoint Verifier)
    (certificates : CertificateLib Verifier CertSignature)
    (reader_cbor : ReaderCbor ReaderAuth (Response Protected Namespaces)) (aead : Aead AeadKey)
    (establishment_to_vec : SessionEstablishment → Option Bytes) where
  -- The first request goes into the message that establishes the session.
  abbrev pub establishment :
      Tag24 CoseKey
      → Result RequestBuildError Bytes × ReaderManager SessionTranscript
      → Result EstablishError (ReaderManager SessionTranscript × Bytes)
  establishment e_reader_key (built, manager) = do
    bytes ← map_err request built
    session_request ←
        ok_or (establishment_to_vec (record { e_reader_key = e_reader_key; data_bytes = bytes }))
          unencodable_establishment
    ok (manager, session_request)

  abbrev pub request_session :
      Tag24 CoseKey
      → Map Str (Map Str Bool)
      → ReaderManager SessionTranscript
      → Result EstablishError (ReaderManager SessionTranscript × Bytes)
  request_session e_reader_key namespaces manager =
      establishment e_reader_key
        (build_request lib auth certificates reader_cbor aead namespaces manager)

module _
    {Protected Namespaces AuthPoint Signature Verifier CertSignature ReaderAuth AeadKey Secret Point
      Public : Type 0}
    (lib : Signatures Protected Signature Verifier)
    (auth : Authenticator Protected Namespaces SessionTranscript AuthPoint Verifier)
    (certificates : CertificateLib Verifier CertSignature)
    (reader_cbor : ReaderCbor ReaderAuth (Response Protected Namespaces)) (aead : Aead AeadKey)
    (curve : Curve Secret Point Public) (serde : Serde) (base64 : Base64)
    (transcript_to_vec : SessionTranscript → Option Bytes)
    (establishment_to_vec : SessionEstablishment → Option Bytes)
    (expand_ident : Bytes → Option Bytes) (compress256 : Words → Bytes → Words) where
  -- The keys of the session are derived, and the first request is made with them.
  abbrev pub begin_session :
      Tag24 DeviceEngagement
      → Tag24 CoseKey
      → Bytes
      → Bytes
      → Tag24 SessionTranscript
      → Map Str (Map Str Bool)
      → TrustAnchorRegistry
      → Result EstablishError (ReaderManager SessionTranscript × Bytes × Bytes)
  begin_session engagement e_reader_key ident secret transcript namespaces registry = do
    sk_reader ← session_key serde compress256 secret transcript true
    sk_device ← session_key serde compress256 secret transcript false
    (manager, session_request) ←
        request_session lib auth certificates reader_cbor aead establishment_to_vec e_reader_key
          namespaces
          (new_reader (reader_transcript engagement e_reader_key) sk_device sk_reader registry)
    ok (manager, session_request, ident)

  abbrev pub agree_secret :
      Tag24 DeviceEngagement
      → Tag24 CoseKey
      → Secret
      → Map Str (Map Str Bool)
      → TrustAnchorRegistry
      → Result EstablishError (ReaderManager SessionTranscript × Bytes × Bytes)
  agree_secret engagement e_reader_key private_key namespaces registry = do
    let e_device_key = engagement.inner.security.e_device_key
    ident ← calculate_ble_ident serde expand_ident e_device_key
    secret ← map_err shared_secret (get_shared_secret curve e_device_key.inner private_key)
    transcript ←
        map_err tag24_encoding
          (tag24_of transcript_to_vec (reader_transcript engagement e_reader_key))
    begin_session engagement e_reader_key ident secret transcript namespaces registry

  unfoldable pub establish_session :
      Secret
      → Str
      → Map Str (Map Str Bool)
      → TrustAnchorRegistry
      → Result EstablishError (ReaderManager SessionTranscript × Bytes × Bytes)
  establish_session generated qr_code namespaces registry = do
    engagement ← map_err invalid_qr_code (from_qr_code_uri base64 serde qr_code)
    (private_key, e_reader_key_pub) ←
        map_err ephemeral_key (create_p256_ephemeral_keys curve generated)
    e_reader_key ← map_err tag24_encoding (tag24_of (key_to_vec serde) e_reader_key_pub)
    agree_secret engagement e_reader_key private_key namespaces registry
