-- ===== src/Establish/Holder.antt =====
-- src/presentation/device.rs: the session managers of the holder before the session, and the first
-- request. What the manager uses of COSE and of the reader's signature depends on the transcript.
use isomdl_elevenid.Common.{Option, none, some, Result, ok, ◌>>=◌, map_err, true, false}
use isomdl_elevenid.Common.Order.{Str, str}
use isomdl_elevenid.Common.Map.{Map}
use isomdl_elevenid.Session.{Bytes, Aead}
use isomdl_elevenid.Session.Sha256.{Words}
use isomdl_elevenid.Issuance.Plan.{Tag24}
use isomdl_elevenid.X509.{TrustAnchorRegistry}
use isomdl_elevenid.Device.{Document, DeviceResponse, awaiting_request}
use isomdl_elevenid.Device.Response.{DeviceCose}
use isomdl_elevenid.Device.ReaderAuth.{ReaderCrypto, RequestAuthenticationOutcome}
use isomdl_elevenid.Device.Manager.{SessionCbor, SessionManager, handle_decoded_request}
use isomdl_elevenid.Engagement.{DeviceEngagement, DeviceRetrievalMethods, ServerRetrievalMethods}
use isomdl_elevenid.Engagement.Tagged.{tag24_of}
use isomdl_elevenid.Engagement.Codec.{Serde, engagement_to_vec}
use isomdl_elevenid.Engagement.Qr.{Base64, to_qr_code_uri}
use isomdl_elevenid.Establish.{
  EstablishError, ephemeral_key, tag24_encoding, shared_secret, Handover, qr, SessionTranscript,
  SessionEstablishment,
}
use isomdl_elevenid.Establish.Keys.{
  calculate_ble_ident, Curve, create_p256_ephemeral_keys, get_shared_secret, key_to_vec,
  session_key,
}

pub record SessionManagerInit (Documents Secret : Type 0) : Type 0 where
  pub documents : Documents
  pub e_device_key : Secret
  pub device_engagement : Tag24 DeviceEngagement

pub record SessionManagerEngaged (Documents Secret : Type 0) : Type 0 where
  pub documents : Documents
  pub e_device_key : Secret
  pub device_engagement : Tag24 DeviceEngagement
  pub handover : Handover

-- The manager of an established session with its transcript and its trusted verifiers.
pub record Established (Manager : Type 0) : Type 0 where
  pub session_transcript : SessionTranscript
  pub trusted_verifiers : TrustAnchorRegistry
  pub manager : Manager

module _ {Documents Secret Point Public : Type 0} (curve : Curve Secret Point Public)
    (serde : Serde) where
  unfoldable pub initialise :
      Documents
      → Option DeviceRetrievalMethods
      → Option ServerRetrievalMethods
      → Secret
      → Result EstablishError (SessionManagerInit Documents Secret)
  initialise documents device_retrieval_methods server_retrieval_methods generated = do
    (e_device_key, e_device_key_pub) ←
        map_err ephemeral_key (create_p256_ephemeral_keys curve generated)
    e_device_key_bytes ← map_err tag24_encoding (tag24_of (key_to_vec serde) e_device_key_pub)
    device_engagement ← map_err tag24_encoding (
        tag24_of (engagement_to_vec serde) (record {
          version = str "1.0";
          security = record { cipher_suite = 1; e_device_key = e_device_key_bytes };
          device_retrieval_methods = device_retrieval_methods;
          server_retrieval_methods = server_retrieval_methods;
          protocol_info = none;
        }))
    ok (record {
      documents = documents;
      e_device_key = e_device_key;
      device_engagement = device_engagement;
    })

-- `SessionManagerInit::ble_ident`
unfoldable pub init_ble_ident :
    {Documents Secret : Type 0}
    → Serde
    → (Bytes → Option Bytes)
    → SessionManagerInit Documents Secret
    → Result EstablishError Bytes
init_ble_ident serde expand_ident init =
    calculate_ble_ident serde expand_ident init.device_engagement.inner.security.e_device_key

module _ {Documents Secret : Type 0} (base64 : Base64) where
  unfoldable pub qr_engagement :
      SessionManagerInit Documents Secret → SessionManagerEngaged Documents Secret × Str
  qr_engagement init = (
    record {
      documents = init.documents;
      e_device_key = init.e_device_key;
      device_engagement = init.device_engagement;
      handover = qr;
    },
    to_qr_code_uri base64 init.device_engagement,
  )

abbrev pub new_manager :
    {Item Auth Key Cose DeviceAuth : Type 0}
    → Map Str (Document Item Auth Key)
    → Bytes
    → Bytes
    → SessionManager Item Auth Key Cose DeviceAuth
new_manager documents sk_device sk_reader = record {
  documents = documents;
  sk_device = sk_device;
  device_message_counter = 0;
  sk_reader = sk_reader;
  reader_message_counter = 0;
  state = awaiting_request;
}

abbrev pub transcript_of :
    {Documents Secret : Type 0}
    → SessionManagerEngaged Documents Secret
    → SessionEstablishment
    → SessionTranscript
transcript_of engaged session_establishment = record {
  device_engagement = engaged.device_engagement;
  e_reader_key = session_establishment.e_reader_key;
  handover = engaged.handover;
}

module _
    {Item Auth Key Algorithm Cose DeviceAuth ReaderAuth Chain Verifier Payload Value AeadKey Secret
      Point Public : Type 0}
    (curve : Curve Secret Point Public) (serde : Serde)
    (transcript_to_vec : SessionTranscript → Option Bytes) (compress256 : Words → Bytes → Words)
    (cose : SessionTranscript → DeviceCose Key Algorithm Cose DeviceAuth)
    (crypto : SessionTranscript
      → TrustAnchorRegistry
      → ReaderCrypto ReaderAuth Chain Verifier Payload)
    (cbor : SessionCbor ReaderAuth Value (DeviceResponse Item Auth DeviceAuth))
    (aead : Aead AeadKey) where
  abbrev pub first_request :
      SessionTranscript
      → TrustAnchorRegistry
      → Bytes
      → SessionManager Item Auth Key Cose DeviceAuth
      → Established (SessionManager Item Auth Key Cose DeviceAuth) × RequestAuthenticationOutcome
  first_request session_transcript trusted_verifiers bytes sm =
      let (outcome, sm') =
        handle_decoded_request (cose session_transcript)
          (crypto session_transcript trusted_verifiers) cbor aead
          (record { data_bytes = some bytes; status = none }) sm in
      (
        record {
          session_transcript = session_transcript;
          trusted_verifiers = trusted_verifiers;
          manager = sm';
        },
        outcome,
      )

  unfoldable pub process_session_establishment :
      SessionManagerEngaged (Map Str (Document Item Auth Key)) Secret
      → SessionEstablishment
      → TrustAnchorRegistry
      → Result EstablishError (
          Established (SessionManager Item Auth Key Cose DeviceAuth) × RequestAuthenticationOutcome)
  process_session_establishment engaged session_establishment trusted_verifiers = do
    let session_transcript = transcript_of engaged session_establishment
    session_transcript_bytes ←
        map_err tag24_encoding (tag24_of transcript_to_vec session_transcript)
    secret ←
        map_err shared_secret
          (get_shared_secret curve session_establishment.e_reader_key.inner engaged.e_device_key)
    sk_reader ← session_key serde compress256 secret session_transcript_bytes true
    sk_device ← session_key serde compress256 secret session_transcript_bytes false
    ok (
        first_request session_transcript trusted_verifiers session_establishment.data_bytes
          (new_manager engaged.documents sk_device sk_reader))
