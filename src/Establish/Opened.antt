-- ===== src/Establish/Opened.antt =====
-- src/presentation/reader.rs: what `establish_session` has done where it succeeds.
use mathlib.Core.Path.{subst}
use isomdl_elevenid.Common.{
  ap, ◌≡◌, true, false, Bool, Option, ok, >>=-eq-ok, ok-injective, map_err-eq-ok, map_err, some,
}
use isomdl_elevenid.Common.Order.{Str}
use isomdl_elevenid.Common.Map.{Map}
use isomdl_elevenid.Session.{Bytes, Aead}
use isomdl_elevenid.Session.Sha256.{Words}
use isomdl_elevenid.DeviceKey.CoseKey.{CoseKey}
use isomdl_elevenid.Issuance.Plan.{Tag24}
use isomdl_elevenid.Cose.Sign1.{Signatures}
use isomdl_elevenid.X509.{CertificateLib, TrustAnchorRegistry}
use isomdl_elevenid.Engagement.{DeviceEngagement}
use isomdl_elevenid.Engagement.Tagged.{tag24_of, tag24_of-eq-ok}
use isomdl_elevenid.Engagement.Codec.{Serde}
use isomdl_elevenid.Engagement.Qr.{Base64, from_qr_code_uri}
use isomdl_elevenid.Reader.{Response, Authenticator}
use isomdl_elevenid.Reader.Manager.{ReaderCbor, ReaderManager}
use isomdl_elevenid.Establish.{
  invalid_qr_code, ephemeral_key, tag24_encoding, shared_secret, SessionTranscript,
  SessionEstablishment,
}
use isomdl_elevenid.Establish.Keys.{
  calculate_ble_ident, Curve, create_p256_ephemeral_keys, get_shared_secret, key_to_vec,
  session_key,
}
use isomdl_elevenid.Establish.Reader.{
  begin_session, agree_secret, reader_transcript, new_reader, request_session, establish_session,
}
use isomdl_elevenid.Establish.Requested.{IsRequested, request_session-IsRequested}

-- The keys of the reader's side of a session that this engagement began.
pub record IsKeyed {Secret Point Public : Type 0} (curve : Curve Secret Point Public)
    (serde : Serde) (transcript_to_vec : SessionTranscript → Option Bytes)
    (compress256 : Words → Bytes → Words) (engagement : Tag24 DeviceEngagement)
    (e_reader_key : Tag24 CoseKey) (private_key : Secret) (sk_device sk_reader : Bytes)
    : Type 0 where
  pub secret : Bytes
  pub transcript : Tag24 SessionTranscript
  pub shared :
      get_shared_secret curve engagement.inner.security.e_device_key.inner private_key ≡ ok secret
  pub encoded :
      tag24_of transcript_to_vec (reader_transcript engagement e_reader_key) ≡ ok transcript
  pub reader_key : session_key serde compress256 secret transcript true ≡ ok sk_reader
  pub device_key : session_key serde compress256 secret transcript false ≡ ok sk_device

module _
    {Protected Namespaces AuthPoint Signature Verifier CertSignature ReaderAuth AeadKey Secret Point
      Public : Type 0}
    (lib : Signatures Protected Signature Verifier)
    (auth : Authenticator Protected Namespaces SessionTranscript AuthPoint Verifier)
    (certificates : CertificateLib Verifier CertSignature)
    (reader_cbor : ReaderCbor ReaderAuth (Response Protected Namespaces)) (aead : Aead AeadKey)
    (curve : Curve Secret Point Public) (serde : Serde) (base64 : Base64)
    (transcript_to_vec : SessionTranscript → Option Bytes)
    (establishment_to_vec : SessionEstablishment → Option Bytes)
    (expand_ident : Bytes → Option Bytes) (compress256 : Words → Bytes → Words) where
  module _ (namespaces : Map Str (Map Str Bool)) (registry : TrustAnchorRegistry)
      (reader : ReaderManager SessionTranscript) (message ident : Bytes) where
    begin_session-IsRequested :
        (engagement : Tag24 DeviceEngagement) (e_reader_key : Tag24 CoseKey) (ble secret : Bytes)
        (transcript : Tag24 SessionTranscript)
        → begin_session lib auth certificates reader_cbor aead curve serde base64 transcript_to_vec
            establishment_to_vec expand_ident compress256 engagement e_reader_key ble secret
            transcript namespaces registry
          ≡ ok (reader, message, ident)
        → (sk_device : Bytes) × (sk_reader : Bytes) × (session_key serde compress256 secret
              transcript true
            ≡ ok sk_reader)
          × (session_key serde compress256 secret transcript false ≡ ok sk_device)
          × (ble ≡ ident)
          × IsRequested lib auth certificates reader_cbor aead establishment_to_vec namespaces
              e_reader_key
              (new_reader (reader_transcript engagement e_reader_key) sk_device sk_reader registry)
              reader
              message
    begin_session-IsRequested engagement e_reader_key ble secret transcript h =
        let (sk_reader, reader_key, h₁) =
          >>=-eq-ok (session_key serde compress256 secret transcript true) _ h in
        let (sk_device, device_key, h₂) =
          >>=-eq-ok (session_key serde compress256 secret transcript false) _ h₁ in
        let manager : ReaderManager SessionTranscript =
          new_reader (reader_transcript engagement e_reader_key) sk_device sk_reader registry in
        let ((manager', bytes), requested, h₃) =
          >>=-eq-ok
            (request_session lib auth certificates reader_cbor aead establishment_to_vec
              e_reader_key namespaces manager)
            _ h₂ in
        let same = ok-injective _ (reader, message, ident) h₃ in
        (
          sk_device,
          sk_reader,
          reader_key,
          device_key,
          ap (λ p. p.2) same,
          subst
              (λ p.
                IsRequested lib auth certificates reader_cbor aead establishment_to_vec namespaces
                  e_reader_key manager p.0 p.1)
              same
              (request_session-IsRequested lib auth certificates reader_cbor aead
                establishment_to_vec namespaces e_reader_key manager manager' bytes requested),
        )

    -- The keys of the reader's side, and the request that is made with them.
    abbrev pub AreOpened : Tag24 DeviceEngagement → Tag24 CoseKey → Secret → Type 0
    AreOpened engagement e_reader_key private_key =
        (sk_device : Bytes) × (sk_reader : Bytes) × IsKeyed curve serde transcript_to_vec
          compress256 engagement e_reader_key private_key sk_device sk_reader
        × (calculate_ble_ident serde expand_ident engagement.inner.security.e_device_key ≡ ok ident)
        × IsRequested lib auth certificates reader_cbor aead establishment_to_vec namespaces
            e_reader_key
            (new_reader (reader_transcript engagement e_reader_key) sk_device sk_reader registry)
            reader message

    agree_secret-AreOpened :
        (engagement : Tag24 DeviceEngagement) (e_reader_key : Tag24 CoseKey) (private_key : Secret)
        → agree_secret lib auth certificates reader_cbor aead curve serde base64 transcript_to_vec
            establishment_to_vec expand_ident compress256 engagement e_reader_key private_key
            namespaces registry
          ≡ ok (reader, message, ident)
        → AreOpened engagement e_reader_key private_key
    agree_secret-AreOpened engagement e_reader_key private_key h =
        let (ble, expanded, h₁) =
          >>=-eq-ok (calculate_ble_ident serde expand_ident engagement.inner.security.e_device_key)
            _ h in
        let (secret, shared, h₂) =
          >>=-eq-ok
            (map_err shared_secret
              (get_shared_secret curve engagement.inner.security.e_device_key.inner private_key))
            _ h₁ in
        let (transcript, encoded, h₃) =
          >>=-eq-ok
            (map_err tag24_encoding
              (tag24_of transcript_to_vec (reader_transcript engagement e_reader_key)))
            _ h₂ in
        let (sk_device, sk_reader, reader_key, device_key, identified, requested) =
          begin_session-IsRequested engagement e_reader_key ble secret transcript h₃ in
        (
          sk_device,
          sk_reader,
          record {
            secret = secret;
            transcript = transcript;
            shared = map_err-eq-ok shared_secret _ _ shared;
            encoded = map_err-eq-ok tag24_encoding _ _ encoded;
            reader_key = reader_key;
            device_key = device_key;
          },
          rw (← identified) expanded,
          requested,
        )

    pub establish_session-AreOpened :
        (generated : Secret) (qr_code : Str)
        → establish_session lib auth certificates reader_cbor aead curve serde base64
            transcript_to_vec establishment_to_vec expand_ident compress256 generated qr_code
            namespaces registry
          ≡ ok (reader, message, ident)
        → (engagement : Tag24 DeviceEngagement) × (e_reader_key : Tag24 CoseKey)
          × (private_key : Secret) × (from_qr_code_uri base64 serde qr_code ≡ ok engagement)
          × (create_p256_ephemeral_keys curve generated ≡ ok (private_key, e_reader_key.inner))
          × (key_to_vec serde e_reader_key.inner ≡ some e_reader_key.inner_bytes)
          × AreOpened engagement e_reader_key private_key
    unfolding establish_session
    establish_session-AreOpened generated qr_code h =
        let (engagement, scanned, h₁) =
          >>=-eq-ok (map_err invalid_qr_code (from_qr_code_uri base64 serde qr_code)) _ h in
        let ((private_key, public_key), created, h₂) =
          >>=-eq-ok (map_err ephemeral_key (create_p256_ephemeral_keys curve generated)) _ h₁ in
        let (e_reader_key, tagged, h₃) =
          >>=-eq-ok (map_err tag24_encoding (tag24_of (key_to_vec serde) public_key)) _ h₂ in
        let (key_written, key_kept) =
          tag24_of-eq-ok (key_to_vec serde) public_key e_reader_key
            (map_err-eq-ok tag24_encoding _ _ tagged) in
        (
          engagement,
          e_reader_key,
          private_key,
          map_err-eq-ok invalid_qr_code _ _ scanned,
          rw key_kept (map_err-eq-ok ephemeral_key _ _ created),
          key_written,
          agree_secret-AreOpened engagement e_reader_key private_key h₃,
        )
