-- ===== src/Establish/Established.antt =====
-- src/presentation: the establishment of a session from the QR code of the holder to the first request
-- of the reader, both sides together.
use mathlib.Core.Path.{subst}
use isomdl_elevenid.Common.{◌≡◌, refl, sym, ◌∙◌, ap, Bool, Option, some, ok, ok-injective, [], ◌∷◌}
use isomdl_elevenid.Common.Order.{Str}
use isomdl_elevenid.Common.Map.{Map}
use isomdl_elevenid.Session.{Bytes, Aead, OpensSealed}
use isomdl_elevenid.Session.Sha256.{Words}
use isomdl_elevenid.DeviceKey.CoseKey.{CoseKey}
use isomdl_elevenid.Issuance.Plan.{Tag24}
use isomdl_elevenid.Cose.Sign1.{Signatures}
use isomdl_elevenid.X509.{CertificateLib, TrustAnchorRegistry}
use isomdl_elevenid.Device.{Document}
use isomdl_elevenid.Device.Response.{DeviceCose}
use isomdl_elevenid.Device.ReaderAuth.{ReaderCrypto, RequestAuthenticationOutcome, validate_request}
use isomdl_elevenid.Device.Manager.{SessionCbor, SessionManager, with_reader_counter}
use isomdl_elevenid.Engagement.{DeviceRetrievalMethods, ServerRetrievalMethods}
use isomdl_elevenid.Engagement.Codec.{Serde}
use isomdl_elevenid.Engagement.RoundTrip.{Derives, AreMethods, AreServed}
use isomdl_elevenid.Engagement.Qr.{
  Base64, DecodesEncoded, ReadsWritten, to_qr_code_uri, from_qr_code_uri-to_qr_code_uri,
}
use isomdl_elevenid.Reader.{Item, IssuerAuth, DeviceSigned, Response, Authenticator, mdl_doc_type}
use isomdl_elevenid.Reader.Manager.{ReaderCbor, ReaderManager, device_request}
use isomdl_elevenid.Reader.Exchange.{Agree, InStep, handle_sealed, received}
use isomdl_elevenid.Establish.{SessionTranscript, SessionEstablishment}
use isomdl_elevenid.Establish.Keys.{Curve, create_p256_ephemeral_keys, get_shared_secret}
use isomdl_elevenid.Establish.Reader.{establish_session, reader_transcript, new_reader}
use isomdl_elevenid.Establish.Holder.{
  SessionManagerInit, Established, initialise, init_ble_ident, qr_engagement, new_manager,
  first_request, process_session_establishment,
}
use isomdl_elevenid.Establish.Agreed.{Exchanges, get_shared_secret-create_p256_ephemeral_keys}
use isomdl_elevenid.Establish.Engaged.{key_from_slice-key_to_vec, IsEngaged, initialise-IsEngaged}
use isomdl_elevenid.Establish.Requested.{IsRequested}
use isomdl_elevenid.Establish.Opened.{IsKeyed, AreOpened, establish_session-AreOpened}
use isomdl_elevenid.Establish.Message.{
  EstablishmentSerde, DerivesEstablishment, ReadsEstablishments, establishment_to_vec,
  establishment_from_slice, establishment_from_slice-establishment_to_vec,
}

module _
    {Protected Namespaces AuthPoint Signature Verifier CertSignature ReaderAuth Key Algorithm Cose
      Chain CryptoVerifier Payload Value AeadKey Secret Point Public : Type 0}
    (lib : Signatures Protected Signature Verifier)
    (auth : Authenticator Protected Namespaces SessionTranscript AuthPoint Verifier)
    (certificates : CertificateLib Verifier CertSignature)
    (reader_cbor : ReaderCbor ReaderAuth (Response Protected Namespaces))
    (cose : SessionTranscript → DeviceCose Key Algorithm Cose (DeviceSigned Protected Namespaces))
    (crypto : SessionTranscript
      → TrustAnchorRegistry
      → ReaderCrypto ReaderAuth Chain CryptoVerifier Payload)
    (cbor : SessionCbor ReaderAuth Value (Response Protected Namespaces)) (aead : Aead AeadKey)
    (curve : Curve Secret Point Public) (serde : Serde) (base64 : Base64)
    (transcript_to_vec : SessionTranscript → Option Bytes) (derived : EstablishmentSerde)
    (expand_ident : Bytes → Option Bytes) (compress256 : Words → Bytes → Words)
    (namespaces : Map Str (Map Str Bool)) (trusted_verifiers : TrustAnchorRegistry) where
  abbrev pub Documents : Type 0
  Documents = Map Str (Document Item (IssuerAuth Protected) Key)

  -- What the libraries guarantee: the exchange of the curve, the opening of what was sealed, and the
  -- reading of what was written.
  pub record Guarantees : Type 0 where
    pub exchanges : Exchanges curve
    pub opens : OpensSealed aead
    pub derives : Derives serde
    pub decodes : DecodesEncoded base64
    pub reads : ReadsWritten serde
    pub agree :
        (t : SessionTranscript)
        → Agree lib auth certificates reader_cbor
            (cose t)
            (crypto t trusted_verifiers)
            cbor
            aead
            namespaces
    pub establishment : DerivesEstablishment derived
    pub reads_establishment : ReadsEstablishments serde derived

  abbrev pub Holder : Type 0
  Holder = SessionManager Item (IssuerAuth Protected) Key Cose (DeviceSigned Protected Namespaces)

  abbrev pub Accepted :
      ReaderManager SessionTranscript → Established Holder × RequestAuthenticationOutcome → Type 0
  Accepted reader (established, outcome) =
      (established.session_transcript ≡ reader.session_transcript)
      × (outcome.items_request ≡ record { doc_type = mdl_doc_type; namespaces = namespaces } ∷ [])
      × (outcome.errors ≡ [])
      × InStep lib auth certificates reader_cbor (cose established.session_transcript)
          (crypto established.session_transcript trusted_verifiers) cbor aead reader
          established.manager

  module _ (guarantees : Guarantees) where
    accepted :
        (documents : Documents) (transcript : SessionTranscript) (e_reader_key : Tag24 CoseKey)
        (sk_device sk_reader : Bytes) (registry : TrustAnchorRegistry)
        (reader : ReaderManager SessionTranscript) (message : Bytes)
        (r : IsRequested lib auth certificates reader_cbor aead
          (establishment_to_vec serde derived)
          namespaces
          e_reader_key
          (new_reader transcript sk_device sk_reader registry)
          reader
          message)
        → Accepted reader (
            first_request curve serde transcript_to_vec compress256 cose crypto cbor aead transcript
              trusted_verifiers r.sealed
              (new_manager documents sk_device sk_reader))
    accepted documents transcript e_reader_key sk_device sk_reader registry reader message r =
        let opened = guarantees.agree transcript in
        let manager : ReaderManager SessionTranscript =
          new_reader transcript sk_device sk_reader registry in
        let holder : Holder = new_manager documents sk_device sk_reader in
        let handled =
          handle_sealed lib auth certificates reader_cbor (cose transcript)
            (crypto transcript trusted_verifiers) cbor aead namespaces opened guarantees.opens
            holder r.plain r.sealed r.count r.request_encoded r.encrypted in
        let shared =
          received lib auth certificates reader_cbor (cose transcript)
            (crypto transcript trusted_verifiers) cbor aead namespaces opened guarantees.opens
            manager holder r.count
            (record {
              reader_key = refl;
              reader_counter = refl;
              device_key = refl;
              device_counter = refl;
            }) in
        subst
          (λ o. Accepted reader (
            record {
              session_transcript = transcript;
              trusted_verifiers = trusted_verifiers;
              manager = o.1;
            },
            o.0,
          ))
          (sym handled)
          (subst
            (λ m. Accepted m (
              record {
                session_transcript = transcript;
                trusted_verifiers = trusted_verifiers;
                manager =
                    with_reader_counter (cose transcript) (crypto transcript trusted_verifiers) cbor
                      aead holder r.count;
              },
              validate_request (crypto transcript trusted_verifiers)
                  (device_request lib auth certificates reader_cbor aead namespaces),
            ))
            r.counted (refl, shared.0, shared.1, shared.2))

    same_secret :
        (init : SessionManagerInit Documents Secret) (generated private_key : Secret)
        (e_reader_key : Tag24 CoseKey) (secret : Bytes) (documents : Documents)
        → IsEngaged curve serde guarantees.exchanges documents init
        → create_p256_ephemeral_keys curve generated ≡ ok (private_key, e_reader_key.inner)
        → get_shared_secret curve init.device_engagement.inner.security.e_device_key.inner
            private_key
          ≡ ok secret
        → get_shared_secret curve e_reader_key.inner init.e_device_key ≡ ok secret
    same_secret init generated private_key e_reader_key secret documents engaged created shared =
        (get_shared_secret-create_p256_ephemeral_keys curve guarantees.exchanges generated
          private_key init.e_device_key e_reader_key.inner created).1
        ∙ ap ok (guarantees.exchanges.symmetric init.e_device_key private_key)
        ∙ sym (engaged.shared private_key)
        ∙ shared

    processed :
        (init : SessionManagerInit Documents Secret) (private_key : Secret)
        (e_reader_key : Tag24 CoseKey) (sk_device sk_reader sealed : Bytes)
        (k : IsKeyed curve serde transcript_to_vec compress256 init.device_engagement e_reader_key
          private_key sk_device sk_reader)
        → get_shared_secret curve e_reader_key.inner init.e_device_key ≡ ok k.secret
        → process_session_establishment curve serde transcript_to_vec compress256 cose crypto cbor
            aead
            (qr_engagement base64 init).0
            (record { e_reader_key = e_reader_key; data_bytes = sealed })
            trusted_verifiers
          ≡ ok (
              first_request curve serde transcript_to_vec compress256 cose crypto cbor aead
                (reader_transcript init.device_engagement e_reader_key)
                trusted_verifiers
                sealed
                (new_manager init.documents sk_device sk_reader))
    unfolding process_session_establishment qr_engagement
    processed init private_key e_reader_key sk_device sk_reader sealed k shared =
        rw (k.encoded, shared, k.reader_key, k.device_key) refl

    -- Where the holder has initialised a session with options in their ranges, and the reader, who has
    -- scanned the QR code of that engagement, has established the session, both have the same Bluetooth
    -- identifier, the message of the reader is decoded, and the holder processes it without an error: it
    -- derives the reader's keys from its own side of the exchange, has the same transcript, receives the
    -- request for the requested elements of the mDL with no error in the outcome, and the counters of
    -- both sides are in step. The libraries are those of `Guarantees`.
    pub process_session_establishment-establish_session :
        (documents : Documents) (device : Option DeviceRetrievalMethods)
        (server : Option ServerRetrievalMethods) (registry : TrustAnchorRegistry)
        (device_secret reader_secret : Secret) (init : SessionManagerInit Documents Secret)
        (reader : ReaderManager SessionTranscript) (message ident : Bytes)
        → AreMethods device
        → AreServed server
        → initialise curve serde documents device server device_secret ≡ ok init
        → establish_session lib auth certificates reader_cbor aead curve serde base64
            transcript_to_vec
            (establishment_to_vec serde derived)
            expand_ident
            compress256
            reader_secret
            (qr_engagement base64 init).1
            namespaces
            registry
          ≡ ok (reader, message, ident)
        → (init_ble_ident serde expand_ident init ≡ ok ident)
          × (e : SessionEstablishment) × (holder : Established Holder)
          × (outcome : RequestAuthenticationOutcome) × (establishment_from_slice serde derived
                message
              ≡ some e)
          × (process_session_establishment curve serde transcript_to_vec compress256 cose crypto
                cbor aead
                (qr_engagement base64 init).0
                e
                trusted_verifiers
              ≡ ok (holder, outcome))
          × Accepted reader (holder, outcome)
    unfolding qr_engagement init_ble_ident
    process_session_establishment-establish_session documents device server registry device_secret
          reader_secret init reader message ident methods servers initialised established =
        let engaged =
          initialise-IsEngaged curve serde guarantees.exchanges guarantees.reads documents device
            server device_secret init methods servers initialised in
        let (engagement, e_reader_key, private_key, scanned, created, written, opened) =
          establish_session-AreOpened lib auth certificates reader_cbor aead curve serde base64
            transcript_to_vec (establishment_to_vec serde derived) expand_ident compress256
            namespaces registry reader message ident reader_secret
            (to_qr_code_uri base64 init.device_engagement) established in
        let read =
          from_qr_code_uri-to_qr_code_uri base64 serde guarantees.derives guarantees.decodes
            guarantees.reads init.device_engagement.inner init.device_engagement engaged.valid
            engaged.made in
        let (sk_device, sk_reader, k, identified, r) =
          subst
            (λ g.
              AreOpened lib auth certificates reader_cbor aead curve serde base64 transcript_to_vec
                (establishment_to_vec serde derived) expand_ident compress256 namespaces registry
                reader message ident g e_reader_key private_key)
            (ok-injective engagement init.device_engagement (sym scanned ∙ read)) opened in
        let key_read =
          key_from_slice-key_to_vec serde guarantees.reads e_reader_key.inner
            e_reader_key.inner_bytes written in
        let (holder, outcome) =
          first_request curve serde transcript_to_vec compress256 cose crypto cbor aead
            (reader_transcript init.device_engagement e_reader_key) trusted_verifiers r.sealed
            (new_manager init.documents sk_device sk_reader) in
        (
          identified,
          record { e_reader_key = e_reader_key; data_bytes = r.sealed },
          holder,
          outcome,
          establishment_from_slice-establishment_to_vec serde derived guarantees.establishment
              guarantees.reads_establishment _ message key_read r.written,
          processed init private_key e_reader_key sk_device sk_reader r.sealed k (
              same_secret init reader_secret private_key e_reader_key k.secret documents engaged
                created k.shared),
          accepted init.documents (reader_transcript init.device_engagement e_reader_key)
              e_reader_key sk_device sk_reader registry reader message r,
        )
