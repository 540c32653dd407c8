-- ===== src/Reader/Exchange.antt =====
-- src/presentation: the reader and the device in one session. The two sides share their keys, their
-- counters are in step, and each decodes what the other encodes.
use mathlib.Core.Path.{subst}
use isomdl_elevenid.Common.{
  ok_or-eq-ok, ◌>>=◌, ℕ, ◌≡◌, refl, sym, ◌∙◌, Bool, [], ◌∷◌, none, some, Result, ok, err, >>=-eq-ok,
  ok_or,
}
use isomdl_elevenid.Common.Order.{Str}
use isomdl_elevenid.Common.Map.{Map}
use isomdl_elevenid.Session.{
  Bytes, Aead, AeadError, OpensSealed, encrypt_reader_data, decrypt_reader_data,
}
use isomdl_elevenid.Session.Channel.{decrypt-encrypt}
use isomdl_elevenid.Cose.Sign1.{Signatures}
use isomdl_elevenid.X509.{CertificateLib}
use isomdl_elevenid.Device.Response.{DeviceCose}
use isomdl_elevenid.Device.ReaderAuth.{ReaderCrypto, RequestAuthenticationOutcome, validate_request}
use isomdl_elevenid.Device.Manager.{
  SessionData, SessionCbor, SessionManager, with_reader_counter, parse_request,
  handle_decoded_request, handle_request,
}
use isomdl_elevenid.Reader.{Item, IssuerAuth, DeviceSigned, Response, Authenticator, mdl_doc_type}
use isomdl_elevenid.Reader.Manager.{
  ReaderCbor, ReaderManager, RequestBuildError, request_bytes, device_request, encrypt_request,
  sealed_request, build_request, session_bytes, new_request,
}

module _
    {Protected Namespaces Transcript Point Signature Verifier CertSignature ReaderAuth Key Algorithm
      Cose Chain CryptoVerifier Payload Value AeadKey : Type 0}
    (lib : Signatures Protected Signature Verifier)
    (auth : Authenticator Protected Namespaces Transcript Point Verifier)
    (certificates : CertificateLib Verifier CertSignature)
    (reader_cbor : ReaderCbor ReaderAuth (Response Protected Namespaces))
    (cose : DeviceCose Key Algorithm Cose (DeviceSigned Protected Namespaces))
    (crypto : ReaderCrypto ReaderAuth Chain CryptoVerifier Payload)
    (cbor : SessionCbor ReaderAuth Value (Response Protected Namespaces))
    (aead : Aead AeadKey) where
  abbrev pub Holder : Type 0
  Holder = SessionManager Item (IssuerAuth Protected) Key Cose (DeviceSigned Protected Namespaces)

  -- What the reader encodes for a request of these elements, the holder decodes: the session data,
  -- and the request in it.
  pub record Agree (namespaces : Map Str (Map Str Bool)) : Type 0 where
    pub request_data :
        (sealed bytes : Bytes)
        → reader_cbor.session_data_to_vec (record { data_bytes = some sealed; status = none })
          ≡ some bytes
        → cbor.session_data_from_slice bytes
          ≡ some (record { data_bytes = some sealed; status = none })
    pub request :
        (bytes : Bytes)
        → reader_cbor.request_to_vec
            (device_request lib auth certificates reader_cbor aead namespaces)
          ≡ some bytes
        → (v : Value) × (cbor.value_from_slice bytes ≡ some v)
          × (cbor.request_from_value v
              ≡ some (device_request lib auth certificates reader_cbor aead namespaces))

  -- Both sides hold the keys of the session, and the counters of the messages are in step.
  pub record InStep (reader : ReaderManager Transcript) (holder : Holder) : Type 0 where
    pub reader_key : reader.sk_reader ≡ holder.sk_reader
    pub reader_counter : reader.reader_message_counter ≡ holder.reader_message_counter
    pub device_key : reader.sk_device ≡ holder.sk_device
    pub device_counter : reader.device_message_counter ≡ holder.device_message_counter

  module _ (namespaces : Map Str (Map Str Bool)) (agree : Agree namespaces)
      (opens : OpensSealed aead) where
    pub handle_sealed :
        (holder : Holder) (bytes sealed : Bytes) (count : ℕ)
        → reader_cbor.request_to_vec
            (device_request lib auth certificates reader_cbor aead namespaces)
          ≡ some bytes
        → encrypt_reader_data aead holder.sk_reader bytes holder.reader_message_counter
          ≡ (ok sealed, count)
        → handle_decoded_request cose crypto cbor aead
            (record { data_bytes = some sealed; status = none })
            holder
          ≡ (
            validate_request crypto
                (device_request lib auth certificates reader_cbor aead namespaces),
            with_reader_counter cose crypto cbor aead holder count,
          )
    unfolding handle_decoded_request parse_request encrypt_reader_data decrypt_reader_data
    handle_sealed holder bytes sealed count encoded e =
        let (v, from_bytes, from_value) = agree.request bytes encoded in
        let opened =
          decrypt-encrypt aead holder.sk_reader opens bytes sealed holder.reader_message_counter
            count Bool.true e in
        rw (opened, from_bytes, from_value)

    handle_request-decoded :
        (holder : Holder) (bytes : Bytes) (d : SessionData)
        → cbor.session_data_from_slice bytes ≡ some d
        → handle_request cose crypto cbor aead bytes holder
          ≡ handle_decoded_request cose crypto cbor aead d holder
    unfolding handle_request
    handle_request-decoded holder bytes d e = rw (handle_request, e) refl

    -- What the holder is given, and that the counters stay in step.
    abbrev pub Received : ReaderManager Transcript → RequestAuthenticationOutcome × Holder → Type 0
    Received reader (outcome, holder) =
        (outcome.items_request ≡ record { doc_type = mdl_doc_type; namespaces = namespaces } ∷ [])
        × (outcome.errors ≡ [])
        × InStep reader holder

    pub received :
        (reader : ReaderManager Transcript) (holder : Holder) (count : ℕ)
        → InStep reader holder
        → Received
            (record reader { reader_message_counter = count })
            (
              validate_request crypto
                  (device_request lib auth certificates reader_cbor aead namespaces),
              with_reader_counter cose crypto cbor aead holder count,
            )
    unfolding validate_request
    received reader holder count s = (
      refl,
      refl,
      record {
        reader_key = s.reader_key;
        reader_counter = refl;
        device_key = s.device_key;
        device_counter = s.device_counter;
      },
    )

    -- A request that the reader has made is received by the holder, who shares the session and decodes
    -- what the reader encodes, as it was asked for: the requested elements of the mDL, without an error
    -- of decryption or parsing; and the counters of the two sides are in step again.
    pub handle_request-new_request :
        (reader : ReaderManager Transcript) (holder : Holder) (bytes : Bytes)
        → InStep reader holder
        → (new_request lib auth certificates reader_cbor aead namespaces reader).0 ≡ ok bytes
        → ((handle_request cose crypto cbor aead bytes holder).0.items_request
            ≡ record { doc_type = mdl_doc_type; namespaces = namespaces } ∷ [])
          × ((handle_request cose crypto cbor aead bytes holder).0.errors ≡ [])
          × InStep
              (new_request lib auth certificates reader_cbor aead namespaces reader).1
              (handle_request cose crypto cbor aead bytes holder).1
    unfolding new_request build_request handle_request
    handle_request-new_request reader holder bytes s h =
        encoded (request_bytes lib auth certificates reader_cbor aead namespaces) refl h
      where
        sealed :
            (plain : Bytes)
            → reader_cbor.request_to_vec
                (device_request lib auth certificates reader_cbor aead namespaces)
              ≡ some plain
            → (o : Result AeadError Bytes × ℕ)
            → encrypt_reader_data aead reader.sk_reader plain reader.reader_message_counter ≡ o
            → (sealed_request lib auth certificates reader_cbor aead o.0
                >>= session_bytes lib auth certificates reader_cbor aead)
              ≡ ok bytes
            → Received
                (record reader { reader_message_counter = o.1 })
                (handle_request cose crypto cbor aead bytes holder)
        sealed plain e (err x, count) f k = absurd cc
        sealed plain e (ok c, count) f k =
            let data_encoded =
              ok_or-eq-ok
                (reader_cbor.session_data_to_vec (record { data_bytes = some c; status = none })) _
                _ k in
            let decoded = agree.request_data c bytes data_encoded in
            let same : encrypt_reader_data aead holder.sk_reader plain holder.reader_message_counter
                ≡ (ok c, count) =
              rw (← s.reader_key, ← s.reader_counter) f in
            let handled =
              handle_request-decoded holder bytes _ decoded
              ∙ handle_sealed holder plain c count e same in
            subst (Received (record reader { reader_message_counter = count })) (sym handled)
              (received reader holder count s)

        encoded :
            (r : Result RequestBuildError Bytes)
            → request_bytes lib auth certificates reader_cbor aead namespaces ≡ r
            → ((encrypt_request lib auth certificates reader_cbor aead reader r).0
                >>= session_bytes lib auth certificates reader_cbor aead)
              ≡ ok bytes
            → Received
                (encrypt_request lib auth certificates reader_cbor aead reader r).1
                (handle_request cose crypto cbor aead bytes holder)
        encoded (err x) e k = absurd cc
        encoded (ok plain) e k =
            let (items, tested, e') =
              >>=-eq-ok
                (ok_or
                  (reader_cbor.items_to_vec
                    (record { doc_type = mdl_doc_type; namespaces = namespaces }))
                  _)
                _ e in
            sealed plain (ok_or-eq-ok _ _ _ e')
              (encrypt_reader_data aead reader.sk_reader plain reader.reader_message_counter) refl k
