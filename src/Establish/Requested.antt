-- ===== src/Establish/Requested.antt =====
-- src/presentation/reader.rs: the first request, in the message that establishes the session.
use mathlib.Core.Path.{subst}
use isomdl_elevenid.Common.{
  ℕ, ◌≡◌, refl, Bool, Option, some, ok, err, ok_or-eq-ok, ok_or, >>=-eq-ok, ok-injective, Result,
}
use isomdl_elevenid.Common.Order.{Str}
use isomdl_elevenid.Common.Map.{Map}
use isomdl_elevenid.Session.{Bytes, Aead, AeadError, encrypt_reader_data}
use isomdl_elevenid.DeviceKey.CoseKey.{CoseKey}
use isomdl_elevenid.Issuance.Plan.{Tag24}
use isomdl_elevenid.Cose.Sign1.{Signatures}
use isomdl_elevenid.X509.{CertificateLib}
use isomdl_elevenid.Reader.{Response, Authenticator, mdl_doc_type}
use isomdl_elevenid.Reader.Manager.{
  ReaderCbor, ReaderManager, RequestBuildError, request_bytes, device_request, encrypt_request,
  sealed_request, build_request,
}
use isomdl_elevenid.Establish.{SessionTranscript, SessionEstablishment}
use isomdl_elevenid.Establish.Reader.{establishment, request_session}

module _
    {Protected Namespaces AuthPoint Signature Verifier CertSignature ReaderAuth AeadKey : Type 0}
    (lib : Signatures Protected Signature Verifier)
    (auth : Authenticator Protected Namespaces SessionTranscript AuthPoint Verifier)
    (certificates : CertificateLib Verifier CertSignature)
    (reader_cbor : ReaderCbor ReaderAuth (Response Protected Namespaces)) (aead : Aead AeadKey)
    (establishment_to_vec : SessionEstablishment → Option Bytes) where
  -- The request that the message carries: sealed under the reader's key, after which the counter is
  -- the new one.
  pub record IsRequested (namespaces : Map Str (Map Str Bool)) (e_reader_key : Tag24 CoseKey)
      (manager manager' : ReaderManager SessionTranscript) (message : Bytes) : Type 0 where
    pub plain : Bytes
    pub sealed : Bytes
    pub count : ℕ
    pub request_encoded :
        reader_cbor.request_to_vec
          (device_request lib auth certificates reader_cbor aead namespaces)
        ≡ some plain
    pub encrypted :
        encrypt_reader_data aead manager.sk_reader plain manager.reader_message_counter
        ≡ (ok sealed, count)
    pub counted : record manager { reader_message_counter = count } ≡ manager'
    pub written :
        establishment_to_vec (record { e_reader_key = e_reader_key; data_bytes = sealed })
        ≡ some message

  module _ (namespaces : Map Str (Map Str Bool)) (e_reader_key : Tag24 CoseKey)
      (manager manager' : ReaderManager SessionTranscript) (message : Bytes) where
    sealed-IsRequested :
        (plain : Bytes)
        → reader_cbor.request_to_vec
            (device_request lib auth certificates reader_cbor aead namespaces)
          ≡ some plain
        → (o : Result AeadError Bytes × ℕ)
        → encrypt_reader_data aead manager.sk_reader plain manager.reader_message_counter ≡ o
        → establishment lib auth certificates reader_cbor aead establishment_to_vec e_reader_key (
          sealed_request lib auth certificates reader_cbor aead o.0,
          record manager { reader_message_counter = o.1 },
        )
          ≡ ok (manager', message)
        → IsRequested namespaces e_reader_key manager manager' message
    sealed-IsRequested plain e (err x, count) f k = absurd cc
    sealed-IsRequested plain e (ok c, count) f k =
        let (session_request, written, same) =
          >>=-eq-ok
            (ok_or (establishment_to_vec (record { e_reader_key = e_reader_key; data_bytes = c }))
              _)
            _ k in
        subst (λ p. IsRequested namespaces e_reader_key manager p.0 p.1) (ok-injective _ _ same)
          (record {
            plain = plain;
            sealed = c;
            count = count;
            request_encoded = e;
            encrypted = f;
            counted = refl;
            written = ok_or-eq-ok _ _ _ written;
          })

    encoded-IsRequested :
        (r : Result RequestBuildError Bytes)
        → request_bytes lib auth certificates reader_cbor aead namespaces ≡ r
        → establishment lib auth certificates reader_cbor aead establishment_to_vec e_reader_key
            (encrypt_request lib auth certificates reader_cbor aead manager r)
          ≡ ok (manager', message)
        → IsRequested namespaces e_reader_key manager manager' message
    encoded-IsRequested (err x) e k = absurd cc
    encoded-IsRequested (ok plain) e k =
        let (items, tested, e') =
          >>=-eq-ok
            (ok_or
              (reader_cbor.items_to_vec
                (record { doc_type = mdl_doc_type; namespaces = namespaces }))
              _)
            _ e in
        sealed-IsRequested plain (ok_or-eq-ok _ _ _ e')
          (encrypt_reader_data aead manager.sk_reader plain manager.reader_message_counter) refl k

    pub request_session-IsRequested :
        request_session lib auth certificates reader_cbor aead establishment_to_vec e_reader_key
            namespaces manager
          ≡ ok (manager', message)
        → IsRequested namespaces e_reader_key manager manager' message
    unfolding build_request
    request_session-IsRequested h =
        encoded-IsRequested (request_bytes lib auth certificates reader_cbor aead namespaces) refl h
