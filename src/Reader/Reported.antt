-- ===== src/Reader/Reported.antt =====
-- src/presentation/reader.rs: what is reported of a response is true of the bytes that were received.
use isomdl_elevenid.Common.{◌≡◌, refl, sym, ap, ◌∙◌, Option, none, some, Result, ok, err}
use isomdl_elevenid.Common.Order.{Str, str}
use isomdl_elevenid.Common.Int.{ℤ}
use isomdl_elevenid.Common.Map.{Map}
use mathlib.Core.Path.{subst}
use isomdl_elevenid.Session.{Bytes, Aead}
use isomdl_elevenid.Cose.Sign1.{Signatures}
use isomdl_elevenid.Device.Manager.{SessionData}
use isomdl_elevenid.Device.ReaderAuth.{valid, unchecked}
use isomdl_elevenid.X509.{Certificate, CertificateLib}
use isomdl_elevenid.X509.Chain.{X5Chain}
use isomdl_elevenid.Reader.{Document, Response, Authenticator}
use isomdl_elevenid.Reader.Json.{Json}
use isomdl_elevenid.Reader.Parse.{
  ReaderError, reader_panicked, parse, holder_error, decryption_error, cbor_decoding_error,
  device_transmission_error, document_type_error, no_mdl_data_transmission, incorrect_namespace,
  x5chain_missing, x5chain_parsing,
}
use isomdl_elevenid.Reader.Manager.{
  ResponseAuthenticationOutcome, ReaderCbor, ReaderManager, failed_outcome, validate_parsed,
  decrypt_data, decrypt_session, decrypt_response, outcome_of, handle_response,
}
use isomdl_elevenid.Reader.Authentic.{IsChecked, validate_response-IsChecked}

abbrev outcome_or :
    Option ResponseAuthenticationOutcome
    → ResponseAuthenticationOutcome
    → ResponseAuthenticationOutcome
outcome_or none other = other
outcome_or (some outcome) other = outcome

module _
    {Protected Namespaces Transcript Point Signature Verifier CertSignature ReaderAuth
      AeadKey : Type 0}
    (lib : Signatures Protected Signature Verifier)
    (auth : Authenticator Protected Namespaces Transcript Point Verifier)
    (certificates : CertificateLib Verifier CertSignature)
    (cbor : ReaderCbor ReaderAuth (Response Protected Namespaces)) (aead : Aead AeadKey)
    (from_der : Bytes → Option Certificate) (json_integer : ℤ → Option Json) where
  -- The bytes were decrypted and parsed to a document and the values reported of it, and the checks of
  -- the document passed against the transcript and the trust anchors of the session.
  pub record IsAuthentic (response : Bytes) (manager : ReaderManager Transcript)
      (outcome : ResponseAuthenticationOutcome) : Type 0 where
    pub device_response : Response Protected Namespaces
    pub document : Document Protected Namespaces
    pub x5chain : X5Chain
    pub opened :
        (decrypt_response lib auth certificates cbor aead response manager).0 ≡ ok device_response
    pub parsed :
        parse json_integer from_der device_response ≡ ok (document, x5chain, outcome.response)
    pub checked :
        IsChecked lib auth certificates manager.session_transcript manager.trust_anchor_registry
          x5chain document

  abbrev SameSession : ReaderManager Transcript → ReaderManager Transcript → Type 0
  SameSession m m' =
      (m.session_transcript ≡ m'.session_transcript)
      × (m.trust_anchor_registry ≡ m'.trust_anchor_registry)

  decrypt_response-SameSession :
      (response : Bytes) (manager : ReaderManager Transcript)
      → SameSession (decrypt_response lib auth certificates cbor aead response manager).1 manager
  unfolding decrypt_response
  decrypt_response-SameSession response manager = from (cbor.session_data_from_slice response)
    where
      opened :
          (o : Option Bytes)
          → SameSession (decrypt_data lib auth certificates cbor aead manager o).1 manager
      opened none = (refl, refl)
      opened (some bytes) = (refl, refl)

      from :
          (o : Option SessionData)
          → SameSession (decrypt_session lib auth certificates cbor aead manager o).1 manager
      from none = (refl, refl)
      from (some session_data) = opened session_data.data_bytes

  -- A response that is reported as valid, by its issuer and by its device, was decrypted with the key
  -- of the device; the values reported are those parsed from its mDL document; the issuer's signature
  -- verifies with the end-entity key of a chain that a trust anchor of the session vouches for; and the
  -- device key of the signed MSO verifies a signature over the transcript of the session.
  pub handle_response-IsAuthentic :
      (response : Bytes) (manager : ReaderManager Transcript)
      (outcome : ResponseAuthenticationOutcome)
      → (handle_response lib auth certificates cbor aead from_der json_integer response manager).0
        ≡ some outcome
      → outcome.issuer_authentication ≡ valid
      → outcome.device_authentication ≡ valid
      → IsAuthentic response manager outcome
  unfolding handle_response
  handle_response-IsAuthentic response manager outcome h issuer device =
      decrypted (decrypt_response lib auth certificates cbor aead response manager).0 refl h
    where
      after : ReaderManager Transcript
      after = (decrypt_response lib auth certificates cbor aead response manager).1

      same : SameSession after manager
      same = decrypt_response-SameSession response manager

      not_failed :
          (key : Str) (x : ReaderError)
          → some (failed_outcome key x) ≡ some outcome
          → IsAuthentic response manager outcome
      not_failed key x k =
          let e : unchecked ≡ valid =
            ap (λ o. (outcome_or o outcome).issuer_authentication) k ∙ issuer in
          absurd cc

      checked :
          (device_response : Response Protected Namespaces)
          → (decrypt_response lib auth certificates cbor aead response manager).0
            ≡ ok device_response
          → (r : Result ReaderError (Document Protected Namespaces × X5Chain × Map Str Json))
          → parse json_integer from_der device_response ≡ r
          → validate_parsed lib auth certificates after r ≡ some outcome
          → IsAuthentic response manager outcome
      checked d e (ok (document, x5chain, namespaces)) f k =
          let made = ap (λ o. outcome_or o outcome) k in
          let (passed, values) =
            validate_response-IsChecked lib auth certificates after.session_transcript
              after.trust_anchor_registry x5chain document namespaces
              (ap (λ (o : ResponseAuthenticationOutcome). o.issuer_authentication) made ∙ issuer)
              (ap (λ (o : ResponseAuthenticationOutcome). o.device_authentication) made ∙ device) in
          record {
            device_response = d;
            document = document;
            x5chain = x5chain;
            opened = e;
            parsed =
                f
                ∙ ap (λ (values : Map Str Json). ok (document, x5chain, values))
                    (sym values ∙ ap (λ (o : ResponseAuthenticationOutcome). o.response) made);
            checked =
                subst
                  (λ t.
                    IsChecked lib auth certificates t manager.trust_anchor_registry x5chain
                      document)
                  same.0
                  (subst
                    (λ r.
                      IsChecked lib auth certificates after.session_transcript r x5chain document)
                    same.1 passed);
          }
      checked d e (err reader_panicked) f k = absurd cc
      checked d e (err holder_error) f k = not_failed (str "parsing_errors") holder_error k
      checked d e (err decryption_error) f k = not_failed (str "parsing_errors") decryption_error k
      checked d e (err cbor_decoding_error) f k =
          not_failed (str "parsing_errors") cbor_decoding_error k
      checked d e (err device_transmission_error) f k =
          not_failed (str "parsing_errors") device_transmission_error k
      checked d e (err document_type_error) f k =
          not_failed (str "parsing_errors") document_type_error k
      checked d e (err no_mdl_data_transmission) f k =
          not_failed (str "parsing_errors") no_mdl_data_transmission k
      checked d e (err incorrect_namespace) f k =
          not_failed (str "parsing_errors") incorrect_namespace k
      checked d e (err x5chain_missing) f k = not_failed (str "parsing_errors") x5chain_missing k
      checked d e (err (x5chain_parsing x)) f k =
          not_failed (str "parsing_errors") (x5chain_parsing x) k

      decrypted :
          (r : Result ReaderError (Response Protected Namespaces))
          → (decrypt_response lib auth certificates cbor aead response manager).0 ≡ r
          → outcome_of lib auth certificates cbor aead from_der json_integer after r ≡ some outcome
          → IsAuthentic response manager outcome
      decrypted (err x) e k = not_failed (str "decryption_errors") x k
      decrypted (ok d) e k = checked d e (parse json_integer from_der d) refl k
