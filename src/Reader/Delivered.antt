-- ===== src/Reader/Delivered.antt =====
-- src/presentation: a response on its way from the holder's signatures to the reader.
use isomdl_elevenid.Common.{ℕ, ◌≡◌, refl, Bool, List, [], ◌∷◌, some, none, length, ok}
use isomdl_elevenid.Common.Order.{list_ord, nat_ord, ==_self}
use isomdl_elevenid.Session.{Bytes, Aead, OpensSealed, encrypt_device_data, decrypt_device_data}
use isomdl_elevenid.Session.Channel.{decrypt-encrypt}
use isomdl_elevenid.Device.{PreparedDocument, PreparedDeviceResponse, signing}
use isomdl_elevenid.Cose.Sign1.{Signatures}
use isomdl_elevenid.X509.{CertificateLib}
use isomdl_elevenid.Device.Response.{DeviceCose}
use isomdl_elevenid.Device.ReaderAuth.{ReaderCrypto}
use isomdl_elevenid.Device.Manager.{
  SessionCbor, with_state, response_bytes, respond, retrieve_response,
}
use isomdl_elevenid.Device.Signing.{
  waiting, signed_with, signed_response, submit_signatures, submit_signatures-signed,
}
use isomdl_elevenid.Reader.{Item, IssuerAuth, DeviceSigned, Response, Authenticator}
use isomdl_elevenid.Reader.Manager.{ReaderCbor, ReaderManager, decrypt_response}
use isomdl_elevenid.Reader.Exchange.{Holder, InStep}

module _
    {Protected Namespaces Transcript Point Signature Verifier CertSignature ReaderAuth Key Algorithm
      Cose Chain CryptoVerifier Payload Value AeadKey : Type 0}
    (lib : Signatures Protected Signature Verifier)
    (auth : Authenticator Protected Namespaces Transcript Point Verifier)
    (certificates : CertificateLib Verifier CertSignature)
    (reader_cbor : ReaderCbor ReaderAuth (Response Protected Namespaces))
    (cose : DeviceCose Key Algorithm Cose (DeviceSigned Protected Namespaces))
    (crypto : ReaderCrypto ReaderAuth Chain CryptoVerifier Payload)
    (cbor : SessionCbor ReaderAuth Value (Response Protected Namespaces)) (aead : Aead AeadKey)
    (opens : OpensSealed aead) where
  abbrev Manager : Type 0
  Manager = Holder lib auth certificates reader_cbor cose crypto cbor aead

  response_bytes-encoded :
      (r : Response Protected Namespaces) (bytes : Bytes)
      → cbor.response_to_vec r ≡ some bytes
      → cbor.response_from_slice bytes ≡ some r
      → response_bytes cose crypto cbor aead r ≡ ok bytes
  unfolding response_bytes
  response_bytes-encoded r bytes encoded decoded =
      rw (encoded, decoded, encoded, ==_self bytes) refl

  decrypt_response-sealed :
      (reader : ReaderManager Transcript) (r : Response Protected Namespaces)
      (plain sealed bytes : Bytes) (count : ℕ)
      → reader_cbor.response_from_slice plain ≡ some r
      → encrypt_device_data aead reader.sk_device plain reader.device_message_counter
        ≡ (ok sealed, count)
      → reader_cbor.session_data_from_slice bytes
        ≡ some (record { data_bytes = some sealed; status = none })
      → decrypt_response lib auth certificates reader_cbor aead bytes reader
        ≡ (ok r, record reader { device_message_counter = count })
  unfolding decrypt_response encrypt_device_data decrypt_device_data
  decrypt_response-sealed reader r plain sealed bytes count parsed e received =
      let opened =
        decrypt-encrypt aead reader.sk_device opens plain sealed reader.device_message_counter count
          Bool.false e in
      rw (received, opened, parsed) refl

  retrieve_response-respond :
      (holder : Manager) (plain sealed bytes : Bytes) (count : ℕ)
      → encrypt_device_data aead holder.sk_device plain holder.device_message_counter
        ≡ (ok sealed, count)
      → cbor.session_data_to_vec (record { data_bytes = some sealed; status = none }) ≡ some bytes
      → ((retrieve_response cose crypto cbor aead
            (respond cose crypto cbor aead holder (ok plain)).1).0
          ≡ some bytes)
        × ((retrieve_response cose crypto cbor aead
              (respond cose crypto cbor aead holder (ok plain)).1).1.device_message_counter
            ≡ count)
  unfolding retrieve_response
  retrieve_response-respond holder plain sealed bytes count e sent = rw (e, sent) (refl, refl)

  -- Once the holder has submitted as many signatures as there are documents, and the response is
  -- encoded, sealed and sent, retrieving the response yields the message, and the reader that is in step
  -- and decodes what was encoded decrypts it to exactly the response in which each document stands under
  -- its own signature; the counters of both sides have moved on to the same value.
  pub decrypt_response-submit_signatures :
      (reader : ReaderManager Transcript) (holder : Manager)
      (p : PreparedDeviceResponse Item
        (IssuerAuth Protected)
        Cose
        (DeviceSigned Protected Namespaces))
      (d : PreparedDocument Item (IssuerAuth Protected) Cose)
      (ds : List (PreparedDocument Item (IssuerAuth Protected) Cose)) (s : Bytes) (ss : List Bytes)
      (plain sealed bytes : Bytes) (count : ℕ)
      → InStep lib auth certificates reader_cbor cose crypto cbor aead reader holder
      → length ss ≡ length ds
      → cbor.response_to_vec (signed_response cose p (signed_with cose (d ∷ ds) (s ∷ ss)))
        ≡ some plain
      → cbor.response_from_slice plain
        ≡ some (signed_response cose p (signed_with cose (d ∷ ds) (s ∷ ss)))
      → encrypt_device_data aead holder.sk_device plain holder.device_message_counter
        ≡ (ok sealed, count)
      → cbor.session_data_to_vec (record { data_bytes = some sealed; status = none }) ≡ some bytes
      → reader_cbor.session_data_from_slice bytes
        ≡ some (record { data_bytes = some sealed; status = none })
      → reader_cbor.response_from_slice plain
        ≡ some (signed_response cose p (signed_with cose (d ∷ ds) (s ∷ ss)))
      → ((retrieve_response cose crypto cbor aead (
            submit_signatures cose crypto cbor aead
              (s ∷ ss)
              (with_state cose crypto cbor aead holder (signing (waiting cose p (d ∷ ds) []))))).0
          ≡ some bytes)
        × (decrypt_response lib auth certificates reader_cbor aead bytes reader ≡ (
          ok (signed_response cose p (signed_with cose (d ∷ ds) (s ∷ ss))),
          record reader { device_message_counter = count },
        ))
        × ((retrieve_response cose crypto cbor aead (
              submit_signatures cose crypto cbor aead (s ∷ ss) (
                with_state cose crypto cbor aead holder
                  (signing (waiting cose p (d ∷ ds) []))))).1.device_message_counter
            ≡ count)
  decrypt_response-submit_signatures reader holder p d ds s ss plain sealed bytes count step same
        encoded decoded e sent received parsed =
      let signed = submit_signatures-signed cose crypto cbor aead holder p d ds [] s ss same in
      let (ready, moved) = retrieve_response-respond holder plain sealed bytes count e sent in
      let to_reader : encrypt_device_data aead reader.sk_device plain reader.device_message_counter
          ≡ (ok sealed, count) =
        rw (step.device_key, step.device_counter) e in
      rw (signed, response_bytes-encoded _ plain encoded decoded)
        (
          ready,
          decrypt_response-sealed reader _ plain sealed bytes count parsed to_reader received,
          moved,
        )
