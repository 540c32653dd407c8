-- ===== src/Establish/Tests.antt =====
-- The establishment of a session at an input: both sides with toy libraries.
use isomdl_elevenid.Common.{ℕ, ◌≡◌, refl, [], ◌∷◌, none, some, Option, ok, Bool, true, false, arith}
use isomdl_elevenid.Common.Order.{Str, str}
use isomdl_elevenid.Common.Map.{Map}
use isomdl_elevenid.Device.{Document}
use isomdl_elevenid.DeviceKey.CoseKey.{ec2_curve_of_id, to_value, encoded_point}
use isomdl_elevenid.Engagement.Tagged.{tag24_of, tag24_to_value}
use isomdl_elevenid.Engagement.Codec.{engagement_to_value}
use isomdl_elevenid.Engagement.Qr.{
  from_qr_code_uri-to_qr_code_uri, to_qr_code_uri, from_qr_code_uri,
}
use isomdl_elevenid.Establish.Keys.{
  calculate_ble_ident, create_p256_ephemeral_keys, get_shared_secret, session_key, tag24_to_vec,
}
use isomdl_elevenid.Session.{
  encrypt_reader_data, encrypt, encrypt_with_backend, get_initialization_vector,
}
use isomdl_elevenid.Reader.Manager.{build_request}
use isomdl_elevenid.Session.{Bytes}
use isomdl_elevenid.Session.Example.{toy_compress, toy_compress-KeepsEight}
use isomdl_elevenid.Session.Keyed.{hkdf}
use isomdl_elevenid.Session.Blocks.{sha256}
use isomdl_elevenid.Session.Derived.{session_key_info, derive_session_key-hkdf}
use isomdl_elevenid.Establish.Engaged.{IsEngaged, initialise-IsEngaged}
use isomdl_elevenid.X509.Example.{toy_lib, registry}
use isomdl_elevenid.Device.ReaderAuth.{RequestAuthenticationOutcome}
use isomdl_elevenid.Reader.{Authenticator, Item, IssuerAuth}
use isomdl_elevenid.Reader.Manager.{ReaderManager}
use isomdl_elevenid.Reader.Example.{
  toy_signatures, toy_auth, toy_reader_cbor, toy_aead, toy_aead-OpensSealed, toy_cose, toy_crypto,
  toy_session_cbor, asked,
}
use isomdl_elevenid.Engagement.Example.{
  toy_serde, toy_base64, toy_serde-Derives, toy_serde-ReadsWritten, toy_base64-DecodesEncoded,
  toy_key,
}
use isomdl_elevenid.Establish.{SessionTranscript, qr, SessionEstablishment}
use isomdl_elevenid.Establish.Holder.{
  SessionManagerInit, Established, initialise, init_ble_ident, qr_engagement,
  process_session_establishment,
}
use isomdl_elevenid.Establish.Reader.{establish_session}
use isomdl_elevenid.Establish.Example.{
  toy_curve, toy_curve-Exchanges, toy_derived, toy_derived-DerivesEstablishment,
  toy_derived-ReadsEstablishments,
}
use isomdl_elevenid.Establish.Message.{establishment_to_vec, establishment_from_slice}
use isomdl_elevenid.Establish.Established.{
  Guarantees, Holder, Accepted, process_session_establishment-establish_session,
}

abbrev toy_transcript_to_vec : SessionTranscript → Option Bytes
toy_transcript_to_vec transcript = some transcript.e_reader_key.inner_bytes

abbrev transcript_auth : Authenticator Bytes Bytes SessionTranscript Bytes Bytes
transcript_auth = toy_auth (λ transcript. some (4 ∷ []))

toy-Guarantees :
    Guarantees toy_signatures transcript_auth toy_lib toy_reader_cbor
      (λ t. toy_cose)
      (λ t trusted. toy_crypto)
      toy_session_cbor
      toy_aead
      toy_curve
      toy_serde
      toy_base64
      toy_transcript_to_vec
      toy_derived
      (λ bytes. some bytes)
      toy_compress
      asked
      registry
toy-Guarantees = record {
  exchanges = toy_curve-Exchanges;
  opens = toy_aead-OpensSealed;
  derives = toy_serde-Derives;
  decodes = toy_base64-DecodesEncoded;
  reads = toy_serde-ReadsWritten;
  agree = λ t. record { request_data = λ sealed bytes h. cc; request = λ bytes h. (1, refl, refl) };
  establishment = toy_derived-DerivesEstablishment;
  reads_establishment = toy_derived-ReadsEstablishments;
}

-- The holder has the private key 7, and the reader the private key 3.
abbrev toy_init : SessionManagerInit (Map Str (Document Item (IssuerAuth Bytes) ℕ)) ℕ
toy_init = record {
  documents = [];
  e_device_key = 7;
  device_engagement = record {
    inner = record {
      version = str "1.0";
      security = record {
        cipher_suite = 1;
        e_device_key = record { inner = toy_key 7; inner_bytes = 7 ∷ [] };
      };
      device_retrieval_methods = none;
      server_retrieval_methods = none;
      protocol_info = none;
    };
    inner_bytes = 1 ∷ 0 ∷ 7 ∷ [];
  };
}

toy_initialised : initialise toy_curve toy_serde [] none none 7 ≡ ok toy_init
unfolding initialise create_p256_ephemeral_keys ec2_curve_of_id tag24_of to_value
    engagement_to_value tag24_to_value
toy_initialised = refl

toy_scanned :
    from_qr_code_uri toy_base64 toy_serde (to_qr_code_uri toy_base64 toy_init.device_engagement)
    ≡ ok toy_init.device_engagement
toy_scanned =
    from_qr_code_uri-to_qr_code_uri toy_base64 toy_serde toy_serde-Derives toy_base64-DecodesEncoded
      toy_serde-ReadsWritten toy_init.device_engagement.inner toy_init.device_engagement
      toy_engaged.valid toy_engaged.made
  where
    toy_engaged : IsEngaged toy_curve toy_serde toy_curve-Exchanges [] toy_init
    toy_engaged =
        initialise-IsEngaged toy_curve toy_serde toy_curve-Exchanges toy_serde-ReadsWritten [] none
          none 7 toy_init tt tt toy_initialised

abbrev toy_session_transcript : SessionTranscript
toy_session_transcript = record {
  device_engagement = toy_init.device_engagement;
  e_reader_key = record { inner = toy_key 3; inner_bytes = 3 ∷ [] };
  handover = qr;
}

-- The two sides share the secret 10.
abbrev toy_session_key : Bool → Bytes
toy_session_key reader =
    hkdf toy_compress (10 ∷ []) (sha256 toy_compress (3 ∷ [])) (session_key_info reader)

toy_session_keys :
    (reader : Bool)
    → session_key toy_serde toy_compress
        (10 ∷ [])
        (record { inner = toy_session_transcript; inner_bytes = 3 ∷ [] })
        reader
      ≡ ok (toy_session_key reader)
unfolding tag24_to_value
toy_session_keys reader =
    rw
      (derive_session_key-hkdf (tag24_to_vec toy_serde) toy_compress toy_compress-KeepsEight
        (10 ∷ []) (record { inner = toy_session_transcript; inner_bytes = 3 ∷ [] }) reader (3 ∷ [])
        refl (omega arith) (omega arith))
      refl

abbrev toy_reader : ReaderManager SessionTranscript
toy_reader = record {
  session_transcript = toy_session_transcript;
  sk_device = toy_session_key false;
  device_message_counter = 0;
  sk_reader = toy_session_key true;
  reader_message_counter = 1;
  trust_anchor_registry = registry;
}

toy_established :
    establish_session toy_signatures transcript_auth toy_lib toy_reader_cbor toy_aead toy_curve
      toy_serde toy_base64 toy_transcript_to_vec
      (establishment_to_vec toy_serde toy_derived)
      (λ bytes. some bytes)
      toy_compress
      3
      (qr_engagement toy_base64 toy_init).1
      asked
      registry
    ≡ ok (toy_reader, 3 ∷ 1 ∷ str "1.0", 7 ∷ [])
unfolding establish_session qr_engagement create_p256_ephemeral_keys ec2_curve_of_id tag24_of
    to_value tag24_to_value get_shared_secret encoded_point calculate_ble_ident build_request
    encrypt_reader_data encrypt encrypt_with_backend get_initialization_vector
toy_established = rw (toy_scanned, toy_session_keys true, toy_session_keys false) refl

process_session_establishment-establish_session_example :
    (init_ble_ident toy_serde (λ bytes. some bytes) toy_init ≡ ok (7 ∷ []))
    × (e : SessionEstablishment) × (holder : Established (
        Holder toy_signatures transcript_auth toy_lib toy_reader_cbor
          (λ t. toy_cose)
          (λ t trusted. toy_crypto)
          toy_session_cbor
          toy_aead
          toy_curve
          toy_serde
          toy_base64
          toy_transcript_to_vec
          toy_derived
          (λ bytes. some bytes)
          toy_compress
          asked
          registry))
    × (outcome : RequestAuthenticationOutcome) × (establishment_from_slice toy_serde toy_derived
          (3 ∷ 1 ∷ str "1.0")
        ≡ some e)
    × (process_session_establishment toy_curve toy_serde toy_transcript_to_vec toy_compress
          (λ t. toy_cose)
          (λ t trusted. toy_crypto)
          toy_session_cbor
          toy_aead
          (qr_engagement toy_base64 toy_init).0
          e
          registry
        ≡ ok (holder, outcome))
    × Accepted toy_signatures transcript_auth toy_lib toy_reader_cbor
        (λ t. toy_cose)
        (λ t trusted. toy_crypto)
        toy_session_cbor
        toy_aead
        toy_curve
        toy_serde
        toy_base64
        toy_transcript_to_vec
        toy_derived
        (λ bytes. some bytes)
        toy_compress
        asked
        registry
        toy_reader
        (holder, outcome)
process_session_establishment-establish_session_example =
    process_session_establishment-establish_session toy_signatures transcript_auth toy_lib
      toy_reader_cbor (λ t. toy_cose) (λ t trusted. toy_crypto) toy_session_cbor toy_aead toy_curve
      toy_serde toy_base64 toy_transcript_to_vec toy_derived (λ bytes. some bytes) toy_compress
      asked registry toy-Guarantees [] none none registry 7 3 toy_init toy_reader
      (3 ∷ 1 ∷ str "1.0") (7 ∷ []) tt tt toy_initialised toy_established
