-- ===== src/Reader/Example.antt =====
-- A reader and a holder with toy encodings.
use isomdl_elevenid.Device.Response.{DeviceCose}
use isomdl_elevenid.Device.ReaderAuth.{ReaderCrypto}
use isomdl_elevenid.Device.Manager.{SessionCbor}
use isomdl_elevenid.Session.{Bytes, Aead, OpensSealed}
use isomdl_elevenid.Reader.Manager.{device_request, ReaderCbor}
use isomdl_elevenid.Common.Map.{Map}
use isomdl_elevenid.Common.Order.{Str, str, list_ord, nat_ord, ◌==◌}
use isomdl_elevenid.Cbor.{Value}
use isomdl_elevenid.Common.{
  ℕ, Bool, length, ◌∙◌, ◌≡◌, refl, true, false, [], ◌∷◌, ◌++◌, replicate, Option, none, some,
  take-append,
}
use isomdl_elevenid.Common.Int.{pos}
use isomdl_elevenid.Session.Status.{status_ok}
use isomdl_elevenid.Cose.{AlgorithmLabel, es256}
use isomdl_elevenid.Cose.Sign1.{Signatures}
use isomdl_elevenid.DeviceKey.CoseKey.{CoseKey, ec2, p256, sign_bit}
use isomdl_elevenid.X509.Example.{toy_lib}
use isomdl_elevenid.Reader.{
  Item, IssuerAuth, DeviceSigned, Document, Response, Authenticator, device_signature, int,
  mdl_doc_type, core_namespace,
}

abbrev pub toy_signatures : Signatures Bytes Bytes Bytes
toy_signatures = record {
  alg = λ protected. some (AlgorithmLabel.assigned es256);
  sig_structure_data = λ protected aad payload. payload;
  signature_try_from = λ bytes. some bytes;
  algorithm = λ verifier. es256;
  verifies = λ verifier bytes signature. bytes == signature;
}

abbrev pub device_key : CoseKey
device_key = ec2 p256 (replicate 32 0) (sign_bit true)

abbrev pub toy_auth :
    {Transcript : Type 0}
    → (Transcript → Option Bytes)
    → Authenticator Bytes Bytes Transcript Bytes Bytes
toy_auth to_vec = record {
  mso_device_key = λ mso. some device_key;
  point_from_bytes = λ bytes. some bytes;
  verifier_from_point = λ point. some point;
  device_authentication = λ transcript doc_type namespaces. to_vec transcript;
  payload_to_vec = λ bytes. some bytes;
  is_cbor = λ bytes. true;
  text_to_vec = λ text. some text;
  namespaces_to_vec = λ namespaces. some namespaces;
}

abbrev pub sign1_of : Option Bytes → Bytes → IssuerAuth Bytes
sign1_of payload signature = record {
  tagged = false;
  inner = record {
    protected = [];
    unprotected = (int (pos 33), Value.bytes (1 ∷ [])) ∷ [];
    payload = payload;
    signature = signature;
  };
}

abbrev pub name_item : Item
name_item = record {
  inner = record {
    digest_id = pos 0;
    random = [];
    element_identifier = str "name";
    element_value = Value.text (str "Ada");
  };
  inner_bytes = [];
}

abbrev pub device_signed : Bytes → DeviceSigned Bytes Bytes
device_signed signature = record {
  namespaces = [];
  device_auth = device_signature (sign1_of none signature);
}

abbrev pub response_document : Document Bytes Bytes
response_document = record {
  doc_type = mdl_doc_type;
  issuer_namespaces = some ((core_namespace, name_item ∷ []) ∷ []);
  issuer_auth = sign1_of (some (9 ∷ [])) (9 ∷ []);
  device_auth = device_signed (4 ∷ []);
  errors = none;
}

abbrev pub mdl_response : Response Bytes Bytes
mdl_response = record {
  version = str "1.0";
  documents = some (response_document ∷ []);
  document_errors = none;
  status = status_ok;
}

abbrev pub toy_reader_cbor : ReaderCbor ℕ (Response Bytes Bytes)
toy_reader_cbor = record {
  items_to_vec = λ items. some items.doc_type;
  request_to_vec = λ request. some request.version;
  session_data_to_vec = λ session. session.data_bytes;
  session_data_from_slice = λ bytes. some (record { data_bytes = some bytes; status = none });
  response_from_slice = λ bytes. some mdl_response;
}

-- What follows the plaintext in the buffer is cut off.
abbrev pub toy_aead : Aead (Unit {0})
toy_aead = record {
  unbound_key = λ key. some tt;
  seal_in_place = λ key nonce plaintext. some plaintext;
  open_in_place = λ key nonce ciphertext. some (ciphertext ++ (99 ∷ []), length ciphertext);
}

pub toy_aead-OpensSealed : OpensSealed toy_aead
toy_aead-OpensSealed key nonce plaintext ciphertext h =
    let same : ciphertext ≡ plaintext = cc in
    (ciphertext ++ (99 ∷ []), length ciphertext, refl, take-append ciphertext (99 ∷ []) ∙ same)

abbrev pub toy_cose : DeviceCose ℕ ℕ Bytes (DeviceSigned Bytes Bytes)
toy_cose = record {
  signature_algorithm = λ key. some key;
  device_auth_bytes = λ doc_type. some doc_type;
  prepare = λ algorithm bytes. some bytes;
  finalize = λ cose signature. device_signed signature;
  signature_payload = λ cose. cose;
}

abbrev pub toy_crypto : ReaderCrypto ℕ ℕ ℕ Bytes
toy_crypto = record {
  x5chain_header = λ reader_auth. some [];
  x5chain_from_cbor = λ bytes. some 1;
  end_entity_common_name = λ x5chain. str "reader";
  validate = λ x5chain. [];
  end_entity_public_key = λ x5chain. some x5chain;
  payload = λ items. some [];
  payload_to_vec = λ payload. some payload;
  verify = λ reader_auth verifier bytes. true;
}

abbrev pub asked : Map Str (Map Str Bool)
asked = (core_namespace, (str "name", true) ∷ []) ∷ []

abbrev pub toy_session_cbor : SessionCbor ℕ ℕ (Response Bytes Bytes)
toy_session_cbor = record {
  value_from_slice = λ bytes. some 1;
  request_from_value = λ v.
      some (device_request toy_signatures (toy_auth some) toy_lib toy_reader_cbor toy_aead asked);
  session_data_from_slice = λ bytes. some (record { data_bytes = some bytes; status = none });
  session_data_to_vec = λ session. session.data_bytes;
  response_to_vec = λ response. some (6 ∷ []);
  response_from_slice = λ bytes. some mdl_response;
}
