-- ===== src/Device/ReaderAuth.antt =====
-- src/presentation/device.rs: the request of a reader and its authentication. Certificates, COSE and
-- the encoding of the payload are parameters.
use isomdl_elevenid.Common.{
  Bool, List, [], ◌∷◌, ◌++◌, Option, none, some, if◌then◌else◌, map, Result, ok, err, ◌>>=◌, ok_or,
}
use isomdl_elevenid.Common.Order.{Str, str, list_ord, nat_ord, ◌==◌}
use isomdl_elevenid.Common.Map.{Map, is_empty}
use isomdl_elevenid.Session.{Bytes}
use isomdl_elevenid.Device.{ItemsRequest, RequestedItems}

pub record DocRequest (ReaderAuth : Type 0) : Type 0 where
  pub items_request : ItemsRequest
  pub reader_auth : Option ReaderAuth

-- The document requests are a collection that is not empty: the first one and the others.
pub record DeviceRequest (ReaderAuth : Type 0) : Type 0 where
  pub version : Str
  pub doc_request : DocRequest ReaderAuth
  pub doc_requests : List (DocRequest ReaderAuth)

pub data ReaderAuthError : Type 0 where
  no_reader_auth no_x5chain undecodable_x5chain : ReaderAuthError
  invalid_x5chain : Str → ReaderAuthError
  undecodable_key no_payload no_payload_bytes unverified : ReaderAuthError

pub record ReaderAuthOutcome : Type 0 where
  pub common_name : Option Str
  pub errors : List ReaderAuthError

pub data AuthenticationStatus : Type 0 where
  valid invalid unchecked : AuthenticationStatus

-- The messages in `errors`.
pub data RequestError : Type 0 where
  unsupported_version no_requests undecodable undecryptable : RequestError

pub record RequestAuthenticationOutcome : Type 0 where
  pub items_request : RequestedItems
  pub common_name : Option Str
  pub reader_authentication : AuthenticationStatus
  pub errors : Map Str RequestError

-- `RequestAuthenticationOutcome::default()`
abbrev pub no_outcome : RequestAuthenticationOutcome
no_outcome = record {
  items_request = [];
  common_name = none;
  reader_authentication = unchecked;
  errors = [];
}

-- What the authentication of a reader uses: the header of a COSE signature, the certificate chain with
-- its validation, the payload that is signed, and the verification with P-256.
pub record ReaderCrypto (ReaderAuth Chain Verifier Payload : Type 0) : Type 0 where
  pub x5chain_header : ReaderAuth → Option Bytes
  pub x5chain_from_cbor : Bytes → Option Chain
  pub end_entity_common_name : Chain → Str
  pub validate : Chain → List Str
  pub end_entity_public_key : Chain → Option Verifier
  pub payload : ItemsRequest → Option Payload
  pub payload_to_vec : Payload → Option Bytes
  pub verify : ReaderAuth → Verifier → Bytes → Bool

module _ {ReaderAuth Chain Verifier Payload : Type 0}
    (crypto : ReaderCrypto ReaderAuth Chain Verifier Payload) where
  -- The checks behind the validation of the chain: the first that fails ends them.
  unfoldable pub check_signature :
      ReaderAuth → ItemsRequest → Chain → Result ReaderAuthError (Unit {0})
  check_signature reader_auth items_request x5chain = do
    verifier ← ok_or (crypto.end_entity_public_key x5chain) undecodable_key
    payload ← ok_or (crypto.payload items_request) no_payload
    bytes ← ok_or (crypto.payload_to_vec payload) no_payload_bytes
    if crypto.verify reader_auth verifier bytes then ok tt else err unverified

  abbrev pub errors_of : Result ReaderAuthError (Unit {0}) → List ReaderAuthError
  errors_of (ok _) = []
  errors_of (err e) = e ∷ []

  unfoldable pub find_x5chain : DocRequest ReaderAuth → Result ReaderAuthError (ReaderAuth × Chain)
  find_x5chain doc_request = do
    reader_auth ← ok_or doc_request.reader_auth no_reader_auth
    header ← ok_or (crypto.x5chain_header reader_auth) no_x5chain
    x5chain ← ok_or (crypto.x5chain_from_cbor header) undecodable_x5chain
    ok (reader_auth, x5chain)

  abbrev pub authenticate :
      ItemsRequest → Result ReaderAuthError (ReaderAuth × Chain) → ReaderAuthOutcome
  authenticate items_request (err e) = record { common_name = none; errors = e ∷ [] }
  authenticate items_request (ok (reader_auth, x5chain)) = record {
    common_name = some (crypto.end_entity_common_name x5chain);
    errors =
        map invalid_x5chain (crypto.validate x5chain)
        ++ errors_of (check_signature reader_auth items_request x5chain);
  }

  unfoldable pub reader_authentication : DocRequest ReaderAuth → ReaderAuthOutcome
  reader_authentication doc_request =
      authenticate doc_request.items_request (find_x5chain doc_request)

  unfoldable pub validate_request : DeviceRequest ReaderAuth → RequestAuthenticationOutcome
  validate_request request =
      let outcome = reader_authentication request.doc_request in
      record {
        items_request =
            map (λ (d : DocRequest ReaderAuth). d.items_request)
              (request.doc_request ∷ request.doc_requests);
        common_name = outcome.common_name;
        reader_authentication = if is_empty outcome.errors then valid else invalid;
        errors =
            if request.version == str "1.0"
            then []
            else (str "parsing_errors", unsupported_version) ∷ [];
      }
