-- ===== src/Device/Response.antt =====
-- src/presentation/device.rs: `prepare_response` of a device session, and the prepared response.
use isomdl_elevenid.Common.{
  ℕ, Bool, true, false, List, [], ◌∷◌, ◌++◌, Option, none, some, Result, ok, err, ◌>>=◌, ok_or,
}
use isomdl_elevenid.Common.Order.{Str, str, list_ord, nat_ord}
use isomdl_elevenid.Common.Map.{Map, get, insert, is_empty}
use isomdl_elevenid.Session.{Bytes}
use isomdl_elevenid.Session.Status.{
  ResponseStatus, status_ok, general_error, DocumentErrorCode, data_not_returned,
}
use isomdl_elevenid.Device.{
  RequestedItems, PermittedItems, Document, NamespaceErrors, DocumentErrors, non_empty,
  PreparedDocument, ResponseDocument, PreparedDeviceResponse, DeviceResponse,
}
use isomdl_elevenid.Device.Filter.{filter_permitted}

-- What the session uses of CBOR and COSE: the algorithm of a device key, the bytes of the device
-- authentication of a document type, the structure to be signed, and its completion.
pub record DeviceCose (Key Algorithm Cose DeviceAuth : Type 0) : Type 0 where
  pub signature_algorithm : Key → Option Algorithm
  pub device_auth_bytes : Str → Option Bytes
  pub prepare : Algorithm → Bytes → Option Cose
  pub finalize : Cose → Bytes → DeviceAuth
  pub signature_payload : Cose → Bytes

-- The items that are returned so far, and the errors.
abbrev pub Selected : Type 0 → Type 0
Selected Item = Map Str (List Item) × NamespaceErrors

abbrev pub push_to : {A : Type 0} → A → Option (List A) → List A
push_to item none = item ∷ []
push_to item (some items) = items ++ (item ∷ [])

abbrev pub add_error : Str → Option (Map Str DocumentErrorCode) → Map Str DocumentErrorCode
add_error element none = (element, data_not_returned) ∷ []
add_error element (some errors) = insert element data_not_returned errors

-- The last element of a vector, with the rest of it.
abbrev pub put_back : {A : Type 0} → A → Option (List A × A) → Option (List A × A)
put_back x none = none
put_back x (some (rest, last)) = some (x ∷ rest, last)

unfoldable pub pop : {A : Type 0} → List A → Option (List A × A)
pop [] = none
pop (x ∷ []) = some ([], x)
pop (x ∷ y ∷ ys) = put_back x (pop (y ∷ ys))

abbrev pub device_response_version : Str
device_response_version = str "1.0"

-- The prepared documents and the errors of `prepare_response`.
abbrev pub Outcome : Type 0 → Type 0 → Type 0 → Type 0
Outcome Item Auth Cose = List (PreparedDocument Item Auth Cose) × DocumentErrors

module _ {Item : Type 0} where
  -- One round of the loop over the elements, on what the document has of the element.
  unfoldable pub select_element : Str → Str → Option Item → Selected Item → Selected Item
  select_element namespace element (some item) (items, errors) =
      (insert namespace (push_to item (get namespace items)) items, errors)
  select_element namespace element none (items, errors) =
      (items, insert namespace (add_error element (get namespace errors)) errors)

  abbrev pub element_of : Str → Option (Map Str Item) → Option Item
  element_of element none = none
  element_of element (some items) = get element items

  unfoldable pub select_elements :
      Str → Option (Map Str Item) → List Str → Selected Item → Selected Item
  select_elements namespace issued [] st = st
  select_elements namespace issued (element ∷ elements) st =
      select_elements namespace issued elements
        (select_element namespace element (element_of element issued) st)

  unfoldable pub select_namespaces :
      Map Str (Map Str Item) → Map Str (List Str) → Selected Item → Selected Item
  select_namespaces document [] st = st
  select_namespaces document ((namespace, elements) ∷ namespaces) st =
      select_namespaces document namespaces
        (select_elements namespace (get namespace document) elements st)

module _ {Item Auth Key Algorithm Cose DeviceAuth : Type 0}
    (cose : DeviceCose Key Algorithm Cose DeviceAuth) where
  -- One round of the loop over the document types: `err` where it goes on with `continue`.
  unfoldable pub prepare_document :
      Map Str (Document Item Auth Key)
      → Str
      → Map Str (List Str)
      → Result DocumentErrorCode (PreparedDocument Item Auth Cose)
  prepare_document documents doc_type namespaces = do
    document ← ok_or (get doc_type documents) data_not_returned
    algorithm ← ok_or (cose.signature_algorithm document.device_key) data_not_returned
    (items, errors) ← ok (select_namespaces document.namespaces namespaces ([], []))
    device_auth_bytes ← ok_or (cose.device_auth_bytes doc_type) data_not_returned
    prepared_cose ← ok_or (cose.prepare algorithm device_auth_bytes) data_not_returned
    ok (record {
      id = document.id;
      doc_type = doc_type;
      issuer_namespaces = non_empty items;
      issuer_auth = document.issuer_auth;
      prepared_cose = prepared_cose;
      errors = non_empty errors;
    })

  abbrev pub push_outcome :
      Str
      → Result DocumentErrorCode (PreparedDocument Item Auth Cose)
      → Outcome Item Auth Cose
      → Outcome Item Auth Cose
  push_outcome doc_type (ok document) (prepared, errors) = (prepared ++ (document ∷ []), errors)
  push_outcome doc_type (err code) (prepared, errors) =
      (prepared, errors ++ (((doc_type, code) ∷ []) ∷ []))

  unfoldable pub prepare_documents :
      Map Str (Document Item Auth Key)
      → PermittedItems
      → Outcome Item Auth Cose
      → Outcome Item Auth Cose
  prepare_documents documents [] st = st
  prepare_documents documents ((doc_type, namespaces) ∷ filtered) st =
      prepare_documents documents filtered
        (push_outcome doc_type (prepare_document documents doc_type namespaces) st)

  unfoldable pub prepare_response :
      Map Str (Document Item Auth Key)
      → RequestedItems
      → PermittedItems
      → PreparedDeviceResponse Item Auth Cose DeviceAuth
  prepare_response documents requests permitted =
      let (prepared, errors) =
        prepare_documents documents (filter_permitted requests permitted) ([], []) in
      record {
        prepared_documents = prepared;
        signed_documents = [];
        document_errors = non_empty errors;
        status = status_ok;
      }

  -- `PreparedDeviceResponse::empty`
  unfoldable pub empty : ResponseStatus → PreparedDeviceResponse Item Auth Cose DeviceAuth
  empty status = record {
    prepared_documents = [];
    signed_documents = [];
    document_errors = none;
    status = status;
  }

  unfoldable pub is_complete : PreparedDeviceResponse Item Auth Cose DeviceAuth → Bool
  is_complete response = is_empty response.prepared_documents

  abbrev pub payload_of :
      Option (List (PreparedDocument Item Auth Cose) × PreparedDocument Item Auth Cose)
      → Option (ℕ × Bytes)
  payload_of none = none
  payload_of (some (rest, document)) =
      some (document.id, cose.signature_payload document.prepared_cose)

  -- `last()` of the prepared documents
  unfoldable pub get_next_signature_payload :
      PreparedDeviceResponse Item Auth Cose DeviceAuth → Option (ℕ × Bytes)
  get_next_signature_payload response = payload_of (pop response.prepared_documents)

  -- `PreparedDocument::finalize`
  unfoldable pub finalize_document :
      PreparedDocument Item Auth Cose → Bytes → ResponseDocument Item Auth DeviceAuth
  finalize_document document signature = record {
    doc_type = document.doc_type;
    issuer_namespaces = document.issuer_namespaces;
    issuer_auth = document.issuer_auth;
    device_auth = cose.finalize document.prepared_cose signature;
    errors = document.errors;
  }

  abbrev pub submit_popped :
      PreparedDeviceResponse Item Auth Cose DeviceAuth
      → Bytes
      → Option (List (PreparedDocument Item Auth Cose) × PreparedDocument Item Auth Cose)
      → PreparedDeviceResponse Item Auth Cose DeviceAuth
  submit_popped response signature none = response
  submit_popped response signature (some (rest, document)) = record {
    prepared_documents = rest;
    signed_documents = response.signed_documents ++ (finalize_document document signature ∷ []);
    document_errors = response.document_errors;
    status = response.status;
  }

  unfoldable pub submit_next_signature :
      Bytes
      → PreparedDeviceResponse Item Auth Cose DeviceAuth
      → PreparedDeviceResponse Item Auth Cose DeviceAuth
  submit_next_signature signature response =
      submit_popped response signature (pop response.prepared_documents)

  unfoldable pub finalize_response :
      PreparedDeviceResponse Item Auth Cose DeviceAuth → DeviceResponse Item Auth DeviceAuth
  finalize_response response = elim (is_complete response) [
    | true ↦ record {
      version = device_response_version;
      documents = non_empty response.signed_documents;
      document_errors = response.document_errors;
      status = response.status;
    }
    | false ↦ record {
      version = device_response_version;
      documents = none;
      document_errors = none;
      status = general_error;
    }
  ]
