-- ===== src/Device.antt =====
-- src/presentation/device.rs: the holder's side of a presentation. The documents, the prepared
-- response, and the states of the session manager. COSE structures and their completion are
-- parameters; `Item` is an issuer-signed item under tag 24.
pub mod Filter
pub mod Filtered
pub mod Age
pub mod Nearest
pub mod Response
pub mod ReaderAuth
pub mod Authenticated
pub mod Manager
pub mod Permitted
pub mod Disclosed
pub mod Signing
mod Tests
use isomdl_elevenid.Common.{ℕ, Bool, List, [], ◌∷◌, Option, none, some}
use isomdl_elevenid.Common.Order.{Str, str}
use isomdl_elevenid.Common.Map.{Map, is_empty}
use isomdl_elevenid.Session.{Bytes}
use isomdl_elevenid.Session.Status.{ResponseStatus, DocumentErrorCode}

pub record ItemsRequest : Type 0 where
  pub doc_type : Str
  pub namespaces : Map Str (Map Str Bool)

abbrev pub RequestedItems : Type 0
RequestedItems = List ItemsRequest

-- The elements that the holder permits, by document type and namespace.
abbrev pub PermittedItems : Type 0
PermittedItems = Map Str (Map Str (List Str))

-- A document of the holder, with the key of its MSO.
pub record Document (Item Auth Key : Type 0) : Type 0 where
  pub id : ℕ
  pub issuer_auth : Auth
  pub device_key : Key
  pub namespaces : Map Str (Map Str Item)

abbrev pub NamespaceErrors : Type 0
NamespaceErrors = Map Str (Map Str DocumentErrorCode)

abbrev pub DocumentErrors : Type 0
DocumentErrors = List (Map Str DocumentErrorCode)

-- `try_into().ok()` into a collection that is not empty.
abbrev pub non_empty {ℓ} : {A : Type ℓ} → List A → Option (List A)
non_empty [] = none
non_empty (x ∷ xs) = some (x ∷ xs)

pub record PreparedDocument (Item Auth Cose : Type 0) : Type 0 where
  pub id : ℕ
  pub doc_type : Str
  pub issuer_namespaces : Option (Map Str (List Item))
  pub issuer_auth : Auth
  pub prepared_cose : Cose
  pub errors : Option NamespaceErrors

-- `DeviceResponseDoc`: a document with the signature of the device.
pub record ResponseDocument (Item Auth DeviceAuth : Type 0) : Type 0 where
  pub doc_type : Str
  pub issuer_namespaces : Option (Map Str (List Item))
  pub issuer_auth : Auth
  pub device_auth : DeviceAuth
  pub errors : Option NamespaceErrors

pub record PreparedDeviceResponse (Item Auth Cose DeviceAuth : Type 0) : Type 0 where
  pub prepared_documents : List (PreparedDocument Item Auth Cose)
  pub signed_documents : List (ResponseDocument Item Auth DeviceAuth)
  pub document_errors : Option DocumentErrors
  pub status : ResponseStatus

pub record DeviceResponse (Item Auth DeviceAuth : Type 0) : Type 0 where
  pub version : Str
  pub documents : Option (List (ResponseDocument Item Auth DeviceAuth))
  pub document_errors : Option DocumentErrors
  pub status : ResponseStatus

-- `State` of the session manager.
pub data State (Item Auth Cose DeviceAuth : Type 0) : Type 0 where
  awaiting_request : State Item Auth Cose DeviceAuth
  signing : PreparedDeviceResponse Item Auth Cose DeviceAuth → State Item Auth Cose DeviceAuth
  ready_to_respond : Bytes → State Item Auth Cose DeviceAuth
