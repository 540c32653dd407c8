-- ===== src/Reader.antt =====
-- src/presentation/reader.rs and src/presentation/authentication: the reader's side of a presentation.
-- What the reader sees of a response, and what it calls of CBOR, COSE and the certificates.
pub mod Json
pub mod Parse
pub mod Authentication
pub mod Header
pub mod Manager
pub mod Parsable
pub mod Elements
pub mod Authentic
pub mod Reported
pub mod Exchange
pub mod Delivered
pub mod Example
mod Tests
use isomdl_elevenid.Common.{ℕ, Bool, List, [], ◌∷◌, Option}
use isomdl_elevenid.Common.Order.{Str, str}
use isomdl_elevenid.Common.Int.{ℤ, pos}
use isomdl_elevenid.Session.{Bytes}
use isomdl_elevenid.Cbor.{Value}
use isomdl_elevenid.Cose.{MaybeTagged}
use isomdl_elevenid.Cose.Sign1.{CoseSign1, Signatures}
use isomdl_elevenid.Cose.Mac0.{CoseMac0}
use isomdl_elevenid.DeviceKey.CoseKey.{CoseKey}
use isomdl_elevenid.Issuance.Plan.{IssuerSignedItem, Tag24}
use isomdl_elevenid.Device.{ResponseDocument, DeviceResponse}

-- `coset::Label`
pub data Label : Type 0 where
  int : ℤ → Label
  text : Str → Label

-- The entries of a header beside the registered ones.
abbrev pub Unprotected : Type 0
Unprotected = List (Label × Value)

abbrev pub IssuerAuth : Type 0 → Type 0
IssuerAuth Protected = MaybeTagged (CoseSign1 Protected Unprotected)

pub data DeviceAuth (Protected : Type 0) : Type 0 where
  device_signature : MaybeTagged (CoseSign1 Protected Unprotected) → DeviceAuth Protected
  device_mac : MaybeTagged (CoseMac0 Protected Unprotected) → DeviceAuth Protected

pub record DeviceSigned (Protected Namespaces : Type 0) : Type 0 where
  pub namespaces : Namespaces
  pub device_auth : DeviceAuth Protected

abbrev pub Item : Type 0
Item = Tag24 (IssuerSignedItem Value)

abbrev pub Document : Type 0 → Type 0 → Type 0
Document Protected Namespaces =
    ResponseDocument Item (IssuerAuth Protected) (DeviceSigned Protected Namespaces)

abbrev pub Response : Type 0 → Type 0 → Type 0
Response Protected Namespaces =
    DeviceResponse Item (IssuerAuth Protected) (DeviceSigned Protected Namespaces)

-- What the authentication uses beside the signatures: the key of a certificate, the device key of the
-- encoded MSO, points and their keys, the payload of the device authentication, its encoding, and the
-- encodings that make up the raw payload.
pub record Authenticator (Protected Namespaces Transcript Point Verifier : Type 0) : Type 0 where
  pub mso_device_key : Bytes → Option CoseKey
  pub point_from_bytes : Bytes → Option Point
  pub verifier_from_point : Point → Option Verifier
  pub device_authentication : Transcript → Str → Namespaces → Option Bytes
  pub payload_to_vec : Bytes → Option Bytes
  pub is_cbor : Bytes → Bool
  pub text_to_vec : Str → Option Bytes
  pub namespaces_to_vec : Namespaces → Option Bytes

abbrev pub mdl_doc_type : Str
mdl_doc_type = str "org.iso.18013.5.1.mDL"

abbrev pub core_namespace : Str
core_namespace = str "org.iso.18013.5.1"

abbrev pub aamva_namespace : Str
aamva_namespace = str "org.iso.18013.5.1.aamva"

-- `X5CHAIN_COSE_HEADER_LABEL`
abbrev pub x5chain_cose_header_label : Label
x5chain_cose_header_label = int (pos 33)
