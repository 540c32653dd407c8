-- ===== src/X509.antt =====
-- src/definitions/x509: certificates, trust anchors, and the rules by which a chain is validated. The
-- certificate is what x509-cert has parsed; the decoders of its extensions, the hashes and the curve
-- are parameters. An object identifier is the list of its arcs, an attribute value its encoding.
pub mod Names
pub mod Extensions
pub mod Validation
pub mod Chain
pub mod Required
pub mod Trusted
pub mod Example
mod Tests
use isomdl_elevenid.Common.{ℕ, Bool, List, [], ◌∷◌, Option}
use isomdl_elevenid.Common.Order.{Str}
use isomdl_elevenid.Session.{Bytes}

abbrev pub Oid : Type 0
Oid = List ℕ

-- The relative distinguished names of a subject or an issuer.
abbrev pub DistinguishedName : Type 0
DistinguishedName = List (List (Oid × Bytes))

pub record Extension : Type 0 where
  pub extn_id : Oid
  pub critical : Bool
  pub extn_value : Bytes

pub record PublicKeyInfo : Type 0 where
  pub algorithm : Oid
  pub parameters : Option Bytes
  pub unused_bits : ℕ
  pub key_bytes : Bytes

-- The times are seconds; `tbs_to_der` is the encoding of the part that is signed.
pub record Certificate : Type 0 where
  pub subject : DistinguishedName
  pub issuer : DistinguishedName
  pub not_before : ℕ
  pub not_after : ℕ
  pub public_key_info : PublicKeyInfo
  pub extensions : List Extension
  pub signature : Bytes
  pub tbs_to_der : Option Bytes

pub data TrustPurpose : Type 0 where
  iaca reader_ca : TrustPurpose

pub record TrustAnchor : Type 0 where
  pub certificate : Certificate
  pub purpose : TrustPurpose

abbrev pub TrustAnchorRegistry : Type 0
TrustAnchorRegistry = List TrustAnchor

pub data GeneralName : Type 0 where
  rfc822_name uniform_resource_identifier : Bytes → GeneralName
  other_name : GeneralName

pub data DistributionPointName : Type 0 where
  full_name : List GeneralName → DistributionPointName
  name_relative_to_crl_issuer : DistributionPointName

pub record DistributionPoint : Type 0 where
  pub distribution_point : Option DistributionPointName
  pub reasons : Option ℕ
  pub crl_issuer : Option (List GeneralName)

-- What the source calls of x509-cert, const-oid, sha1, sha2 and the curve. Key usages are the bits of
-- their flag set; a basic constraint is `ca` and `path_len_constraint`.
pub record CertificateLib (Verifier Signature : Type 0) : Type 0 where
  pub now : ℕ
  pub attribute_value_to_str : Bytes → Option Str
  pub subject_key_identifier : Bytes → Option Bytes
  pub authority_key_identifier : Bytes → Option (Option Bytes)
  pub key_usage : Bytes → Option ℕ
  pub basic_constraints : Bytes → Option (Bool × Option ℕ)
  pub extended_key_usage : Bytes → Option (List Oid)
  pub crl_distribution_points : Bytes → Option (List DistributionPoint)
  pub issuer_alt_name : Bytes → Option (List GeneralName)
  pub oid_from_der : Bytes → Option Oid
  pub sha1 : Bytes → Bytes
  pub sha256 : Bytes → Bytes
  pub key_from_sec1 : Bytes → Option Verifier
  pub signature_from_der : Bytes → Option Signature
  pub verify_prehashed : Verifier → Bytes → Signature → Bool

-- The common name of a certificate stands in the messages on names.
pub data NameError : Type 0 where
  missing multiple : Str → Oid → NameError
  mismatch : Oid → NameError

pub data ExtensionError : Type 0 where
  undecodable unexpected_usage not_a_ca unexpected_purpose no_points : ExtensionError
  crl_issuer_set reasons_set invalid_point invalid_general_name digest_mismatch : ExtensionError

pub data CertificateError : Type 0 where
  expired not_yet_valid no_trust_anchor : CertificateError
  disallowed unknown_critical extension_not_found : Oid → CertificateError
  extension_error : Oid → ExtensionError → CertificateError
  name_error : NameError → CertificateError

-- `ErrorContext`
pub data Context : Type 0 where
  comparison document_signer iaca_certificate reader reader_ca_certificate : Context

abbrev pub ValidationError : Type 0
ValidationError = Context × CertificateError
