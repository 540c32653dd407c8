-- ===== src/X509/Extensions.antt =====
-- src/definitions/x509/validation/extensions: the rules of ISO/IEC 18013-5 Annex B on the extensions of
-- a certificate.
use isomdl_elevenid.Common.{
  ℕ, Bool, true, false, not, ◌&&◌, ◌||◌, List, [], ◌∷◌, ◌++◌, Option, none, some, map, any, all,
  filter_map, if◌then◌else◌,
}
use isomdl_elevenid.Common.Order.{list_ord, nat_ord, ◌==◌}
use isomdl_elevenid.Common.Map.{is_some, is_empty}
use isomdl_elevenid.Session.{Bytes}
use isomdl_elevenid.X509.{
  Oid, Extension, Certificate, CertificateLib, GeneralName, rfc822_name,
  uniform_resource_identifier, other_name, DistributionPointName, full_name,
  name_relative_to_crl_issuer, DistributionPoint, ExtensionError, undecodable, unexpected_usage,
  not_a_ca, unexpected_purpose, no_points, crl_issuer_set, reasons_set, invalid_point,
  invalid_general_name, digest_mismatch, CertificateError, disallowed, unknown_critical,
  extension_not_found, extension_error,
}

-- The arc 2.5.29 of the standard extensions.
abbrev pub id_ce : ℕ → Oid
id_ce n = 2 ∷ 5 ∷ 29 ∷ n ∷ []

abbrev pub subject_key_identifier_oid : Oid
subject_key_identifier_oid = id_ce 14

abbrev pub key_usage_oid : Oid
key_usage_oid = id_ce 15

abbrev pub issuer_alt_name_oid : Oid
issuer_alt_name_oid = id_ce 18

abbrev pub basic_constraints_oid : Oid
basic_constraints_oid = id_ce 19

abbrev pub crl_distribution_points_oid : Oid
crl_distribution_points_oid = id_ce 31

abbrev pub authority_key_identifier_oid : Oid
authority_key_identifier_oid = id_ce 35

abbrev pub extended_key_usage_oid : Oid
extended_key_usage_oid = id_ce 37

-- Policy mappings, name constraints, policy constraints, inhibit any policy, freshest CRL.
abbrev pub disallowed_extensions : List Oid
disallowed_extensions = id_ce 33 ∷ id_ce 30 ∷ id_ce 36 ∷ id_ce 54 ∷ id_ce 46 ∷ []

abbrev pub document_signer_extended_key_usage_oid : Oid
document_signer_extended_key_usage_oid = 1 ∷ 0 ∷ 18013 ∷ 5 ∷ 1 ∷ 2 ∷ []

abbrev pub mdoc_reader_extended_key_usage_oid : Oid
mdoc_reader_extended_key_usage_oid = 1 ∷ 0 ∷ 18013 ∷ 5 ∷ 1 ∷ 6 ∷ []

-- `KeyUsages::DigitalSignature`, and `CRLSign | KeyCertSign`.
abbrev pub digital_signature : ℕ
digital_signature = 1

abbrev pub crl_sign_key_cert_sign : ℕ
crl_sign_key_cert_sign = 96

-- `ExtensionValidator`: the identifier, and the check of the extension.
pub record ExtensionValidator : Type 0 where
  pub oid : Oid
  pub validate : Extension → List ExtensionError

pub record RequiredExtension : Type 0 where
  pub found : Bool
  pub validator : ExtensionValidator

-- The body of the loop: the first validator of the extension's identifier is run and marked.
unfoldable pub check_extension :
    Extension → List RequiredExtension → List RequiredExtension × List CertificateError
check_extension ext [] = if ext.critical then ([], unknown_critical ext.extn_id ∷ []) else ([], [])
check_extension ext (r ∷ rs) =
    let (rs', errors) = check_extension ext rs in
    if r.validator.oid == ext.extn_id
    then (
      record r { found = true } ∷ rs,
      map (extension_error r.validator.oid) (r.validator.validate ext),
    )
    else (r ∷ rs', errors)

unfoldable pub check_extensions :
    List Extension → List RequiredExtension → List RequiredExtension × List CertificateError
check_extensions [] rs = (rs, [])
check_extensions (ext ∷ exts) rs =
    let (rs', errors) = check_extension ext rs in
    let (rs'', errors') = check_extensions exts rs' in (rs'', errors ++ errors')

abbrev pub not_found : RequiredExtension → Option CertificateError
not_found r = if r.found then none else some (extension_not_found r.validator.oid)

abbrev pub required : ExtensionValidator → RequiredExtension
required validator = record { found = false; validator = validator }

unfoldable pub validate_extensions :
    List ExtensionValidator → List Extension → List CertificateError
validate_extensions validators extensions =
    let (rs, errors) = check_extensions extensions (map required validators) in
    errors ++ filter_map not_found rs

abbrev pub is_disallowed : Extension → Option CertificateError
is_disallowed ext =
    if any (λ id. id == ext.extn_id) disallowed_extensions
    then some (disallowed ext.extn_id)
    else none

unfoldable pub check_for_disallowed_x509_extensions : List Extension → List CertificateError
check_for_disallowed_x509_extensions extensions = filter_map is_disallowed extensions

-- `matches!` on general names.
abbrev pub is_uri : GeneralName → Bool
is_uri (rfc822_name n) = false
is_uri (uniform_resource_identifier n) = true
is_uri other_name = false

abbrev pub is_email_or_uri : GeneralName → Bool
is_email_or_uri (rfc822_name n) = true
is_email_or_uri (uniform_resource_identifier n) = true
is_email_or_uri other_name = false

abbrev pub names_uri : Option DistributionPointName → Bool
names_uri none = false
names_uri (some (full_name names)) = any is_uri names
names_uri (some name_relative_to_crl_issuer) = false

-- `if test { errors.push(error) }`
abbrev pub error_if : Bool → ExtensionError → List ExtensionError
error_if true e = e ∷ []
error_if false e = []

unfoldable pub check_point : DistributionPoint → List ExtensionError
check_point point =
    error_if (is_some point.crl_issuer) crl_issuer_set
    ++ (error_if (is_some point.reasons) reasons_set
        ++ error_if (not (names_uri point.distribution_point)) invalid_point)

abbrev pub check_each : List DistributionPoint → List ExtensionError
check_each [] = []
check_each (point ∷ points) = check_point point ++ check_each points

unfoldable pub check_points : List DistributionPoint → List ExtensionError
unfolding check_point
check_points points = if is_empty points then no_points ∷ [] else check_each points

-- A decoded extension is checked, and one that cannot be decoded is an error.
abbrev pub decoded : {A : Type 0} → (A → List ExtensionError) → Option A → List ExtensionError
decoded check none = undecodable ∷ []
decoded check (some a) = check a

unfoldable pub is_ca : Bool × Option ℕ → Bool
is_ca (ca, none) = false
is_ca (ca, some path_len) = path_len == 0 && ca

module _ {Verifier Signature : Type 0} (lib : CertificateLib Verifier Signature) where
  abbrev pub key_usage_validator : ℕ → ExtensionValidator
  key_usage_validator expected = record {
    oid = key_usage_oid;
    validate = λ ext.
        decoded (λ usage. error_if (not (usage == expected)) unexpected_usage)
          (lib.key_usage ext.extn_value);
  }

  abbrev pub basic_constraints_validator : ExtensionValidator
  basic_constraints_validator = record {
    oid = basic_constraints_oid;
    validate = λ ext.
        decoded (λ bc. error_if (not (is_ca bc)) not_a_ca) (lib.basic_constraints ext.extn_value);
  }

  abbrev pub extended_key_usage_validator : Oid → ExtensionValidator
  extended_key_usage_validator expected = record {
    oid = extended_key_usage_oid;
    validate = λ ext.
        decoded
          (λ oids.
            error_if (not (all (λ oid. oid == expected) oids) || is_empty oids) unexpected_purpose)
          (lib.extended_key_usage ext.extn_value);
  }

  abbrev pub crl_distribution_points_validator : ExtensionValidator
  crl_distribution_points_validator = record {
    oid = crl_distribution_points_oid;
    validate = λ ext. decoded check_points (lib.crl_distribution_points ext.extn_value);
  }

  abbrev pub issuer_alternative_name_validator : ExtensionValidator
  issuer_alternative_name_validator = record {
    oid = issuer_alt_name_oid;
    validate = λ ext.
        decoded (λ names. error_if (not (all is_email_or_uri names)) invalid_general_name)
          (lib.issuer_alt_name ext.extn_value);
  }

  abbrev pub subject_key_identifier_validator : Certificate → ExtensionValidator
  subject_key_identifier_validator certificate = record {
    oid = subject_key_identifier_oid;
    validate = λ ext.
        decoded
          (λ ski.
            error_if (not (lib.sha1 certificate.public_key_info.key_bytes == ski)) digest_mismatch)
          (lib.subject_key_identifier ext.extn_value);
  }

  abbrev pub iaca_validators : Certificate → List ExtensionValidator
  iaca_validators certificate =
      subject_key_identifier_validator certificate
      ∷ key_usage_validator crl_sign_key_cert_sign
      ∷ basic_constraints_validator
      ∷ crl_distribution_points_validator
      ∷ issuer_alternative_name_validator
      ∷ []

  abbrev pub end_entity_validators : Oid → Certificate → List ExtensionValidator
  end_entity_validators expected certificate =
      subject_key_identifier_validator certificate
      ∷ extended_key_usage_validator expected
      ∷ key_usage_validator digital_signature
      ∷ crl_distribution_points_validator
      ∷ issuer_alternative_name_validator
      ∷ []

  unfoldable pub validate_iaca_extensions : Certificate → List CertificateError
  validate_iaca_extensions certificate =
      check_for_disallowed_x509_extensions certificate.extensions
      ++ validate_extensions (iaca_validators certificate) certificate.extensions

  unfoldable pub validate_document_signer_certificate_extensions :
      Certificate → List CertificateError
  validate_document_signer_certificate_extensions certificate =
      check_for_disallowed_x509_extensions certificate.extensions
      ++ validate_extensions
          (end_entity_validators document_signer_extended_key_usage_oid certificate)
          certificate.extensions

  unfoldable pub validate_mdoc_reader_certificate_extensions : Certificate → List CertificateError
  validate_mdoc_reader_certificate_extensions certificate =
      check_for_disallowed_x509_extensions certificate.extensions
      ++ validate_extensions (end_entity_validators mdoc_reader_extended_key_usage_oid certificate)
          certificate.extensions

  -- The identifiers that are present and can be decoded.
  abbrev pub issuer_ski : Extension → Option Bytes
  issuer_ski ext =
      if ext.extn_id == subject_key_identifier_oid
      then lib.subject_key_identifier ext.extn_value
      else none

  abbrev pub flatten : Option (Option Bytes) → Option Bytes
  flatten none = none
  flatten (some o) = o

  abbrev pub subject_aki : Extension → Option Bytes
  subject_aki ext =
      if ext.extn_id == authority_key_identifier_oid
      then flatten (lib.authority_key_identifier ext.extn_value)
      else none

  unfoldable pub key_identifier_check : List Extension → List Extension → Bool
  key_identifier_check issuer_extensions subject_extensions =
      any (λ ki. any (λ ski. ki == ski) (filter_map issuer_ski issuer_extensions))
        (filter_map subject_aki subject_extensions)
