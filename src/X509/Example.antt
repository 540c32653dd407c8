-- ===== src/X509/Example.antt =====
-- A document signer and its authority, with decoders that read the first bytes.
use isomdl_elevenid.Common.{◌≡◌, refl, true, false, List, [], ◌∷◌, none, some}
use isomdl_elevenid.Session.{Bytes}
use isomdl_elevenid.X509.{
  Oid, DistinguishedName, Extension, Certificate, CertificateLib, PublicKeyInfo,
  TrustAnchorRegistry, iaca, uniform_resource_identifier, full_name,
}
use isomdl_elevenid.X509.Names.{country_name, has_rdn, name_matches, country_name_matches, get_rdns}
use isomdl_elevenid.X509.Extensions.{
  id_ce, document_signer_extended_key_usage_oid, check_extension, check_extensions,
  validate_extensions, check_for_disallowed_x509_extensions, check_point, check_points, is_ca,
  validate_iaca_extensions, validate_document_signer_certificate_extensions, key_identifier_check,
}
use isomdl_elevenid.X509.Validation.{
  id_ec_public_key, secp_256_r_1, mdl, check_validity_period, public_key_with_oid,
  issuer_signed_subject, is_candidate, find_trust_anchor, document_signer_errors, iaca_errors,
  mdl_validate, validate,
}

abbrev pub toy_lib : CertificateLib Bytes Bytes
toy_lib = record {
  now = 5;
  attribute_value_to_str = λ value. some value;
  subject_key_identifier = λ bytes. some bytes;
  authority_key_identifier = λ bytes. some (some bytes);
  key_usage = λ bytes. elim bytes [ [] ↦ none | b ∷ bs ↦ some b ];
  basic_constraints = λ bytes. some (true, some 0);
  extended_key_usage = λ bytes. some (document_signer_extended_key_usage_oid ∷ []);
  crl_distribution_points = λ bytes. some (
      record {
        distribution_point = some (full_name (uniform_resource_identifier bytes ∷ []));
        reasons = none;
        crl_issuer = none;
      }
      ∷ []);
  issuer_alt_name = λ bytes. some (uniform_resource_identifier bytes ∷ []);
  oid_from_der = λ bytes. some bytes;
  sha1 = λ bytes. bytes;
  sha256 = λ bytes. bytes;
  key_from_sec1 = λ bytes. some bytes;
  signature_from_der = λ bytes. some bytes;
  verify_prehashed = λ key digest signature. true;
}

abbrev pub extension : Oid → Bytes → Extension
extension oid bytes = record { extn_id = oid; critical = true; extn_value = bytes }

abbrev pub key_info : PublicKeyInfo
key_info = record {
  algorithm = id_ec_public_key;
  parameters = some secp_256_r_1;
  unused_bits = 0;
  key_bytes = 7 ∷ [];
}

abbrev pub name : DistinguishedName
name = ((country_name, 85 ∷ 84 ∷ []) ∷ []) ∷ []

abbrev pub certificate_with : List Extension → Certificate
certificate_with extensions = record {
  subject = name;
  issuer = name;
  not_before = 1;
  not_after = 9;
  public_key_info = key_info;
  extensions = extensions;
  signature = [];
  tbs_to_der = some [];
}

abbrev pub authority : Certificate
authority = certificate_with (
    extension (id_ce 14) (7 ∷ [])
    ∷ extension (id_ce 15) (96 ∷ [])
    ∷ extension (id_ce 19) []
    ∷ extension (id_ce 31) []
    ∷ extension (id_ce 18) []
    ∷ [])

abbrev pub signer : Certificate
signer = certificate_with (
    extension (id_ce 14) (7 ∷ [])
    ∷ record { extn_id = id_ce 35; critical = false; extn_value = 7 ∷ [] }
    ∷ extension (id_ce 37) []
    ∷ extension (id_ce 15) (1 ∷ [])
    ∷ extension (id_ce 31) []
    ∷ extension (id_ce 18) []
    ∷ [])

abbrev pub registry : TrustAnchorRegistry
registry = record { certificate = authority; purpose = iaca } ∷ []

pub signer_accepted : validate toy_lib mdl signer registry ≡ []
unfolding validate mdl_validate document_signer_errors iaca_errors check_validity_period
    validate_document_signer_certificate_extensions validate_iaca_extensions validate_extensions
    check_extensions check_extension check_for_disallowed_x509_extensions check_points check_point
    is_ca find_trust_anchor is_candidate key_identifier_check issuer_signed_subject
    public_key_with_oid country_name_matches name_matches get_rdns has_rdn
signer_accepted = refl
