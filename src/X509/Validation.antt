-- ===== src/X509/Validation.antt =====
-- src/definitions/x509/validation: the rulesets, the validity period, the signature of an issuer, and
-- the trust anchors that come into question. The messages are data, each with its context.
use isomdl_elevenid.Common.{
  Bool, true, false, ◌&&◌, ◌||◌, List, [], ◌∷◌, ◌++◌, Option, none, some, map, ltb, if◌then◌else◌,
}
use isomdl_elevenid.Common.Order.{list_ord, pair_ord, nat_ord, ◌==◌}
use isomdl_elevenid.Common.Map.{is_empty}
use isomdl_elevenid.Session.{Bytes}
use isomdl_elevenid.X509.{
  Oid, PublicKeyInfo, Certificate, CertificateLib, TrustPurpose, iaca, reader_ca, TrustAnchor,
  TrustAnchorRegistry, CertificateError, expired, not_yet_valid, no_trust_anchor, name_error,
  NameError, Context, comparison, document_signer, iaca_certificate, reader, reader_ca_certificate,
  ValidationError,
}
use isomdl_elevenid.X509.Names.{
  state_or_province_name, has_rdn, country_name_matches, state_or_province_name_matches,
}
use isomdl_elevenid.X509.Extensions.{
  validate_iaca_extensions, validate_document_signer_certificate_extensions,
  validate_mdoc_reader_certificate_extensions, key_identifier_check,
}

pub data ValidationRuleset : Type 0 where
  mdl aamva_mdl mdl_reader_one_step : ValidationRuleset

abbrev pub id_ec_public_key : Oid
id_ec_public_key = 1 ∷ 2 ∷ 840 ∷ 10045 ∷ 2 ∷ 1 ∷ []

abbrev pub secp_256_r_1 : Oid
secp_256_r_1 = 1 ∷ 2 ∷ 840 ∷ 10045 ∷ 3 ∷ 1 ∷ 7 ∷ []

abbrev pub same_purpose : TrustPurpose → TrustPurpose → Bool
same_purpose iaca iaca = true
same_purpose iaca reader_ca = false
same_purpose reader_ca iaca = false
same_purpose reader_ca reader_ca = true

abbrev pub in_context : Context → List CertificateError → List ValidationError
in_context context errors = map (λ e. (context, e)) errors

abbrev pub on_names : Option NameError → List ValidationError
on_names none = []
on_names (some e) = (comparison, name_error e) ∷ []

abbrev pub no_anchor : Context → List ValidationError
no_anchor context = (context, no_trust_anchor) ∷ []

module _ {Verifier Signature : Type 0} (lib : CertificateLib Verifier Signature) where
  unfoldable pub check_validity_period : Certificate → List CertificateError
  check_validity_period certificate =
      (if ltb certificate.not_after lib.now then expired ∷ [] else [])
      ++ (if ltb lib.now certificate.not_before then not_yet_valid ∷ [] else [])

  abbrev pub key_on_curve : Oid → PublicKeyInfo → Option Oid → Option Verifier
  key_on_curve expected info none = none
  key_on_curve expected info (some curve) =
      if curve == expected && info.unused_bits == 0 then lib.key_from_sec1 info.key_bytes else none

  abbrev pub named_curve : Option Bytes → Option Oid
  named_curve none = none
  named_curve (some parameters) = lib.oid_from_der parameters

  -- An error of `public_key_with_oid` is `none`.
  unfoldable pub public_key_with_oid : Certificate → Oid → Option Verifier
  public_key_with_oid certificate expected =
      let info = certificate.public_key_info in
      if info.algorithm == id_ec_public_key
      then key_on_curve expected info (named_curve info.parameters)
      else none

  abbrev pub signed_by : Option Verifier → Option Signature → Option Bytes → Bool
  signed_by none signature tbs = false
  signed_by (some key) none tbs = false
  signed_by (some key) (some signature) none = false
  signed_by (some key) (some signature) (some tbs) =
      lib.verify_prehashed key (lib.sha256 tbs) signature

  unfoldable pub issuer_signed_subject : Certificate → Certificate → Bool
  unfolding public_key_with_oid
  issuer_signed_subject subject issuer =
      signed_by (public_key_with_oid issuer secp_256_r_1) (lib.signature_from_der subject.signature)
        subject.tbs_to_der

  -- The filters of `find_trust_anchor_candidates`, one behind the other.
  unfoldable pub is_candidate : Certificate → TrustPurpose → TrustAnchor → Bool
  unfolding check_validity_period issuer_signed_subject
  is_candidate subject purpose anchor =
      let candidate = anchor.certificate in
      same_purpose purpose anchor.purpose
      && (candidate.subject == subject.issuer
          && (key_identifier_check lib candidate.extensions subject.extensions
              && (issuer_signed_subject subject candidate
                  && is_empty (check_validity_period candidate))))

  -- The first candidate; a further one only makes a warning.
  unfoldable pub find_trust_anchor :
      Certificate → TrustPurpose → TrustAnchorRegistry → Option Certificate
  unfolding is_candidate
  find_trust_anchor subject purpose [] = none
  find_trust_anchor subject purpose (anchor ∷ anchors) =
      if is_candidate subject purpose anchor
      then some anchor.certificate
      else find_trust_anchor subject purpose anchors

  unfoldable pub document_signer_errors : Certificate → List ValidationError
  unfolding check_validity_period
  document_signer_errors ds =
      in_context document_signer (check_validity_period ds)
      ++ in_context document_signer (validate_document_signer_certificate_extensions lib ds)

  unfoldable pub iaca_errors : Certificate → Certificate → List ValidationError
  iaca_errors ds anchor =
      on_names (country_name_matches lib ds anchor)
      ++ in_context iaca_certificate (validate_iaca_extensions lib anchor)

  -- `mdl_validate_inner` with the comparison that its callers make behind it.
  abbrev pub mdl_with :
      (Certificate → Certificate → List ValidationError)
      → Certificate
      → Option Certificate
      → List ValidationError
  mdl_with compare ds none = document_signer_errors ds ++ no_anchor iaca_certificate
  mdl_with compare ds (some anchor) =
      document_signer_errors ds ++ (iaca_errors ds anchor ++ compare ds anchor)

  abbrev pub compare_states : Certificate → Certificate → List ValidationError
  compare_states ds anchor =
      if has_rdn ds state_or_province_name || has_rdn anchor state_or_province_name
      then on_names (state_or_province_name_matches lib ds anchor)
      else []

  abbrev pub require_states : Certificate → Certificate → List ValidationError
  require_states ds anchor = on_names (state_or_province_name_matches lib ds anchor)

  unfoldable pub mdl_validate : Certificate → TrustAnchorRegistry → List ValidationError
  unfolding document_signer_errors iaca_errors
  mdl_validate ds trust_anchors =
      mdl_with compare_states ds (find_trust_anchor ds iaca trust_anchors)

  unfoldable pub aamva_mdl_validate : Certificate → TrustAnchorRegistry → List ValidationError
  unfolding document_signer_errors iaca_errors
  aamva_mdl_validate ds trust_anchors =
      mdl_with require_states ds (find_trust_anchor ds iaca trust_anchors)

  abbrev pub reader_anchor : Option Certificate → List ValidationError
  reader_anchor none = no_anchor reader_ca_certificate
  reader_anchor (some anchor) = []

  unfoldable pub mdl_reader_one_step_validate :
      Certificate → TrustAnchorRegistry → List ValidationError
  unfolding check_validity_period
  mdl_reader_one_step_validate certificate trust_anchors =
      in_context reader (check_validity_period certificate)
      ++ (in_context reader (validate_mdoc_reader_certificate_extensions lib certificate)
          ++ reader_anchor (find_trust_anchor certificate reader_ca trust_anchors))

  -- The chain enters with its end-entity certificate, the only one that the rulesets look at.
  unfoldable pub validate :
      ValidationRuleset → Certificate → TrustAnchorRegistry → List ValidationError
  validate mdl end_entity trust_anchors = mdl_validate end_entity trust_anchors
  validate aamva_mdl end_entity trust_anchors = aamva_mdl_validate end_entity trust_anchors
  validate mdl_reader_one_step end_entity trust_anchors =
      mdl_reader_one_step_validate end_entity trust_anchors
