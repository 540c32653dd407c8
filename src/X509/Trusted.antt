-- ===== src/X509/Trusted.antt =====
-- src/definitions/x509/validation: what a chain fulfils that is validated without an error.
use mathlib.Core.Path.{subst}
use mathlib.Core.List.{append_assoc}
use isomdl_elevenid.Common.{
  ◌≤◌, ◌≡◌, refl, sym, ap, inl, inr, true, Bool-cases, and-parts, List, [], ◌∷◌, ◌++◌, All, Option,
  none, some, arith,
}
use isomdl_elevenid.Common.Order.{list_ord, pair_ord, nat_ord, ◌==◌, eq_of_==}
use isomdl_elevenid.Common.Map.{is_empty}
use isomdl_elevenid.Session.{Bytes}
use isomdl_elevenid.X509.{
  Certificate, CertificateLib, TrustPurpose, iaca, reader_ca, TrustAnchor, TrustAnchorRegistry,
  NameError,
}
use isomdl_elevenid.X509.Names.{
  country_name, get_rdns, country_name_matches, name_matches, compare_names,
}
use isomdl_elevenid.X509.Extensions.{
  key_identifier_check, iaca_validators, end_entity_validators,
  document_signer_extended_key_usage_oid, check_for_disallowed_x509_extensions,
  validate_iaca_extensions, validate_document_signer_certificate_extensions,
}
use isomdl_elevenid.X509.Validation.{
  mdl, compare_states, on_names, check_validity_period, issuer_signed_subject, same_purpose,
  is_candidate, find_trust_anchor, document_signer_errors, iaca_errors, mdl_with, mdl_validate,
  validate,
}
use isomdl_elevenid.X509.Required.{append-eq-nil, map-eq-nil, Passes, validate_extensions-Passes}

module _ {Verifier Signature : Type 0} (lib : CertificateLib Verifier Signature) where
  -- The time of the check lies in the validity period.
  abbrev pub IsCurrent : Certificate → Type 0
  IsCurrent certificate = (certificate.not_before ≤ lib.now) × (lib.now ≤ certificate.not_after)

  -- Both subjects hold one country name, and the same.
  abbrev pub OneCountry : Certificate → Certificate → Type 0
  OneCountry this that =
      (country : Bytes) × (get_rdns this country_name ≡ country ∷ [])
      × (get_rdns that country_name ≡ country ∷ [])

  -- The anchor stands in the registry for issuers' authorities, is named as the issuer, has the key
  -- identifier that the certificate gives, is in its validity period, and has signed the certificate.
  pub record IsAnchorOf (subject : Certificate) (registry : TrustAnchorRegistry)
      (anchor : TrustAnchor) : Type 0 where
    pub front : TrustAnchorRegistry
    pub back : TrustAnchorRegistry
    pub registered : registry ≡ front ++ (anchor ∷ back)
    pub purposed : anchor.purpose ≡ iaca
    pub named : anchor.certificate.subject ≡ subject.issuer
    pub identified :
        key_identifier_check lib anchor.certificate.extensions subject.extensions ≡ true
    pub signed : issuer_signed_subject lib subject anchor.certificate ≡ true
    pub current : IsCurrent anchor.certificate

  pub record IsTrusted (ds : Certificate) (registry : TrustAnchorRegistry) : Type 0 where
    pub anchor : TrustAnchor
    pub anchored : IsAnchorOf ds registry anchor
    pub current : IsCurrent ds
    pub countries : OneCountry ds anchor.certificate
    pub signer_extensions :
        All
          (Passes ds.extensions)
          (end_entity_validators lib document_signer_extended_key_usage_oid ds)
    pub anchor_extensions :
        All (Passes anchor.certificate.extensions) (iaca_validators lib anchor.certificate)

  check_validity_period-IsCurrent :
      (c : Certificate) → check_validity_period lib c ≡ [] → IsCurrent c
  unfolding check_validity_period
  check_validity_period-IsCurrent c h = ground arith

  is_empty-nil : {A : Type 0} (xs : List A) → is_empty xs ≡ true → xs ≡ []
  is_empty-nil [] h = refl
  is_empty-nil (x ∷ xs) h = absurd cc

  same_purpose-iaca : (p : TrustPurpose) → same_purpose iaca p ≡ true → p ≡ iaca
  same_purpose-iaca iaca h = refl
  same_purpose-iaca reader_ca h = absurd cc

  candidate-IsAnchorOf :
      (subject : Certificate) (front back : TrustAnchorRegistry) (a : TrustAnchor)
      → is_candidate lib subject iaca a ≡ true
      → IsAnchorOf subject (front ++ (a ∷ back)) a
  unfolding is_candidate
  candidate-IsAnchorOf subject front back a h =
      let c = a.certificate in
      let (purposed, h₁) = and-parts (same_purpose iaca a.purpose) _ h in
      let (named, h₂) = and-parts (c.subject == subject.issuer) _ h₁ in
      let (identified, h₃) =
        and-parts (key_identifier_check lib c.extensions subject.extensions) _ h₂ in
      let (signed, current) = and-parts (issuer_signed_subject lib subject c) _ h₃ in
      record {
        front = front;
        back = back;
        registered = refl;
        purposed = same_purpose-iaca a.purpose purposed;
        named = eq_of_== c.subject subject.issuer named;
        identified = identified;
        signed = signed;
        current =
            check_validity_period-IsCurrent c (is_empty-nil (check_validity_period lib c) current);
      }

  find_trust_anchor-IsAnchorOf :
      (subject : Certificate) (before registry : TrustAnchorRegistry) (anchor : Certificate)
      → find_trust_anchor lib subject iaca registry ≡ some anchor
      → (entry : TrustAnchor) × IsAnchorOf subject (before ++ registry) entry
        × (entry.certificate ≡ anchor)
  unfolding find_trust_anchor
  find_trust_anchor-IsAnchorOf subject before [] anchor h = absurd cc
  find_trust_anchor-IsAnchorOf subject before (a ∷ registry) anchor h =
      elim (Bool-cases (is_candidate lib subject iaca a)) [
        | inl good ↦
            (a, candidate-IsAnchorOf subject before registry a good, some-injective (rw good at h))
        | inr bad ↦
            let (entry, anchored, e) =
              find_trust_anchor-IsAnchorOf subject (before ++ (a ∷ [])) registry anchor
                (rw bad at h) in
            (
              entry,
              subst (λ r. IsAnchorOf subject r entry) (append_assoc before (a ∷ []) registry)
                  anchored,
              e,
            )
      ]
    where
      some-injective : {x y : Certificate} → some x ≡ some y → x ≡ y
      some-injective e = cc

  name_matches-OneCountry :
      (this that : Certificate) → country_name_matches lib this that ≡ none → OneCountry this that
  unfolding country_name_matches name_matches
  name_matches-OneCountry this that h =
      go (get_rdns this country_name) (get_rdns that country_name) h
    where
      go :
          (xs ys : List Bytes)
          → compare_names lib country_name this that xs ys ≡ none
          → (country : Bytes) × (xs ≡ country ∷ []) × (ys ≡ country ∷ [])
      go [] ys k = absurd cc
      go (x ∷ xs) [] k = absurd cc
      go (x ∷ x' ∷ xs) (y ∷ ys) k = absurd cc
      go (x ∷ []) (y ∷ y' ∷ ys) k = absurd cc
      go (x ∷ []) (y ∷ []) k = elim (Bool-cases (x == y)) [
        | inl same ↦ (x, refl, ap (λ z. z ∷ []) (sym (eq_of_== x y same)))
        | inr other ↦ absurd (cc (rw other at k))
      ]

  on_names-nil : (o : Option NameError) → on_names o ≡ [] → o ≡ none
  on_names-nil none h = refl
  on_names-nil (some e) h = absurd cc

  iaca_errors-IsTrusted :
      (ds : Certificate) (registry : TrustAnchorRegistry) (entry : TrustAnchor)
      → IsAnchorOf ds registry entry
      → document_signer_errors lib ds ≡ []
      → iaca_errors lib ds entry.certificate ≡ []
      → IsTrusted ds registry
  unfolding document_signer_errors iaca_errors validate_iaca_extensions
      validate_document_signer_certificate_extensions
  iaca_errors-IsTrusted ds registry entry anchored signer authority =
      let (validity, extensions) = append-eq-nil _ _ signer in
      let (countries, extensions') = append-eq-nil _ _ authority in
      record {
        anchor = entry;
        anchored = anchored;
        current = check_validity_period-IsCurrent ds (map-eq-nil _ _ validity);
        countries = name_matches-OneCountry ds entry.certificate (on_names-nil _ countries);
        signer_extensions =
            validate_extensions-Passes ds.extensions
              (end_entity_validators lib document_signer_extended_key_usage_oid ds)
              (append-eq-nil (check_for_disallowed_x509_extensions ds.extensions) _
                (map-eq-nil _ _ extensions)).1;
        anchor_extensions =
            validate_extensions-Passes entry.certificate.extensions
              (iaca_validators lib entry.certificate)
              (append-eq-nil (check_for_disallowed_x509_extensions entry.certificate.extensions) _
                (map-eq-nil _ _ extensions')).1;
      }

  -- A document signer that the mDL ruleset accepts without an error is in its validity period, has the
  -- extensions that its profile requires, and was signed by a trust anchor for issuers that is
  -- current, has the extensions of its own profile, and shares its only country name.
  pub validate-IsTrusted :
      (ds : Certificate) (registry : TrustAnchorRegistry)
      → validate lib mdl ds registry ≡ []
      → IsTrusted ds registry
  unfolding validate mdl_validate
  validate-IsTrusted ds registry h = go (find_trust_anchor lib ds iaca registry) refl h
    where
      go :
          (found : Option Certificate)
          → find_trust_anchor lib ds iaca registry ≡ found
          → mdl_with lib (compare_states lib) ds found ≡ []
          → IsTrusted ds registry
      go none e k =
          let (signer, missing) = append-eq-nil (document_signer_errors lib ds) _ k in absurd cc
      go (some anchor) e k =
          let (signer, k₁) = append-eq-nil (document_signer_errors lib ds) _ k in
          let (authority, states) = append-eq-nil (iaca_errors lib ds anchor) _ k₁ in
          let (entry, anchored, same) = find_trust_anchor-IsAnchorOf ds [] registry anchor e in
          iaca_errors-IsTrusted ds registry entry anchored signer (rw same authority)
