-- ===== src/X509/Required.antt =====
-- src/definitions/x509/validation/extensions: extensions that are validated without an error hold each
-- required extension.
use isomdl_elevenid.Common.{
  ◌≡◌, refl, sym, ap, ◌∙◌, ◌⊎◌, inl, inr, true, false, Bool-cases, List, [], ◌∷◌, ◌++◌, All, map,
  filter_map, arith,
}
use mathlib.Core.Path.{subst}
use mathlib.Core.List.{append_assoc}
use isomdl_elevenid.Common.Order.{list_ord, nat_ord, ◌==◌, eq_of_==}
use isomdl_elevenid.X509.{Extension, extension_error}
use isomdl_elevenid.X509.Extensions.{
  ExtensionValidator, RequiredExtension, check_extension, check_extensions, not_found, required,
  validate_extensions,
}

pub append-eq-nil : {A : Type 0} (xs ys : List A) → xs ++ ys ≡ [] → (xs ≡ []) × (ys ≡ [])
append-eq-nil [] ys h = (refl, h)
append-eq-nil (x ∷ xs) ys h = absurd cc

pub map-eq-nil : {A B : Type 0} (f : A → B) (xs : List A) → map f xs ≡ [] → xs ≡ []
map-eq-nil f [] h = refl
map-eq-nil f (x ∷ xs) h = absurd cc

-- One of the extensions has the identifier of the validator, and passes it.
abbrev pub Passes : List Extension → ExtensionValidator → Type 0
Passes extensions validator =
    (front : List Extension) × (ext : Extension) × (back : List Extension) × (extensions
      ≡ front ++ (ext ∷ back))
    × (validator.oid ≡ ext.extn_id)
    × (validator.validate ext ≡ [])

abbrev validators_of : List RequiredExtension → List ExtensionValidator
validators_of rs = map (λ r. r.validator) rs

-- The loop keeps the validators, in their order.
check_extension-validators :
    (ext : Extension) (rs : List RequiredExtension)
    → validators_of (check_extension ext rs).0 ≡ validators_of rs
unfolding check_extension
check_extension-validators ext [] = ground arith
check_extension-validators ext (r ∷ rs) = elim (Bool-cases (r.validator.oid == ext.extn_id)) [
  | inl same ↦ rw same refl
  | inr other ↦ rw other (ap (λ l. r.validator ∷ l) (check_extension-validators ext rs))
]

check_extensions-validators :
    (exts : List Extension) (rs : List RequiredExtension)
    → validators_of (check_extensions exts rs).0 ≡ validators_of rs
unfolding check_extensions
check_extensions-validators [] rs = refl
check_extensions-validators (ext ∷ exts) rs =
    check_extensions-validators exts (check_extension ext rs).0 ∙ check_extension-validators ext rs

validators_of-required : (vs : List ExtensionValidator) → validators_of (map required vs) ≡ vs
validators_of-required [] = refl
validators_of-required (v ∷ vs) = ap (λ l. v ∷ l) (validators_of-required vs)

module _ (extensions : List Extension) where
  -- A validator is marked only where an extension has passed it.
  abbrev IsHonest : RequiredExtension → Type 0
  IsHonest r = (r.found ≡ false) ⊎ Passes extensions r.validator

  check_extension-IsHonest :
      (front : List Extension) (ext : Extension) (back : List Extension)
      → extensions ≡ front ++ (ext ∷ back)
      → (rs : List RequiredExtension) → All IsHonest rs
      → (check_extension ext rs).1 ≡ []
      → All IsHonest (check_extension ext rs).0
  unfolding check_extension
  check_extension-IsHonest front ext back e [] h k = elim (Bool-cases ext.critical) [
    | inl strict ↦ rw strict tt
    | inr lax ↦ rw lax tt
  ]
  check_extension-IsHonest front ext back e (r ∷ rs) (h, hs) k =
      elim (Bool-cases (r.validator.oid == ext.extn_id)) [
        | inl same ↦ rw same (
          inr (
            front,
            ext,
            back,
            e,
            eq_of_== r.validator.oid ext.extn_id same,
            map-eq-nil (extension_error r.validator.oid) (r.validator.validate ext) (rw same at k),
          ),
          hs,
        )
        | inr other ↦ rw other (h, check_extension-IsHonest front ext back e rs hs (rw other at k))
      ]

  check_extensions-IsHonest :
      (front exts : List Extension)
      → extensions ≡ front ++ exts
      → (rs : List RequiredExtension) → All IsHonest rs
      → (check_extensions exts rs).1 ≡ []
      → All IsHonest (check_extensions exts rs).0
  unfolding check_extensions
  check_extensions-IsHonest front [] e rs h k = h
  check_extensions-IsHonest front (ext ∷ exts) e rs h k =
      let (first, rest) = append-eq-nil (check_extension ext rs).1 _ k in
      check_extensions-IsHonest (front ++ (ext ∷ [])) exts
        (e ∙ sym (append_assoc front (ext ∷ []) exts)) (check_extension ext rs).0
        (check_extension-IsHonest front ext exts e rs h first) rest

  required-IsHonest : (vs : List ExtensionValidator) → All IsHonest (map required vs)
  required-IsHonest [] = tt
  required-IsHonest (v ∷ vs) = (inl refl, required-IsHonest vs)

  honest-found :
      (r : RequiredExtension) → IsHonest r → r.found ≡ true → Passes extensions r.validator
  honest-found r (inl unmarked) found = absurd cc
  honest-found r (inr passes) found = passes

  each_found :
      (rs : List RequiredExtension)
      → All IsHonest rs
      → filter_map not_found rs ≡ []
      → All (Passes extensions) (validators_of rs)
  each_found [] h k = tt
  each_found (r ∷ rs) (h, hs) k = elim (Bool-cases r.found) [
    | inl found ↦ (honest-found r h found, each_found rs hs (rw found at k))
    | inr missing ↦ absurd (cc (rw missing at k))
  ]

  -- Where the extensions are validated without an error, each validator has its extension, which
  -- passes it.
  pub validate_extensions-Passes :
      (validators : List ExtensionValidator)
      → validate_extensions validators extensions ≡ []
      → All (Passes extensions) validators
  unfolding validate_extensions
  validate_extensions-Passes validators h =
      let rs = map required validators in
      let (checked, found) = append-eq-nil (check_extensions extensions rs).1 _ h in
      subst (All (Passes extensions))
        (check_extensions-validators extensions rs ∙ validators_of-required validators)
        (each_found (check_extensions extensions rs).0
          (check_extensions-IsHonest [] extensions refl rs (required-IsHonest validators) checked)
          found)
