-- ===== src/X509/Names.antt =====
-- src/definitions/x509/validation/names.rs and util.rs: the attributes of a subject, and their
-- comparison.
use isomdl_elevenid.Common.{
  Bool, not, List, [], ◌∷◌, ◌++◌, Option, none, some, filter_map, if◌then◌else◌,
}
use isomdl_elevenid.Common.Order.{Str, str, list_ord, nat_ord, ◌==◌}
use isomdl_elevenid.Common.Map.{is_empty}
use isomdl_elevenid.Session.{Bytes}
use isomdl_elevenid.X509.{
  Oid, DistinguishedName, Certificate, CertificateLib, NameError, missing, multiple, mismatch,
}

abbrev pub country_name : Oid
country_name = 2 ∷ 5 ∷ 4 ∷ 6 ∷ []

abbrev pub state_or_province_name : Oid
state_or_province_name = 2 ∷ 5 ∷ 4 ∷ 8 ∷ []

abbrev pub common_name_oid : Oid
common_name_oid = 2 ∷ 5 ∷ 4 ∷ 3 ∷ []

-- `flat_map(|rdn| rdn.0.iter())`
abbrev pub attributes : DistinguishedName → List (Oid × Bytes)
attributes [] = []
attributes (rdn ∷ rdns) = rdn ++ attributes rdns

abbrev pub value_of : Oid → Oid × Bytes → Option Bytes
value_of oid (id, value) = if id == oid then some value else none

unfoldable pub get_rdns : Certificate → Oid → List Bytes
get_rdns certificate oid = filter_map (value_of oid) (attributes certificate.subject)

unfoldable pub has_rdn : Certificate → Oid → Bool
unfolding get_rdns
has_rdn certificate oid = not (is_empty (get_rdns certificate oid))

module _ {Verifier Signature : Type 0} (lib : CertificateLib Verifier Signature) where
  abbrev pub name_of : Oid × Bytes → Option Str
  name_of (id, value) = if id == common_name_oid then lib.attribute_value_to_str value else none

  abbrev pub first_or_unknown : List Str → Str
  first_or_unknown [] = str "Unknown"
  first_or_unknown (name ∷ names) = name

  unfoldable pub common_name_or_unknown : Certificate → Str
  common_name_or_unknown certificate =
      first_or_unknown (filter_map name_of (attributes certificate.subject))

  -- The message on several names of one certificate gives the common name of the other one.
  abbrev pub compare_names :
      Oid → Certificate → Certificate → List Bytes → List Bytes → Option NameError
  compare_names oid this that [] those = some (missing (common_name_or_unknown this) oid)
  compare_names oid this that (c ∷ cs) [] = some (missing (common_name_or_unknown that) oid)
  compare_names oid this that (c ∷ c' ∷ cs) (d ∷ ds) =
      some (multiple (common_name_or_unknown that) oid)
  compare_names oid this that (c ∷ []) (d ∷ d' ∷ ds) =
      some (multiple (common_name_or_unknown this) oid)
  compare_names oid this that (c ∷ []) (d ∷ []) = if c == d then none else some (mismatch oid)

  unfoldable pub name_matches : Oid → Certificate → Certificate → Option NameError
  unfolding get_rdns
  name_matches oid this that = compare_names oid this that (get_rdns this oid) (get_rdns that oid)

  unfoldable pub country_name_matches : Certificate → Certificate → Option NameError
  unfolding name_matches
  country_name_matches this that = name_matches country_name this that

  unfoldable pub state_or_province_name_matches : Certificate → Certificate → Option NameError
  unfolding name_matches
  state_or_province_name_matches this that = name_matches state_or_province_name this that
