-- ===== src/DeviceKey/Tests.antt =====
-- The theorems on key authorizations at inputs.
use isomdl_elevenid.Common.{ok, ◌≡◌, refl, true, false, List, [], ◌∷◌, some, find}
use isomdl_elevenid.DeviceKey.CoseKey.{ec2, p384, sign_bit, to_value, of_value}
use isomdl_elevenid.DeviceKey.RoundTrip.{of_value-to_value}
use isomdl_elevenid.Common.Order.{Str, str, list_ord, nat_ord}
use isomdl_elevenid.Common.Map.{Map, get, contains_key}
use isomdl_elevenid.DeviceKey.{validate, permitted, check_namespaces}
use isomdl_elevenid.DeviceKey.Authorized.{reported, validate-find, permitted-validate}

abbrev names : List Str
names = str "a" ∷ str "b" ∷ []

abbrev elements : Map Str (List Str)
elements = (str "b", str "x" ∷ []) ∷ (str "c", str "y" ∷ []) ∷ []

validate-find_example :
    validate (record { namespaces = some names; data_elements = some elements })
    ≡ reported (find (λ n. contains_key n elements) names)
validate-find_example = validate-find names elements

permitted-validate_example :
    permitted
      (record { namespaces = some (str "a" ∷ []); data_elements = some elements })
      (str "c")
      (str "y")
    ≡ false
unfolding get validate check_namespaces
permitted-validate_example =
    permitted-validate (str "a" ∷ []) elements (str "c") (str "y") (str "y" ∷ []) refl refl

of_value-to_value_example :
    of_value (to_value (ec2 p384 (1 ∷ []) (sign_bit true))) ≡ ok (ec2 p384 (1 ∷ []) (sign_bit true))
of_value-to_value_example = of_value-to_value (ec2 p384 (1 ∷ []) (sign_bit true))
