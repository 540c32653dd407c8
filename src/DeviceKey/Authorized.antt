-- ===== src/DeviceKey/Authorized.antt =====
-- What the validation of key authorizations promises, and which elements a key may sign.
use isomdl_elevenid.Common.{
  ◌≡◌, refl, false, List, [], ◌∷◌, Option, none, some, Result, ok, err, Bool-cases, find, inl, inr,
}
use isomdl_elevenid.Common.Order.{Str, ==-cases, list_ord, nat_ord}
use isomdl_elevenid.Common.Map.{Map, get, contains_key}
use isomdl_elevenid.DeviceKey.{
  KeyAuthorizationsError, double_authorized, check_namespaces, validate, permitted, contains,
}

-- The error that names a namespace, if there is one.
abbrev pub reported : Option Str → Result KeyAuthorizationsError (Unit {0})
reported none = ok tt
reported (some name) = err (double_authorized name)

check_namespaces-find :
    (names : List Str) (elements : Map Str (List Str))
    → check_namespaces names elements ≡ reported (find (λ n. contains_key n elements) names)
unfolding check_namespaces
check_namespaces-find [] elements = refl
check_namespaces-find (n ∷ ns) elements = elim (Bool-cases (contains_key n elements)) [
  | inl e ↦ rw (e, find)
  | inr e ↦ rw (e, find) (check_namespaces-find ns elements)
]

-- The validation of authorizations reports the first listed namespace that also has elements listed,
-- and succeeds where there is none.
pub validate-find :
    (names : List Str) (elements : Map Str (List Str))
    → validate (record { namespaces = some names; data_elements = some elements })
      ≡ reported (find (λ n. contains_key n elements) names)
unfolding validate
validate-find names elements = check_namespaces-find names elements

check_namespaces-contains :
    (names : List Str) (elements : Map Str (List Str)) (namespace : Str) (listed : List Str)
    → check_namespaces names elements ≡ ok tt
    → get namespace elements ≡ some listed
    → contains namespace names ≡ false
unfolding check_namespaces contains
check_namespaces-contains [] elements namespace listed h here = refl
check_namespaces-contains (n ∷ ns) elements namespace listed h here =
    elim (Bool-cases (contains_key n elements)) [
      | inl e ↦ absurd (cc (rw e at h))
      | inr e ↦ elim (==-cases n namespace) [
        | inl (same, p) ↦ absurd (cc (rw (p, here) at e))
        | inr (other, p) ↦
            rw other (check_namespaces-contains ns elements namespace listed (rw e at h) here)
      ]
    ]

-- Where authorizations that list both namespaces and elements pass the validation, no element of a
-- namespace with listed elements is permitted, whether it is listed there or not.
pub permitted-validate :
    (names : List Str) (elements : Map Str (List Str)) (namespace element : Str) (listed : List Str)
    → validate (record { namespaces = some names; data_elements = some elements }) ≡ ok tt
    → get namespace elements ≡ some listed
    → permitted
        (record { namespaces = some names; data_elements = some elements })
        namespace
        element
      ≡ false
unfolding permitted validate
permitted-validate names elements namespace element listed valid here =
    check_namespaces-contains names elements namespace listed valid here
