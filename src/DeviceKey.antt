-- ===== src/DeviceKey.antt =====
-- src/definitions/device_key/mod.rs: the authorizations of a device key.
pub mod Authorized
pub mod CoseKey
pub mod RoundTrip
mod Tests
use isomdl_elevenid.Common.{
  ◌≡◌, Bool, true, false, List, [], ◌∷◌, Option, none, some, any, if◌then◌else◌, Result, ok, err,
  ◌>>=◌, ◌>>◌,
}
use isomdl_elevenid.Common.Order.{Str, list_ord, nat_ord, ◌==◌}
use isomdl_elevenid.Common.Map.{Map, get, contains_key}

pub data KeyAuthorizationsError : Type 0 where
  double_authorized : Str → KeyAuthorizationsError

pub record KeyAuthorizations : Type 0 where
  pub namespaces : Option (List Str)
  pub data_elements : Option (Map Str (List Str))

pub record DeviceKeyInfo (Key : Type 0) : Type 0 where
  pub device_key : Key
  pub key_authorizations : Option KeyAuthorizations

-- `namespaces.contains(namespace)`
unfoldable pub contains : Str → List Str → Bool
contains name names = any (λ n. n == name) names

-- The walk of `try_for_each` over the authorized namespaces.
unfoldable pub check_namespaces :
    List Str → Map Str (List Str) → Result KeyAuthorizationsError (Unit {0})
check_namespaces [] elements = ok tt
check_namespaces (name ∷ names) elements =
    let rest = check_namespaces names elements in
    if contains_key name elements then err (double_authorized name) else rest

unfoldable pub validate : KeyAuthorizations → Result KeyAuthorizationsError (Unit {0})
validate auth = elim auth.data_elements [
  | none ↦ ok tt
  | some elements ↦ elim auth.namespaces [
    | none ↦ ok tt
    | some names ↦ check_namespaces names elements
  ]
]

abbrev pub element_listed : Str → Option (List Str) → Bool
element_listed element none = false
element_listed element (some elements) = contains element elements

unfoldable pub permitted : KeyAuthorizations → Str → Str → Bool
permitted auth namespace element = elim auth.namespaces [
  | some names ↦ contains namespace names
  | none ↦ elim auth.data_elements [
    | some elements ↦ element_listed element (get namespace elements)
    | none ↦ false
  ]
]
