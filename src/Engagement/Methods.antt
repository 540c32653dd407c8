-- ===== src/Engagement/Methods.antt =====
-- src/definitions/device_engagement.rs: a device retrieval method as a CBOR array of its transport, its
-- version and its options.
use isomdl_elevenid.Common.{
  ℕ, ◌≡◌, ◌&&◌, List, [], ◌∷◌, Result, ok, err, ◌>>=◌, map_err, if◌then◌else◌,
}
use isomdl_elevenid.Common.Order.{◌==◌}
use isomdl_elevenid.Common.Int.{ℤ, pos, int_ord}
use isomdl_elevenid.Cbor.{Value}
use isomdl_elevenid.Engagement.{
  EngagementError, unsupported_drm, malformed, DeviceRetrievalMethod, wifi, ble, nfc, values_of,
  to_list,
}
use isomdl_elevenid.Engagement.Nfc.{nfc_of_value, nfc_to_value, IsNfc, nfc_of_value-nfc_to_value}
use isomdl_elevenid.Engagement.Ble.{ble_of_value, ble_to_value, IsBle, ble_of_value-ble_to_value}
use isomdl_elevenid.Engagement.Wifi.{
  wifi_of_value, wifi_to_value, IsWifi, wifi_of_value-wifi_to_value,
}

unfoldable pub transport_type : DeviceRetrievalMethod → ℕ
transport_type (nfc o) = 1
transport_type (ble o) = 2
transport_type (wifi o) = 3

abbrev pub method_version : ℕ
method_version = 1

abbrev pub options_to_value : DeviceRetrievalMethod → Value
options_to_value (nfc o) = nfc_to_value o
options_to_value (ble o) = ble_to_value o
options_to_value (wifi o) = wifi_to_value o

-- `From<DeviceRetrievalMethod> for ciborium::Value`
unfoldable pub method_to_value : DeviceRetrievalMethod → Value
method_to_value m = Value.array (
    values_of (
      Value.integer (pos (transport_type m))
      ∷ Value.integer (pos method_version)
      ∷ options_to_value m
      ∷ []))

-- The guarded patterns of the match on the array.
unfoldable pub method_of_parts : ℤ → ℤ → Value → Result EngagementError DeviceRetrievalMethod
method_of_parts transport version methods =
    if transport == pos 1 && version == pos 1
    then nfc_of_value methods >>= (λ o. ok (nfc o))
    else if version == pos 1 && transport == pos 2
    then map_err (λ e. malformed) (ble_of_value methods) >>= (λ o. ok (ble o))
    else if version == pos 1 && transport == pos 3
    then map_err (λ e. malformed) (wifi_of_value methods) >>= (λ o. ok (wifi o))
    else err unsupported_drm

abbrev pub method_of_values : List Value → Result EngagementError DeviceRetrievalMethod
method_of_values (Value.integer transport ∷ Value.integer version ∷ methods ∷ []) =
    method_of_parts transport version methods
method_of_values (Value.integer transport ∷ other ∷ methods ∷ []) = err unsupported_drm
method_of_values other = err malformed

-- `TryFrom<ciborium::Value> for DeviceRetrievalMethod`
unfoldable pub method_of_value : Value → Result EngagementError DeviceRetrievalMethod
unfolding method_of_parts
method_of_value (Value.array list) = method_of_values (to_list list)
method_of_value other = err malformed

-- The methods whose options are in range.
abbrev pub IsMethod : DeviceRetrievalMethod → Type 0
IsMethod (nfc o) = IsNfc o
IsMethod (ble o) = IsBle o
IsMethod (wifi o) = IsWifi o

pub method_of_value-method_to_value :
    (m : DeviceRetrievalMethod) → IsMethod m → method_of_value (method_to_value m) ≡ ok m
unfolding method_of_value method_to_value method_of_parts transport_type
method_of_value-method_to_value (nfc o) h = rw (nfc_of_value-nfc_to_value o h)
method_of_value-method_to_value (ble o) h = rw (ble_of_value-ble_to_value o h)
method_of_value-method_to_value (wifi o) h = rw (wifi_of_value-wifi_to_value o h)
