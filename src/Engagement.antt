-- ===== src/Engagement.antt =====
-- src/definitions/device_engagement.rs: what a holder tells a reader before a session, with the options
-- of the transports, and the errors of its decoding.
pub mod Nfc
pub mod Ble
pub mod Wifi
pub mod Methods
pub mod Tagged
pub mod Codec
pub mod RoundTrip
pub mod Qr
pub mod Example
mod Tests
use isomdl_elevenid.Common.{
  ℕ, ◌<◌, Bool, List, [], ◌∷◌, Option, none, some, Result, ok, err, map_err, ltb, if◌then◌else◌,
}
use isomdl_elevenid.Common.Order.{Str}
use isomdl_elevenid.Common.Int.{ℤ, pos, negsuc}
use isomdl_elevenid.Common.Map.{Map}
use isomdl_elevenid.Cbor.{Value, Entries, Values, no_values, value}
use isomdl_elevenid.Session.{Bytes}
use isomdl_elevenid.DeviceKey.CoseKey.{CoseKey, integer_map}
use isomdl_elevenid.Issuance.Plan.{Tag24}

-- `device_engagement::Error`
pub data EngagementError : Type 0 where
  unsupported_version unsupported_drm unimplemented invalid_device_engagement : EngagementError
  invalid_wifi_options invalid_nfc_options malformed cose_key_error tag24_error : EngagementError
  cbor_error invalid_nfc_command_data_length invalid_nfc_response_data_length : EngagementError

-- A UUID is its sixteen bytes.
abbrev pub Uuid : Type 0
Uuid = Bytes

-- The two lengths are a `u16` and a `u32`.
pub record NfcOptions : Type 0 where
  pub max_len_command_data_field : ℕ
  pub max_len_response_data_field : ℕ

pub record PeripheralServerMode : Type 0 where
  pub uuid : Uuid
  pub ble_device_address : Option Bytes

pub record CentralClientMode : Type 0 where
  pub uuid : Uuid

pub record BleOptions : Type 0 where
  pub peripheral_server_mode : Option PeripheralServerMode
  pub central_client_mode : Option CentralClientMode

pub record WifiOptions : Type 0 where
  pub pass_phrase : Option Str
  pub channel_info_operating_class : Option ℕ
  pub channel_info_channel_number : Option ℕ
  pub band_info : Option Bytes

pub data DeviceRetrievalMethod : Type 0 where
  wifi : WifiOptions → DeviceRetrievalMethod
  ble : BleOptions → DeviceRetrievalMethod
  nfc : NfcOptions → DeviceRetrievalMethod

-- `NonEmptyVec<DeviceRetrievalMethod>`: the first one, and the others.
abbrev pub DeviceRetrievalMethods : Type 0
DeviceRetrievalMethods = DeviceRetrievalMethod × List DeviceRetrievalMethod

pub record Security : Type 0 where
  pub cipher_suite : ℕ
  pub e_device_key : Tag24 CoseKey

pub record ServerRetrievalMethods : Type 0 where
  pub web_api : Option (ℕ × Str × Str)
  pub oidc : Option (ℕ × Str × Str)

pub record DeviceEngagement : Type 0 where
  pub version : Str
  pub security : Security
  pub device_retrieval_methods : Option DeviceRetrievalMethods
  pub server_retrieval_methods : Option ServerRetrievalMethods
  pub protocol_info : Option Value

-- `collect` of a map with integer keys: a key that is no integer is an error.
abbrev pub integer_entries : Entries → Result EngagementError (Map ℤ Value)
integer_entries es = map_err (λ e. cbor_error) (integer_map es [])

-- `try_into` an unsigned integer below a bound.
abbrev pub unsigned : ℕ → ℤ → Option ℕ
unsigned bound (pos n) = if ltb n bound then some n else none
unsigned bound (negsuc n) = none

abbrev pub values_of : List Value → Values
values_of [] = no_values
values_of (v ∷ vs) = value v (values_of vs)

abbrev pub to_list : Values → List Value
to_list no_values = []
to_list (value v vs) = v ∷ to_list vs
