-- ===== src/Engagement/Wifi.antt =====
-- src/definitions/device_engagement.rs: the options of Wi-Fi as a CBOR map.
use isomdl_elevenid.Common.{
  ℕ, ◌<◌, ◌^◌, ◌≡◌, Option, none, some, Result, ok, err, ◌>>=◌, ok_or, arith,
}
use isomdl_elevenid.Common.Order.{Str}
use isomdl_elevenid.Common.Int.{ℤ, pos, int_ord}
use isomdl_elevenid.Common.Map.{Map, get, insert}
use isomdl_elevenid.Cbor.{Value, Entries, entry, no_entries}
use isomdl_elevenid.Session.{Bytes}
use isomdl_elevenid.DeviceKey.CoseKey.{into_integer, integer_map}
use isomdl_elevenid.Engagement.{
  EngagementError, invalid_wifi_options, WifiOptions, integer_entries, unsigned,
}

unfoldable pub lookup_opt_string : Option Value → Result EngagementError (Option Str)
lookup_opt_string none = ok none
lookup_opt_string (some (Value.text t)) = ok (some t)
lookup_opt_string (some other) = err invalid_wifi_options

unfoldable pub lookup_opt_u64 : Option Value → Result EngagementError (Option ℕ)
lookup_opt_u64 none = ok none
lookup_opt_u64 (some (Value.integer i)) = do
  n ← ok_or (unsigned (2 ^ 64) i) invalid_wifi_options
  ok (some n)
lookup_opt_u64 (some other) = err invalid_wifi_options

unfoldable pub lookup_opt_bytestr : Option Value → Result EngagementError (Option Bytes)
lookup_opt_bytestr none = ok none
lookup_opt_bytestr (some (Value.bytes b)) = ok (some b)
lookup_opt_bytestr (some other) = err invalid_wifi_options

abbrev pub wifi_of_map : Map ℤ Value → Result EngagementError WifiOptions
wifi_of_map m = do
  pass_phrase ← lookup_opt_string (get (pos 0) m)
  operating_class ← lookup_opt_u64 (get (pos 1) m)
  channel_number ← lookup_opt_u64 (get (pos 2) m)
  band_info ← lookup_opt_bytestr (get (pos 3) m)
  ok (record {
    pass_phrase = pass_phrase;
    channel_info_operating_class = operating_class;
    channel_info_channel_number = channel_number;
    band_info = band_info;
  })

-- `TryFrom<ciborium::Value> for WifiOptions`
unfoldable pub wifi_of_value : Value → Result EngagementError WifiOptions
wifi_of_value (Value.dictionary es) = integer_entries es >>= wifi_of_map
wifi_of_value other = err invalid_wifi_options

-- `if let Some(v) = option { map.push((key, v)) }`
abbrev pub push_option : {A : Type 0} → ℕ → (A → Value) → Option A → Entries → Entries
push_option key to_value none es = es
push_option key to_value (some a) es = entry (Value.integer (pos key)) (to_value a) es

-- `From<WifiOptions> for ciborium::Value`
unfoldable pub wifi_to_value : WifiOptions → Value
wifi_to_value o = Value.dictionary (
    push_option 0 Value.text o.pass_phrase (
      push_option 1 (λ n. Value.integer (pos n)) o.channel_info_operating_class
        (push_option 2 (λ n. Value.integer (pos n)) o.channel_info_channel_number
          (push_option 3 Value.bytes o.band_info no_entries))))

-- The numbers are of 64 bits.
abbrev pub IsU64 : Option ℕ → Type 0
IsU64 none = Unit
IsU64 (some n) = n < 2 ^ 64

abbrev pub IsWifi : WifiOptions → Type 0
IsWifi o = IsU64 o.channel_info_operating_class × IsU64 o.channel_info_channel_number

pub wifi_of_value-wifi_to_value :
    (o : WifiOptions) → IsWifi o → wifi_of_value (wifi_to_value o) ≡ ok o
unfolding wifi_of_value wifi_to_value lookup_opt_string lookup_opt_u64 lookup_opt_bytestr
    integer_map into_integer get insert
wifi_of_value-wifi_to_value o h = ground arith
