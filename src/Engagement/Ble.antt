-- ===== src/Engagement/Ble.antt =====
-- src/definitions/device_engagement.rs: the options of Bluetooth Low Energy as a CBOR map.
use isomdl_elevenid.Common.{
  ◌≡◌, refl, true, false, not, Option, none, some, Result, ok, err, ◌>>=◌, ◌>>◌, fail_if, length,
  arith,
}
use isomdl_elevenid.Common.Order.{◌==◌, nat_ord}
use isomdl_elevenid.Common.Int.{ℤ, pos, int_ord}
use isomdl_elevenid.Common.Map.{Map, get, remove, insert}
use isomdl_elevenid.Cbor.{Value, Entries, entry, no_entries}
use isomdl_elevenid.Session.{Bytes}
use isomdl_elevenid.DeviceKey.CoseKey.{into_integer, integer_map}
use isomdl_elevenid.Engagement.{
  EngagementError, malformed, Uuid, PeripheralServerMode, CentralClientMode, BleOptions,
  integer_entries,
}

-- `uuid.try_into()`: sixteen bytes.
abbrev pub uuid_of : Bytes → Result EngagementError Uuid
uuid_of bytes = fail_if (not (length bytes == 16)) malformed >> ok bytes

unfoldable pub central_client_mode_of :
    Option Value → Option Value → Result EngagementError (Option CentralClientMode)
central_client_mode_of (some (Value.bool true)) (some (Value.bytes uuid)) = do
  uuid' ← uuid_of uuid
  ok (some (record { uuid = uuid' }))
central_client_mode_of (some (Value.bool false)) v = ok none
central_client_mode_of supported v = err malformed

-- `ByteStr::try_from`, where there is an address.
unfoldable pub address_of : Option Value → Result EngagementError (Option Bytes)
address_of none = ok none
address_of (some (Value.bytes address)) = ok (some address)
address_of (some other) = err malformed

unfoldable pub peripheral_server_mode_of :
    Option Value
    → Option Value
    → Option Value
    → Result EngagementError (Option PeripheralServerMode)
peripheral_server_mode_of (some (Value.bool true)) (some (Value.bytes uuid)) address = do
  uuid' ← uuid_of uuid
  ble_device_address ← address_of address
  ok (some (record { uuid = uuid'; ble_device_address = ble_device_address }))
peripheral_server_mode_of (some (Value.bool false)) v address = ok none
peripheral_server_mode_of supported v address = err malformed

-- The entries that are left behind those of the central client mode.
abbrev pub behind_central : Map ℤ Value → Map ℤ Value
behind_central m = remove (pos 11) (remove (pos 1) m)

abbrev pub ble_of_map : Map ℤ Value → Result EngagementError BleOptions
ble_of_map m = do
  central ← central_client_mode_of (get (pos 1) m) (get (pos 11) (remove (pos 1) m))
  peripheral ←
      peripheral_server_mode_of (get (pos 0) (behind_central m))
        (get (pos 10) (remove (pos 0) (behind_central m)))
        (get (pos 20) (remove (pos 10) (remove (pos 0) (behind_central m))))
  ok (record { peripheral_server_mode = peripheral; central_client_mode = central })

-- `TryFrom<ciborium::Value> for BleOptions`
unfoldable pub ble_of_value : Value → Result EngagementError BleOptions
ble_of_value (Value.dictionary es) = integer_entries es >>= ble_of_map
ble_of_value other = err malformed

-- `From<BleOptions> for ciborium::Value`: the entries of the central mode, then of the peripheral one.
unfoldable pub address_entries : Option Bytes → Entries
address_entries none = no_entries
address_entries (some address) = entry (Value.integer (pos 20)) (Value.bytes address) no_entries

unfoldable pub peripheral_entries : Option PeripheralServerMode → Entries
peripheral_entries none = entry (Value.integer (pos 0)) (Value.bool false) no_entries
peripheral_entries (some mode) = entry (Value.integer (pos 0)) (Value.bool true) (
    entry (Value.integer (pos 10)) (Value.bytes mode.uuid)
      (address_entries mode.ble_device_address))

unfoldable pub central_entries : Option CentralClientMode → Entries → Entries
central_entries none es = entry (Value.integer (pos 1)) (Value.bool false) es
central_entries (some mode) es =
    entry (Value.integer (pos 1)) (Value.bool true)
      (entry (Value.integer (pos 11)) (Value.bytes mode.uuid) es)

unfoldable pub ble_to_value : BleOptions → Value
ble_to_value o =
    Value.dictionary
      (central_entries o.central_client_mode (peripheral_entries o.peripheral_server_mode))

-- UUIDs have sixteen bytes.
abbrev pub IsCentral : Option CentralClientMode → Type 0
IsCentral none = Unit
IsCentral (some mode) = length mode.uuid ≡ 16

abbrev pub IsPeripheral : Option PeripheralServerMode → Type 0
IsPeripheral none = Unit
IsPeripheral (some mode) = length mode.uuid ≡ 16

abbrev pub IsBle : BleOptions → Type 0
IsBle o = IsCentral o.central_client_mode × IsPeripheral o.peripheral_server_mode

pub ble_of_value-ble_to_value : (o : BleOptions) → IsBle o → ble_of_value (ble_to_value o) ≡ ok o
unfolding ble_of_value ble_to_value central_entries peripheral_entries address_entries
    central_client_mode_of peripheral_server_mode_of address_of integer_map into_integer get insert
    remove
ble_of_value-ble_to_value o (c, p) = go o.central_client_mode o.peripheral_server_mode c p
  where
    go :
        (central : Option CentralClientMode) (peripheral : Option PeripheralServerMode)
        → IsCentral central
        → IsPeripheral peripheral
        → ble_of_value (Value.dictionary (central_entries central (peripheral_entries peripheral)))
          ≡ ok (record { peripheral_server_mode = peripheral; central_client_mode = central })
    go none none c p = refl
    go (some central) none c p = rw c refl
    go none (some peripheral) c p = ground arith
    go (some central) (some peripheral) c p = ground arith
