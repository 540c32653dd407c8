-- ===== src/Engagement/Nfc.antt =====
-- src/definitions/device_engagement/nfc_options.rs: the lengths of the NFC commands and responses, and
-- the options as a CBOR map.
use mathlib.Core.Path.{subst}
use isomdl_elevenid.Common.{
  ℕ, ◌^◌, ◌≤◌, ◌<◌, ◌≡◌, ◌&&◌, Option, none, some, Result, ok, err, ◌>>=◌, ◌>>◌, fail_if, ok_or,
  ok_or-eq-ok, >>=-eq-ok, ok-injective, leb, ltb, if◌then◌else◌, arith,
}
use isomdl_elevenid.Common.Int.{ℤ, pos, negsuc, int_ord}
use isomdl_elevenid.Common.Map.{Map, get, remove, insert}
use isomdl_elevenid.Cbor.{Value, entry, no_entries}
use isomdl_elevenid.DeviceKey.CoseKey.{into_integer, integer_map}
use isomdl_elevenid.Engagement.{
  EngagementError, invalid_nfc_options, cbor_error, invalid_nfc_command_data_length,
  invalid_nfc_response_data_length, NfcOptions, integer_entries, unsigned,
}

abbrev pub command_data_length_min : ℕ
command_data_length_min = 255

abbrev pub command_data_length_max : ℕ
command_data_length_max = 65535

abbrev pub response_data_length_min : ℕ
response_data_length_min = 256

abbrev pub response_data_length_max : ℕ
response_data_length_max = 65536

-- `CommandDataLength::new` and `ResponseDataLength::new`
unfoldable pub command_data_length_new : ℕ → Option ℕ
command_data_length_new v =
    if leb command_data_length_min v && leb v command_data_length_max then some v else none

unfoldable pub response_data_length_new : ℕ → Option ℕ
response_data_length_new v =
    if leb response_data_length_min v && leb v response_data_length_max then some v else none

-- `TryFrom` the integer types
abbrev pub made : (ℕ → Option ℕ) → EngagementError → Option ℕ → Result EngagementError ℕ
made new e none = err e
made new e (some v) = ok_or (new v) e

unfoldable pub command_data_length_try_from : ℤ → Result EngagementError ℕ
command_data_length_try_from v =
    made command_data_length_new invalid_nfc_command_data_length (unsigned (2 ^ 16) v)

unfoldable pub response_data_length_try_from : ℤ → Result EngagementError ℕ
response_data_length_try_from v =
    made response_data_length_new invalid_nfc_response_data_length (unsigned (2 ^ 32) v)

-- The value of an option: an integer of the width, which is compared with the least one.
unfoldable pub length_of_value : ℕ → ℕ → EngagementError → Option Value → Result EngagementError ℕ
length_of_value bound least e option = do
  v ← ok_or option invalid_nfc_options
  i ← ok_or (into_integer v) cbor_error
  n ← ok_or (unsigned bound i) cbor_error
  fail_if (ltb n least) e
  ok n

-- `TryFrom<ciborium::Value> for NfcOptions`
abbrev pub nfc_of_map : Map ℤ Value → Result EngagementError NfcOptions
nfc_of_map m = do
  command ←
      length_of_value (2 ^ 16) command_data_length_min invalid_nfc_command_data_length
        (get (pos 0) m)
  response ←
      length_of_value (2 ^ 32) response_data_length_min invalid_nfc_response_data_length
        (get (pos 1) (remove (pos 0) m))
  ok (record { max_len_command_data_field = command; max_len_response_data_field = response })

unfoldable pub nfc_of_value : Value → Result EngagementError NfcOptions
nfc_of_value (Value.dictionary es) = integer_entries es >>= nfc_of_map
nfc_of_value other = err invalid_nfc_options

-- `From<NfcOptions> for ciborium::Value`
unfoldable pub nfc_to_value : NfcOptions → Value
nfc_to_value o = Value.dictionary (
    entry (Value.integer (pos 0)) (Value.integer (pos o.max_len_command_data_field)) (
      entry (Value.integer (pos 1)) (Value.integer (pos o.max_len_response_data_field)) no_entries))

-- The lengths that the decoder accepts.
pub record IsNfc (o : NfcOptions) : Type 0 where
  pub command_least : command_data_length_min ≤ o.max_len_command_data_field
  pub command_fits : o.max_len_command_data_field ≤ command_data_length_max
  pub response_least : response_data_length_min ≤ o.max_len_response_data_field
  pub response_fits : o.max_len_response_data_field < 2 ^ 32

unsigned-below : (bound : ℕ) (i : ℤ) (n : ℕ) → unsigned bound i ≡ some n → n < bound
unsigned-below bound (pos m) n h = ground arith
unsigned-below bound (negsuc m) n h = absurd cc

length_of_value-within :
    (bound least n : ℕ) (e : EngagementError) (option : Option Value)
    → length_of_value bound least e option ≡ ok n
    → (least ≤ n) × (n < bound)
unfolding length_of_value
length_of_value-within bound least n e option h =
    let (v, present, h₁) = >>=-eq-ok (ok_or option invalid_nfc_options) _ h in
    let (i, integer, h₂) = >>=-eq-ok (ok_or (into_integer v) cbor_error) _ h₁ in
    let (m, fits, h₃) = >>=-eq-ok (ok_or (unsigned bound i) cbor_error) _ h₂ in
    let (u, least_passed, h₄) = >>=-eq-ok (fail_if (ltb m least) e) _ h₃ in
    let same = ok-injective m n h₄ in
    let small = unsigned-below bound i m (ok_or-eq-ok _ _ m fits) in ground arith

-- Whatever value is decoded, the command length lies between 255 and 65535, and the response length is
-- at least 256 and fits in 32 bits.
pub nfc_of_value-IsNfc : (v : Value) (o : NfcOptions) → nfc_of_value v ≡ ok o → IsNfc o
unfolding nfc_of_value
nfc_of_value-IsNfc (Value.dictionary es) o h =
    let (m, entries, h₁) = >>=-eq-ok (integer_entries es) nfc_of_map h in
    let (command, first, h₂) = >>=-eq-ok (length_of_value (2 ^ 16) 255 _ (get (pos 0) m)) _ h₁ in
    let (response, second, h₃) =
      >>=-eq-ok (length_of_value (2 ^ 32) 256 _ (get (pos 1) (remove (pos 0) m))) _ h₂ in
    let (least, fits) = length_of_value-within (2 ^ 16) 255 command _ (get (pos 0) m) first in
    let (least₂, fits₂) =
      length_of_value-within (2 ^ 32) 256 response _ (get (pos 1) (remove (pos 0) m)) second in
    subst IsNfc (ok-injective _ o h₃) (record {
      command_least = least;
      command_fits = omega arith;
      response_least = least₂;
      response_fits = fits₂;
    })
nfc_of_value-IsNfc other o h = absurd cc

-- Options whose lengths the decoder accepts are read back.
pub nfc_of_value-nfc_to_value : (o : NfcOptions) → IsNfc o → nfc_of_value (nfc_to_value o) ≡ ok o
unfolding nfc_of_value nfc_to_value integer_map into_integer length_of_value get insert remove
nfc_of_value-nfc_to_value o h = ground arith
