-- ===== src/Engagement/Codec.antt =====
-- src/definitions/device_engagement.rs: the device engagement as a CBOR map. What serde derives from the
-- declarations of the types is a parameter, as is ciborium.
use isomdl_elevenid.Common.{
  ℕ, not, List, [], ◌∷◌, Option, none, some, map, Result, ok, err, ◌>>=◌, ◌>>◌, fail_if, ok_or,
}
use isomdl_elevenid.Common.Order.{Str, str, ◌==◌, list_ord, nat_ord}
use isomdl_elevenid.Common.Int.{ℤ, pos, int_ord}
use isomdl_elevenid.Common.Map.{Map, get, remove}
use isomdl_elevenid.Cbor.{Value, Entries, entry, no_entries}
use isomdl_elevenid.Session.{Bytes}
use isomdl_elevenid.DeviceKey.CoseKey.{CoseKey, of_value}
use isomdl_elevenid.Issuance.Plan.{Tag24}
use isomdl_elevenid.Engagement.{
  EngagementError, unsupported_version, invalid_device_engagement, malformed, DeviceRetrievalMethod,
  DeviceRetrievalMethods, Security, ServerRetrievalMethods, DeviceEngagement, integer_entries,
  values_of,
}
use isomdl_elevenid.Engagement.Methods.{method_to_value, method_of_value}
use isomdl_elevenid.Engagement.Tagged.{tag24_of_value, tag24_to_value, to_option}

-- ciborium, and the decoders that serde derives for a pair, for a sequence whose elements are decoded
-- by the given function, and for the server retrieval methods.
pub record Serde : Type 0 where
  pub value_from_slice : Bytes → Option Value
  pub value_to_vec : Value → Option Bytes
  pub security_from_value : (Value → Option (Tag24 CoseKey)) → Value → Option Security
  pub methods_from_value :
      (Value → Option DeviceRetrievalMethod) → Value → Option (List DeviceRetrievalMethod)
  pub server_from_value : Value → Option ServerRetrievalMethods

-- `From<ServerRetrievalMethods> for ciborium::Value`
abbrev pub push_method : Str → Option (ℕ × Str × Str) → Entries → Entries
push_method key none es = es
push_method key (some (version, issuer, token)) es =
    entry (Value.text key)
      (Value.array
        (values_of (Value.integer (pos version) ∷ Value.text issuer ∷ Value.text token ∷ [])))
      es

unfoldable pub server_to_value : ServerRetrievalMethods → Value
server_to_value m =
    Value.dictionary
      (push_method (str "webApi") m.web_api (push_method (str "oidc") m.oidc no_entries))

-- `From<DeviceEngagement> for ciborium::Value`: the protocol information is left out.
abbrev pub methods_entries : Option DeviceRetrievalMethods → Entries → Entries
methods_entries none es = es
methods_entries (some (m, ms)) es =
    entry (Value.integer (pos 2)) (Value.array (values_of (map method_to_value (m ∷ ms)))) es

abbrev pub server_entries : Option ServerRetrievalMethods → Entries
server_entries none = no_entries
server_entries (some m) = entry (Value.integer (pos 3)) (server_to_value m) no_entries

abbrev pub security_to_value : Security → Value
security_to_value s =
    Value.array
      (values_of (Value.integer (pos s.cipher_suite) ∷ tag24_to_value s.e_device_key ∷ []))

unfoldable pub engagement_to_value : DeviceEngagement → Value
engagement_to_value e = Value.dictionary (
    entry (Value.integer (pos 0)) (Value.text e.version) (
      entry (Value.integer (pos 1)) (security_to_value e.security)
        (methods_entries e.device_retrieval_methods (server_entries e.server_retrieval_methods))))

-- `map.remove(key).map(decode).transpose()`
abbrev pub transposed :
    {A : Type 0} → (Value → Option A) → Option Value → Result EngagementError (Option A)
transposed decode none = ok none
transposed decode (some v) = ok_or (decode v) malformed >>= (λ a. ok (some a))

-- `NonEmptyVec::try_from`
abbrev pub non_empty_of : List DeviceRetrievalMethod → Option DeviceRetrievalMethods
non_empty_of [] = none
non_empty_of (m ∷ ms) = some (m, ms)

abbrev pub non_empty : Option (List DeviceRetrievalMethod) → Option DeviceRetrievalMethods
non_empty none = none
non_empty (some ms) = non_empty_of ms

unfoldable pub check_version : Option Value → Result EngagementError (Unit {0})
check_version (some (Value.text v)) = fail_if (not (v == str "1.0")) unsupported_version
check_version other = err malformed

module _ (serde : Serde) where
  abbrev pub key_of_option : Option Value → Option CoseKey
  key_of_option none = none
  key_of_option (some v) = to_option (of_value v)

  abbrev pub key_from_slice : Bytes → Option CoseKey
  key_from_slice bytes = key_of_option (serde.value_from_slice bytes)

  abbrev pub security_of_value : Value → Option Security
  security_of_value v =
      serde.security_from_value (λ w. to_option (tag24_of_value key_from_slice w)) v

  abbrev pub methods_of_value : Value → Option DeviceRetrievalMethods
  methods_of_value v = non_empty (serde.methods_from_value (λ w. to_option (method_of_value w)) v)

  unfoldable pub engagement_of_map : Map ℤ Value → Result EngagementError DeviceEngagement
  engagement_of_map m₀ = do
    check_version (get (pos 0) m₀)
    let m₁ = remove (pos 0) m₀
    security_value ← ok_or (get (pos 1) m₁) malformed
    security ← ok_or (security_of_value security_value) malformed
    let m₂ = remove (pos 1) m₁
    device ← transposed methods_of_value (get (pos 2) m₂)
    let m₃ = remove (pos 2) m₂
    server ← transposed serde.server_from_value (get (pos 3) m₃)
    ok (record {
      version = str "1.0";
      security = security;
      device_retrieval_methods = device;
      server_retrieval_methods = server;
      protocol_info = get (pos 4) (remove (pos 3) m₃);
    })

  -- `TryFrom<ciborium::Value> for DeviceEngagement`
  unfoldable pub engagement_of_value : Value → Result EngagementError DeviceEngagement
  engagement_of_value (Value.dictionary es) = integer_entries es >>= engagement_of_map
  engagement_of_value other = err invalid_device_engagement

  abbrev pub engagement_of_option : Option Value → Option DeviceEngagement
  engagement_of_option none = none
  engagement_of_option (some v) = to_option (engagement_of_value v)

  abbrev pub engagement_from_slice : Bytes → Option DeviceEngagement
  engagement_from_slice bytes = engagement_of_option (serde.value_from_slice bytes)

  abbrev pub engagement_to_vec : DeviceEngagement → Option Bytes
  engagement_to_vec e = serde.value_to_vec (engagement_to_value e)
