-- ===== src/Engagement/RoundTrip.antt =====
-- src/definitions/device_engagement.rs: a device engagement that is encoded is decoded again.
use mathlib.Core.Path.{subst, sym}
use isomdl_elevenid.Common.{
  ℕ, ◌<◌, ◌^◌, ◌≡◌, List, [], ◌∷◌, Option, none, some, map, All, ok, if◌then◌else◌, refl,
}
use isomdl_elevenid.Common.Order.{◌==◌, Str, str, list_ord, nat_ord}
use isomdl_elevenid.Common.Int.{pos, int_ord}
use isomdl_elevenid.Common.Map.{get, remove, insert}
use isomdl_elevenid.Cbor.{Value, Entries, entry, no_entries}
use isomdl_elevenid.DeviceKey.CoseKey.{CoseKey, into_integer, integer_map}
use isomdl_elevenid.Issuance.Plan.{Tag24}
use isomdl_elevenid.Engagement.{
  DeviceRetrievalMethod, DeviceRetrievalMethods, Security, ServerRetrievalMethods, DeviceEngagement,
  values_of,
}
use isomdl_elevenid.Engagement.Methods.{
  IsMethod, method_to_value, method_of_value, method_of_value-method_to_value,
}
use isomdl_elevenid.Engagement.Tagged.{tag24_to_value, to_option, tag24_of_value-tag24_to_value}
use isomdl_elevenid.Engagement.Codec.{
  Serde, server_to_value, security_to_value, engagement_to_value, check_version, key_from_slice,
  security_of_value, methods_of_value, engagement_of_map, engagement_of_value,
}

abbrev pub AreServers : ServerRetrievalMethods → Type 0
AreServers m = IsServer m.web_api × IsServer m.oidc
  where
    IsServer : Option (ℕ × Str × Str) → Type 0
    IsServer none = Unit
    IsServer (some (version, issuer, token)) = version < 2 ^ 64

-- The value of the first entry under a text, and entries whose keys are texts that all differ.
abbrev pub value_at : Str → Entries → Option Value
value_at name no_entries = none
value_at name (entry (Value.text key) v es) = if key == name then some v else value_at name es
value_at name (entry k v es) = value_at name es

abbrev pub AreFields : Entries → Type 0
AreFields no_entries = Unit
AreFields (entry k v es) =
    ((name : Str) × (k ≡ Value.text name) × (value_at name es ≡ none)) × AreFields es

-- An optional field of a number of 64 bits and two strings: it is an array, or it is left out.
abbrev pub IsTriple : Option (ℕ × Str × Str) → Option Value → Type 0
IsTriple none v = v ≡ none
IsTriple (some (version, issuer, token)) v =
    (version < 2 ^ 64)
    × (v
        ≡ some (
            Value.array (
              values_of (Value.integer (pos version) ∷ Value.text issuer ∷ Value.text token ∷ []))))

-- What serde documents of the decoders it derives: a pair and a sequence are read from an array, each
-- element by its own decoder, and a struct from a map, each field from the entry under its name, which
-- `rename_all` puts in camel case.
pub record Derives (serde : Serde) : Type 0 where
  pub pair :
      (decode : Value → Option (Tag24 CoseKey)) (n : ℕ) (v : Value) (key : Tag24 CoseKey)
      → n < 2 ^ 64
      → decode v ≡ some key
      → serde.security_from_value decode (Value.array (values_of (Value.integer (pos n) ∷ v ∷ [])))
        ≡ some (record { cipher_suite = n; e_device_key = key })
  pub sequence :
      (decode : Value → Option DeviceRetrievalMethod) (encode : DeviceRetrievalMethod → Value)
      (ms : List DeviceRetrievalMethod)
      → All (λ m. decode (encode m) ≡ some m) ms
      → serde.methods_from_value decode (Value.array (values_of (map encode ms))) ≡ some ms
  pub struct :
      (m : ServerRetrievalMethods) (es : Entries)
      → AreFields es
      → IsTriple m.web_api (value_at (str "webApi") es)
      → IsTriple m.oidc (value_at (str "oidc") es)
      → serde.server_from_value (Value.dictionary es) ≡ some m

abbrev pub AreMethods : Option DeviceRetrievalMethods → Type 0
AreMethods none = Unit
AreMethods (some (m, ms)) = All IsMethod (m ∷ ms)

abbrev pub AreServed : Option ServerRetrievalMethods → Type 0
AreServed none = Unit
AreServed (some m) = AreServers m

module _ (serde : Serde) where
  -- The version that is supported, numbers and lengths in their ranges, a key that its bytes encode,
  -- and nothing in the field that is reserved.
  pub record IsEngagement (e : DeviceEngagement) : Type 0 where
    pub supported : e.version ≡ str "1.0"
    pub suite : e.security.cipher_suite < 2 ^ 64
    pub key :
        key_from_slice serde e.security.e_device_key.inner_bytes
        ≡ some e.security.e_device_key.inner
    pub methods : AreMethods e.device_retrieval_methods
    pub servers : AreServed e.server_retrieval_methods
    pub reserved : e.protocol_info ≡ none

module _ (serde : Serde) (derives : Derives serde) where
  security-decoded :
      (s : Security)
      → s.cipher_suite < 2 ^ 64
      → key_from_slice serde s.e_device_key.inner_bytes ≡ some s.e_device_key.inner
      → security_of_value serde (security_to_value s) ≡ some s
  security-decoded s suite key =
      derives.pair _ s.cipher_suite (tag24_to_value s.e_device_key) s.e_device_key suite
        (rw (tag24_of_value-tag24_to_value (key_from_slice serde) s.e_device_key key))

  each_method :
      (ms : List DeviceRetrievalMethod)
      → All IsMethod ms
      → All (λ m. to_option (method_of_value (method_to_value m)) ≡ some m) ms
  each_method [] h = tt
  each_method (m ∷ ms) (h, hs) = (rw (method_of_value-method_to_value m h), each_method ms hs)

  methods-decoded :
      (m : DeviceRetrievalMethod) (ms : List DeviceRetrievalMethod)
      → All IsMethod (m ∷ ms)
      → methods_of_value serde (Value.array (values_of (map method_to_value (m ∷ ms))))
        ≡ some (m, ms)
  methods-decoded m ms h = rw (
      derives.sequence (λ w. to_option (method_of_value w)) method_to_value (m ∷ ms)
        (each_method (m ∷ ms) h))

  server-decoded :
      (m : ServerRetrievalMethods)
      → AreServers m
      → serde.server_from_value (server_to_value m) ≡ some m
  unfolding server_to_value
  server-decoded m h = go m.web_api m.oidc h
    where
      go :
          (web_api oidc : Option (ℕ × Str × Str))
          → AreServers (record { web_api = web_api; oidc = oidc })
          → serde.server_from_value (server_to_value (record { web_api = web_api; oidc = oidc }))
            ≡ some (record { web_api = web_api; oidc = oidc })
      go none none h = derives.struct _ _ tt refl refl
      go none (some (n, i, t)) h = derives.struct _ _ ((_, refl, refl), tt) refl (h.1, refl)
      go (some (n, i, t)) none h = derives.struct _ _ ((_, refl, refl), tt) (h.0, refl) refl
      go (some (n, i, t)) (some (n', i', t')) h =
          derives.struct _ _ ((_, refl, refl), ((_, refl, refl), tt)) (h.0, refl) (h.1, refl)

  decoded :
      (s : Security) (device : Option DeviceRetrievalMethods)
      (server : Option ServerRetrievalMethods)
      → security_of_value serde (security_to_value s) ≡ some s
      → AreMethods device
      → AreServed server
      → engagement_of_value serde (
          engagement_to_value (record {
            version = str "1.0";
            security = s;
            device_retrieval_methods = device;
            server_retrieval_methods = server;
            protocol_info = none;
          }))
        ≡ ok (record {
          version = str "1.0";
          security = s;
          device_retrieval_methods = device;
          server_retrieval_methods = server;
          protocol_info = none;
        })
  unfolding engagement_of_value engagement_of_map engagement_to_value check_version integer_map
      into_integer get remove insert
  decoded s none none e m v = rw e
  decoded s none (some server) e m v = rw (e, server-decoded server v)
  decoded s (some (d, ds)) none e m v = rw (e, methods-decoded d ds m)
  decoded s (some (d, ds)) (some server) e m v =
      rw (e, methods-decoded d ds m, server-decoded server v)

  -- An engagement of the supported version whose options are in their ranges and whose device key is
  -- encoded by its bytes decodes to itself, where the decoders of serde are as documented.
  pub engagement_of_value-engagement_to_value :
      (e : DeviceEngagement)
      → IsEngagement serde e
      → engagement_of_value serde (engagement_to_value e) ≡ ok e
  engagement_of_value-engagement_to_value e h =
      subst (λ x. engagement_of_value serde (engagement_to_value x) ≡ ok x)
        (λ i. record e { version = sym h.supported i; protocol_info = sym h.reserved i })
        (decoded e.security e.device_retrieval_methods e.server_retrieval_methods
          (security-decoded e.security h.suite h.key) h.methods h.servers)
