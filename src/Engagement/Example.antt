-- ===== src/Engagement/Example.antt =====
-- Encodings of keys, of engagements without options and of first messages by a few numbers, with the laws of the codecs.
use mathlib.Core.Path.{subst}
use isomdl_elevenid.Common.{
  ℕ, ◌≡◌, refl, ◌&&◌, List, [], ◌∷◌, Option, none, some, map, All, if◌then◌else◌, replicate, Bool,
  true, false,
}
use isomdl_elevenid.Common.Order.{Str, str, ◌==◌, eq_of_==, list_ord, nat_ord}
use isomdl_elevenid.Common.Int.{ℤ, pos, int_ord}
use isomdl_elevenid.Cbor.{Value, Values, entry, no_entries, value, no_values}
use isomdl_elevenid.Session.{Bytes}
use isomdl_elevenid.DeviceKey.CoseKey.{
  CoseKey, Ec2Y, ec2, okp, p256, p384, p521, p256k, sign_bit, to_value, ec2_curve_id, y_to_value,
}
use isomdl_elevenid.Issuance.Plan.{Tag24}
use isomdl_elevenid.Engagement.{
  DeviceRetrievalMethod, DeviceRetrievalMethods, Security, ServerRetrievalMethods, values_of,
}
use isomdl_elevenid.Engagement.Tagged.{tag24_to_value}
use isomdl_elevenid.Engagement.Codec.{Serde, engagement_to_value, engagement_to_vec}
use isomdl_elevenid.Engagement.RoundTrip.{Derives, IsTriple, value_at}
use isomdl_elevenid.Engagement.Qr.{Base64, DecodesEncoded, ReadsWritten}

-- Both coordinates repeat one byte.
abbrev pub toy_key : ℕ → CoseKey
toy_key c = ec2 p256 (replicate 32 c) (Ec2Y.value (replicate 32 c))

abbrev first : Bytes → ℕ
first [] = 0
first (b ∷ bs) = b

abbrev key_bytes : ℤ → Bytes → Bytes → Option Bytes
key_bytes crv x y =
    if crv == pos 1 && (x == replicate 32 (first x) && y == replicate 32 (first x))
    then some (first x ∷ [])
    else none

abbrev toy_to_vec : Value → Option Bytes
toy_to_vec
      (Value.dictionary (
        entry (Value.integer kty) (Value.integer two) (
          entry k₁
            (Value.integer crv)
            (entry k₂ (Value.bytes x) (entry k₃ (Value.bytes y) no_entries))))) =
    key_bytes crv x y
toy_to_vec
      (Value.dictionary (
        entry k₁ (Value.text version) (
          entry k₂
            (Value.array
              (value (Value.integer (pos n)) (value (Value.tag t (Value.bytes b)) no_values)))
            no_entries))) =
    if version == str "1.0" then some (n ∷ 0 ∷ b) else none
toy_to_vec
      (Value.dictionary (
        entry k₁
          (Value.tag t (Value.bytes (c ∷ [])))
          (entry k₂ (Value.bytes data_bytes) no_entries))) =
    some (c ∷ 1 ∷ data_bytes)
toy_to_vec (Value.tag t (Value.bytes b)) = some b
toy_to_vec other = none

abbrev toy_from_slice : Bytes → Option Value
toy_from_slice [] = none
toy_from_slice (c ∷ []) = some (to_value (toy_key c))
toy_from_slice (n ∷ z ∷ b) = some (
    Value.dictionary (
      if z == 0
      then entry (Value.integer (pos 0)) (Value.text (str "1.0")) (
          entry (Value.integer (pos 1))
            (Value.array
              (value (Value.integer (pos n)) (value (Value.tag 24 (Value.bytes b)) no_values)))
            no_entries)
      else entry (Value.text (str "eReaderKey")) (Value.tag 24 (Value.bytes (n ∷ [])))
          (entry (Value.text (str "data")) (Value.bytes b) no_entries)))

abbrev with_suite : ℕ → Option (Tag24 CoseKey) → Option Security
with_suite n none = none
with_suite n (some key) = some (record { cipher_suite = n; e_device_key = key })

abbrev toy_security : (Value → Option (Tag24 CoseKey)) → Value → Option Security
toy_security decode (Value.array (value (Value.integer (pos n)) (value v no_values))) =
    with_suite n (decode v)
toy_security decode other = none

abbrev decoded_and : {A : Type 0} → Option A → Option (List A) → Option (List A)
decoded_and (some a) (some rest) = some (a ∷ rest)
decoded_and none rest = none
decoded_and (some a) none = none

abbrev each_decoded :
    (Value → Option DeviceRetrievalMethod) → Values → Option (List DeviceRetrievalMethod)
each_decoded decode no_values = some []
each_decoded decode (value v vs) = decoded_and (decode v) (each_decoded decode vs)

abbrev toy_methods :
    (Value → Option DeviceRetrievalMethod) → Value → Option (List DeviceRetrievalMethod)
toy_methods decode (Value.array vs) = each_decoded decode vs
toy_methods decode other = none

abbrev toy_triple : Option Value → Option (Option (ℕ × Str × Str))
toy_triple none = some none
toy_triple
      (some (
        Value.array (
          value (Value.integer (pos n)) (value (Value.text i) (value (Value.text t) no_values))))) =
    some (some (n, i, t))
toy_triple (some other) = none

abbrev toy_fields :
    Option (Option (ℕ × Str × Str))
    → Option (Option (ℕ × Str × Str))
    → Option ServerRetrievalMethods
toy_fields (some web_api) (some oidc) = some (record { web_api = web_api; oidc = oidc })
toy_fields none oidc = none
toy_fields (some web_api) none = none

abbrev toy_server : Value → Option ServerRetrievalMethods
toy_server (Value.dictionary es) =
    toy_fields (toy_triple (value_at (str "webApi") es)) (toy_triple (value_at (str "oidc") es))
toy_server other = none

abbrev pub toy_serde : Serde
toy_serde = record {
  value_from_slice = toy_from_slice;
  value_to_vec = toy_to_vec;
  security_from_value = toy_security;
  methods_from_value = toy_methods;
  server_from_value = toy_server;
}

toy_tested :
    (b : Bool) (a bytes : Bytes)
    → (if b then some a else none) ≡ some bytes
    → (b ≡ true) × (a ≡ bytes)
toy_tested true a bytes h = (refl, cc)
toy_tested false a bytes h = absurd cc

toy_both : (p q : Bool) → (p && q) ≡ true → (p ≡ true) × (q ≡ true)
toy_both true q h = (refl, h)
toy_both false q h = absurd cc

toy-sequence :
    (decode : Value → Option DeviceRetrievalMethod) (encode : DeviceRetrievalMethod → Value)
    (ms : List DeviceRetrievalMethod)
    → All (λ m. decode (encode m) ≡ some m) ms
    → each_decoded decode (values_of (map encode ms)) ≡ some ms
toy-sequence decode encode [] h = refl
toy-sequence decode encode (m ∷ ms) (h, hs) = rw (h, toy-sequence decode encode ms hs) refl

toy_triple-IsTriple :
    (field : Option (ℕ × Str × Str)) (v : Option Value)
    → IsTriple field v
    → toy_triple v ≡ some field
toy_triple-IsTriple none v h = rw h refl
toy_triple-IsTriple (some (n, i, t)) v h = rw (h.1) refl

pub toy_serde-Derives : Derives toy_serde
toy_serde-Derives = record {
  pair = λ decode n v key h e. rw e refl;
  sequence = toy-sequence;
  struct = λ m es h web_api oidc.
      rw
        (
          toy_triple-IsTriple m.web_api (value_at (str "webApi") es) web_api,
          toy_triple-IsTriple m.oidc (value_at (str "oidc") es) oidc,
        )
        refl;
}

toy-engagement :
    (version : Str) (s : Security) (device : Option DeviceRetrievalMethods)
    (server : Option ServerRetrievalMethods) (info : Option Value) (bytes : Bytes)
    → engagement_to_vec toy_serde (record {
      version = version;
      security = s;
      device_retrieval_methods = device;
      server_retrieval_methods = server;
      protocol_info = info;
    })
      ≡ some bytes
    → toy_from_slice bytes
      ≡ some (
          engagement_to_value (record {
            version = version;
            security = s;
            device_retrieval_methods = device;
            server_retrieval_methods = server;
            protocol_info = info;
          }))
unfolding engagement_to_value tag24_to_value
toy-engagement version s none none info bytes h =
    let (passed, same) =
      toy_tested (version == str "1.0") (s.cipher_suite ∷ 0 ∷ s.e_device_key.inner_bytes) bytes h in
    rw (← same, eq_of_== version (str "1.0") passed) refl
toy-engagement version s (some (m, ms)) server info bytes h = absurd cc
toy-engagement version s none (some server) info bytes h = absurd cc

toy-key :
    (key : CoseKey) (bytes : Bytes)
    → toy_to_vec (to_value key) ≡ some bytes
    → toy_from_slice bytes ≡ some (to_value key)
unfolding to_value ec2_curve_id y_to_value
toy-key (ec2 p256 x (Ec2Y.value y)) bytes h =
    let (passed, same) = toy_tested _ (first x ∷ []) bytes h in
    let (repeated, repeated') =
      toy_both (x == replicate 32 (first x)) (y == replicate 32 (first x)) passed in
    subst (λ z. toy_from_slice z ≡ some (to_value (ec2 p256 x (Ec2Y.value y)))) same
      (rw
        (
          eq_of_== y (replicate 32 (first x)) repeated',
          ← eq_of_== x (replicate 32 (first x)) repeated,
        )
        refl)
toy-key (ec2 p384 x (Ec2Y.value y)) bytes h = absurd cc
toy-key (ec2 p521 x (Ec2Y.value y)) bytes h = absurd cc
toy-key (ec2 p256k x (Ec2Y.value y)) bytes h = absurd cc
toy-key (ec2 crv x (sign_bit y)) bytes h = absurd cc
toy-key (okp crv x) bytes h = absurd cc

pub toy_serde-ReadsWritten : ReadsWritten toy_serde
toy_serde-ReadsWritten = record {
  engagement = λ e bytes h.
      toy-engagement e.version e.security e.device_retrieval_methods e.server_retrieval_methods
        e.protocol_info bytes h;
  key = toy-key;
}

abbrev pub toy_base64 : Base64
toy_base64 = record { encode_config = λ bytes. bytes; decode_config = λ text. some text }

pub toy_base64-DecodesEncoded : DecodesEncoded toy_base64
toy_base64-DecodesEncoded bytes = refl
