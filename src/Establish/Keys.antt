-- ===== src/Establish/Keys.antt =====
-- src/definitions/session.rs: ephemeral keys, the shared secret, and the keys of the session. The
-- operations of the curve P-256 are parameters; a generated private key is an argument.
use isomdl_elevenid.Common.{Bool, Option, none, some, Result, ok, err, ◌>>=◌, ok_or, map_err}
use isomdl_elevenid.Common.Int.{pos}
use isomdl_elevenid.Session.{Bytes}
use isomdl_elevenid.Session.Sha256.{Words}
use isomdl_elevenid.Session.Derived.{DeriveError, derive_session_key}
use isomdl_elevenid.DeviceKey.CoseKey.{
  CoseKey, ec2, value, ec2_curve_of_id, encoded_point, to_value,
}
use isomdl_elevenid.Issuance.Plan.{Tag24}
use isomdl_elevenid.Engagement.Tagged.{tag24_to_value}
use isomdl_elevenid.Engagement.Codec.{Serde}
use isomdl_elevenid.Establish.{
  SessionError, ephemeral_key_error, SharedSecretError, unencodable_key, unconstructible_key,
  EstablishError, ble_ident, derivation, derivation_panicked, SessionTranscript,
}

-- The coordinates of the public key of a private key, points and public keys, and the exchange.
pub record Curve (Secret Point Public : Type 0) : Type 0 where
  pub x : Secret → Option Bytes
  pub y : Secret → Option Bytes
  pub point_from_bytes : Bytes → Option Point
  pub public_from_sec1_point : Point → Option Public
  pub diffie_hellman : Secret → Public → Bytes

module _ {Secret Point Public : Type 0} (curve : Curve Secret Point Public) where
  unfoldable pub create_p256_ephemeral_keys : Secret → Result SessionError (Secret × CoseKey)
  create_p256_ephemeral_keys private_key = do
    x_coordinate ← ok_or (curve.x private_key) ephemeral_key_error
    y_coordinate ← ok_or (curve.y private_key) ephemeral_key_error
    crv ← map_err (λ e. ephemeral_key_error) (ec2_curve_of_id (pos 1))
    ok (private_key, ec2 crv x_coordinate (value y_coordinate))

  unfoldable pub get_shared_secret : CoseKey → Secret → Result SharedSecretError Bytes
  get_shared_secret cose_key e_device_key_priv = do
    point ← map_err unencodable_key (encoded_point curve.point_from_bytes cose_key)
    public_key ← ok_or (curve.public_from_sec1_point point) unconstructible_key
    ok (curve.diffie_hellman e_device_key_priv public_key)

-- The outcome of a derivation; `none` is a panic.
abbrev pub derived : Option (Result DeriveError Bytes) → Result EstablishError Bytes
derived none = err derivation_panicked
derived (some (err e)) = err (derivation e)
derived (some (ok session_key)) = ok session_key

module _ (serde : Serde) where
  -- `CoseKey` and `Tag24<T>` are written as their CBOR values.
  abbrev pub key_to_vec : CoseKey → Option Bytes
  key_to_vec key = serde.value_to_vec (to_value key)

  abbrev pub tag24_to_vec : {T : Type 0} → Tag24 T → Option Bytes
  tag24_to_vec t = serde.value_to_vec (tag24_to_value t)

  abbrev pub session_key :
      (Words → Bytes → Words) → Bytes → Tag24 SessionTranscript → Bool → Result EstablishError Bytes
  session_key compress256 secret session_transcript reader =
      derived (derive_session_key tag24_to_vec compress256 secret session_transcript reader)

-- src/presentation/mod.rs
-- The identifier for Bluetooth is expanded from the encoded key by the crate hkdf.
unfoldable pub calculate_ble_ident :
    Serde → (Bytes → Option Bytes) → Tag24 CoseKey → Result EstablishError Bytes
calculate_ble_ident serde expand_ident e_device_key = do
  e_device_key_bytes ← ok_or (tag24_to_vec serde e_device_key) ble_ident
  ok_or (expand_ident e_device_key_bytes) ble_ident
