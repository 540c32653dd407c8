-- ===== src/DeviceKey/RoundTrip.antt =====
-- src/definitions/device_key/cose_key.rs: keys survive their encoding, and what becomes a point.
use isomdl_elevenid.Common.{
  ok_or-eq-ok, Option, some, ◌≡◌, refl, ◌∷◌, ◌++◌, Bool, length, arith, if◌then◌else◌, ok,
}
use isomdl_elevenid.Common.Order.{nat_ord}
use isomdl_elevenid.Common.Map.{get, remove, insert}
use isomdl_elevenid.Session.{Bytes}
use isomdl_elevenid.DeviceKey.CoseKey.{
  CoseKey, invalid_cose_key, value, sign_bit, ec2, okp, p256, p384, p521, p256k, x25519, x448,
  ed25519, ed448, ec2_curve_of_id, okp_curve_of_id, y_of_value, to_value, of_value, encoded_point,
}

-- Every key that is encoded as a CBOR map is decoded to the same key.
pub of_value-to_value : (key : CoseKey) → of_value (to_value key) ≡ ok key
unfolding of_value to_value get remove insert ec2_curve_of_id okp_curve_of_id y_of_value
of_value-to_value (ec2 p256 x (value y)) = refl
of_value-to_value (ec2 p256 x (sign_bit y)) = refl
of_value-to_value (ec2 p384 x (value y)) = refl
of_value-to_value (ec2 p384 x (sign_bit y)) = refl
of_value-to_value (ec2 p521 x (value y)) = refl
of_value-to_value (ec2 p521 x (sign_bit y)) = refl
of_value-to_value (ec2 p256k x (value y)) = refl
of_value-to_value (ec2 p256k x (sign_bit y)) = refl
of_value-to_value (okp x25519 x) = refl
of_value-to_value (okp x448 x) = refl
of_value-to_value (okp ed25519 x) = refl
of_value-to_value (okp ed448 x) = refl

-- The encodings of a point of P-256: both coordinates, or one with the sign of the other.
pub data IsPointOf : CoseKey → Bytes → Type 0 where
  uncompressed :
      (x y bytes : Bytes)
      → length x ≡ 32
      → length y ≡ 32
      → bytes ≡ 4 ∷ (x ++ y)
      → IsPointOf (ec2 p256 x (value y)) bytes
  compressed :
      (x bytes : Bytes) (sign : Bool)
      → length x ≡ 32
      → bytes ≡ (if sign then 3 else 2) ∷ x
      → IsPointOf (ec2 p256 x (sign_bit sign)) bytes

-- A key becomes a point only where the point is read from the 65 bytes of both coordinates, or from
-- the 33 bytes of one and a sign, of a key of P-256 with coordinates of 32 bytes.
pub encoded_point-IsPointOf :
    {Point : Type 0} (from_bytes : Bytes → Option Point) (key : CoseKey) (point : Point)
    → encoded_point from_bytes key ≡ ok point
    → (bytes : Bytes) × IsPointOf key bytes × (from_bytes bytes ≡ some point)
unfolding encoded_point
encoded_point-IsPointOf from_bytes (ec2 p256 x (value y)) point h = (
  4 ∷ (x ++ y),
  uncompressed x y (4 ∷ (x ++ y)) (ground arith) (ground arith) refl,
  ground (arith, ok_or-eq-ok (from_bytes (4 ∷ (x ++ y))) invalid_cose_key point),
)
encoded_point-IsPointOf from_bytes (ec2 p256 x (sign_bit sign)) point h =
    let bytes = (if sign then 3 else 2) ∷ x in
    (
      bytes,
      compressed x bytes sign (ground arith) refl,
      ground (arith, ok_or-eq-ok (from_bytes bytes) invalid_cose_key point),
    )
encoded_point-IsPointOf from_bytes (ec2 p384 x y) point h = absurd cc
encoded_point-IsPointOf from_bytes (ec2 p521 x y) point h = absurd cc
encoded_point-IsPointOf from_bytes (ec2 p256k x y) point h = absurd cc
encoded_point-IsPointOf from_bytes (okp crv x) point h = absurd cc
