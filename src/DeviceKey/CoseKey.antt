-- ===== src/DeviceKey/CoseKey.antt =====
-- src/definitions/device_key/cose_key.rs: the keys of COSE, their CBOR maps and their points.
-- `EncodedPoint::from_bytes` of the crate sec1 is a parameter.
use isomdl_elevenid.Common.{
  Bool, [], ◌∷◌, ◌++◌, Option, none, some, not, ◌||◌, length, if◌then◌else◌, Result, ok, err, ◌>>=◌,
  ok_or,
}
use isomdl_elevenid.Common.Order.{◌==◌, nat_ord}
use isomdl_elevenid.Common.Int.{ℤ, pos, negsuc, int_ord}
use isomdl_elevenid.Common.Map.{Map, get, remove, insert}
use isomdl_elevenid.Cbor.{Value, Entries}
use isomdl_elevenid.Session.{Bytes}
use isomdl_elevenid.Cose.{Algorithm, es256, es384, es512, eddsa}

pub data Ec2Y : Type 0 where
  value : Bytes → Ec2Y
  sign_bit : Bool → Ec2Y

pub data Ec2Curve : Type 0 where
  p256 p384 p521 p256k : Ec2Curve

pub data OkpCurve : Type 0 where
  x25519 x448 ed25519 ed448 : OkpCurve

pub data CoseKey : Type 0 where
  ec2 : Ec2Curve → Bytes → Ec2Y → CoseKey
  okp : OkpCurve → Bytes → CoseKey

pub data CoseKeyError : Type 0 where
  ec2_missing_y invalid_type_y not_a_map unsupported_curve unsupported_key_type : CoseKeyError
  invalid_cose_key cbor_error : CoseKeyError

unfoldable pub signature_algorithm : CoseKey → Option Algorithm
signature_algorithm (ec2 p256 x y) = some es256
signature_algorithm (ec2 p384 x y) = some es384
signature_algorithm (ec2 p521 x y) = some es512
signature_algorithm (ec2 p256k x y) = none
signature_algorithm (okp x25519 x) = none
signature_algorithm (okp x448 x) = none
signature_algorithm (okp ed25519 x) = some eddsa
signature_algorithm (okp ed448 x) = some eddsa

unfoldable pub ec2_curve_id : Ec2Curve → ℤ
ec2_curve_id p256 = pos 1
ec2_curve_id p384 = pos 2
ec2_curve_id p521 = pos 3
ec2_curve_id p256k = pos 8

unfoldable pub okp_curve_id : OkpCurve → ℤ
okp_curve_id x25519 = pos 4
okp_curve_id x448 = pos 5
okp_curve_id ed25519 = pos 6
okp_curve_id ed448 = pos 7

unfoldable pub ec2_curve_of_id : ℤ → Result CoseKeyError Ec2Curve
ec2_curve_of_id crv_id =
    if crv_id == pos 1
    then ok p256
    else if crv_id == pos 2
    then ok p384
    else if crv_id == pos 3
    then ok p521
    else if crv_id == pos 8
    then ok p256k
    else err unsupported_curve

unfoldable pub okp_curve_of_id : ℤ → Result CoseKeyError OkpCurve
okp_curve_of_id crv_id =
    if crv_id == pos 4
    then ok x25519
    else if crv_id == pos 5
    then ok x448
    else if crv_id == pos 6
    then ok ed25519
    else if crv_id == pos 7
    then ok ed448
    else err unsupported_curve

unfoldable pub y_to_value : Ec2Y → Value
y_to_value (value y) = Value.bytes y
y_to_value (sign_bit y) = Value.bool y

unfoldable pub y_of_value : Value → Result CoseKeyError Ec2Y
y_of_value (Value.bytes y) = ok (value y)
y_of_value (Value.bool y) = ok (sign_bit y)
y_of_value (Value.integer i) = err invalid_type_y
y_of_value (Value.float f) = err invalid_type_y
y_of_value (Value.text t) = err invalid_type_y
y_of_value Value.null = err invalid_type_y
y_of_value (Value.tag t v) = err invalid_type_y
y_of_value (Value.array vs) = err invalid_type_y
y_of_value (Value.dictionary es) = err invalid_type_y

-- `From<CoseKey> for ciborium::Value`: kty is 1, crv is -1, x is -2, y is -3.
unfoldable pub to_value : CoseKey → Value
unfolding ec2_curve_id okp_curve_id y_to_value
to_value (ec2 crv x y) = Value.dictionary (
    Entries.entry (Value.integer (pos 1)) (Value.integer (pos 2)) (
      Entries.entry (Value.integer (negsuc 0)) (Value.integer (ec2_curve_id crv)) (
        Entries.entry (Value.integer (negsuc 1)) (Value.bytes x)
          (Entries.entry (Value.integer (negsuc 2)) (y_to_value y) Entries.no_entries))))
to_value (okp crv x) = Value.dictionary (
    Entries.entry (Value.integer (pos 1)) (Value.integer (pos 1)) (
      Entries.entry (Value.integer (negsuc 0)) (Value.integer (okp_curve_id crv))
        (Entries.entry (Value.integer (negsuc 1)) (Value.bytes x) Entries.no_entries)))

-- `into_integer`
unfoldable pub into_integer : Value → Option ℤ
into_integer (Value.integer i) = some i
into_integer (Value.bytes b) = none
into_integer (Value.bool b) = none
into_integer (Value.float f) = none
into_integer (Value.text t) = none
into_integer Value.null = none
into_integer (Value.tag t v) = none
into_integer (Value.array vs) = none
into_integer (Value.dictionary es) = none

-- `collect` into a `BTreeMap`: the first key that is no integer is an error, and the last entry of a
-- key stays.
unfoldable pub integer_map : Entries → Map ℤ Value → Result CoseKeyError (Map ℤ Value)
unfolding into_integer
integer_map Entries.no_entries m = ok m
integer_map (Entries.entry k v es) m = do
  i ← ok_or (into_integer k) cbor_error
  integer_map es (insert i v m)

-- The two guarded patterns of the match: a key type, a curve and an x coordinate.
unfoldable pub key_of_parts : ℤ → ℤ → Bytes → Map ℤ Value → Result CoseKeyError CoseKey
key_of_parts kty crv_id x m =
    if kty == pos 2
    then (do
      crv ← ec2_curve_of_id crv_id
      y ← ok_or (get (negsuc 2) m) ec2_missing_y
      y' ← y_of_value y
      ok (ec2 crv x y'))
    else if kty == pos 1
    then (do crv ← okp_curve_of_id crv_id; ok (okp crv x))
    else err unsupported_key_type

abbrev pub key_of_bytes : ℤ → ℤ → Option Value → Map ℤ Value → Result CoseKeyError CoseKey
key_of_bytes kty crv_id (some (Value.bytes x)) m = key_of_parts kty crv_id x m
key_of_bytes kty crv_id other m = err unsupported_key_type

abbrev pub key_of_curve :
    ℤ → Option Value → Option Value → Map ℤ Value → Result CoseKeyError CoseKey
key_of_curve kty (some (Value.integer crv_id)) x m = key_of_bytes kty crv_id x m
key_of_curve kty other x m = err unsupported_key_type

abbrev pub key_of_fields :
    Option Value → Option Value → Option Value → Map ℤ Value → Result CoseKeyError CoseKey
key_of_fields (some (Value.integer kty)) crv x m = key_of_curve kty crv x m
key_of_fields other crv x m = err unsupported_key_type

-- `TryFrom<ciborium::Value> for CoseKey`
unfoldable pub of_value : Value → Result CoseKeyError CoseKey
unfolding integer_map key_of_parts
of_value (Value.dictionary es) = do
  m ← integer_map es []
  key_of_fields (get (pos 1) m) (get (negsuc 0) (remove (pos 1) m))
      (get (negsuc 1) (remove (negsuc 0) (remove (pos 1) m)))
      (remove (negsuc 1) (remove (negsuc 0) (remove (pos 1) m)))
of_value other = err not_a_map

module _ {Point : Type 0} (from_bytes : Bytes → Option Point) where
  abbrev pub point_of_y : Bytes → Ec2Y → Result CoseKeyError Point
  point_of_y x (value y) =
      if not (length x == 32) || not (length y == 32)
      then err invalid_cose_key
      else ok_or (from_bytes (4 ∷ (x ++ y))) invalid_cose_key
  point_of_y x (sign_bit y) =
      if not (length x == 32)
      then err invalid_cose_key
      else ok_or (from_bytes ((if y then 3 else 2) ∷ x)) invalid_cose_key

  -- `TryFrom<CoseKey> for EncodedPoint`
  unfoldable pub encoded_point : CoseKey → Result CoseKeyError Point
  encoded_point (ec2 p256 x y) = point_of_y x y
  encoded_point (ec2 p384 x y) = err invalid_cose_key
  encoded_point (ec2 p521 x y) = err invalid_cose_key
  encoded_point (ec2 p256k x y) = err invalid_cose_key
  encoded_point (okp crv x) = err invalid_cose_key
