-- ===== src/Establish/Agreed.antt =====
-- src/definitions/session.rs: the two sides agree on a secret. What the curve P-256 guarantees of its
-- points and of the exchange of Diffie and Hellman is a hypothesis.
use mathlib.Core.Path.{subst}
use isomdl_elevenid.Common.{
  ok-injective, ◌≡◌, refl, length, ◌∷◌, ◌++◌, some, ok, ok_or-eq-ok, ok_or, >>=-eq-ok,
}
use isomdl_elevenid.Session.{Bytes}
use isomdl_elevenid.DeviceKey.CoseKey.{CoseKey, ec2, value, p256, ec2_curve_of_id, encoded_point}
use isomdl_elevenid.Establish.{ephemeral_key_error}
use isomdl_elevenid.Establish.Keys.{Curve, create_p256_ephemeral_keys, get_shared_secret}

-- The coordinates of the public key of a private key are 32 bytes each and are read back to this
-- public key, and both sides of an exchange compute one secret.
pub record Exchanges {Secret Point Public : Type 0} (curve : Curve Secret Point Public)
    : Type 0 where
  pub public : Secret → Public
  pub length_x : (s : Secret) (x : Bytes) → curve.x s ≡ some x → length x ≡ 32
  pub length_y : (s : Secret) (y : Bytes) → curve.y s ≡ some y → length y ≡ 32
  pub read :
      (s : Secret) (x y : Bytes)
      → curve.x s ≡ some x
      → curve.y s ≡ some y
      → (p : Point) × (curve.point_from_bytes (4 ∷ (x ++ y)) ≡ some p)
        × (curve.public_from_sec1_point p ≡ some (public s))
  pub symmetric :
      (a b : Secret) → curve.diffie_hellman a (public b) ≡ curve.diffie_hellman b (public a)

module _ {Secret Point Public : Type 0} (curve : Curve Secret Point Public)
    (exchanges : Exchanges curve) where
  abbrev Shares : Secret → Secret → Secret × CoseKey → Type 0
  Shares generated other (private_key, key) =
      (private_key ≡ generated)
      × (get_shared_secret curve key other
          ≡ ok (curve.diffie_hellman other (exchanges.public private_key)))

  shared :
      (generated other : Secret) (x y : Bytes)
      → curve.x generated ≡ some x
      → curve.y generated ≡ some y
      → get_shared_secret curve (ec2 p256 x (value y)) other
        ≡ ok (curve.diffie_hellman other (exchanges.public generated))
  unfolding get_shared_secret encoded_point
  shared generated other x y from_x from_y =
      let (point, pointed, published) = exchanges.read generated x y from_x from_y in
      rw
        (
          exchanges.length_x generated x from_x,
          exchanges.length_y generated y from_y,
          pointed,
          published,
        )
        refl

  -- The key that is published for a generated private key gives the other side the product of the
  -- exchange with it.
  pub get_shared_secret-create_p256_ephemeral_keys :
      (generated private_key other : Secret) (key : CoseKey)
      → create_p256_ephemeral_keys curve generated ≡ ok (private_key, key)
      → (private_key ≡ generated)
        × (get_shared_secret curve key other
            ≡ ok (curve.diffie_hellman other (exchanges.public private_key)))
  unfolding create_p256_ephemeral_keys ec2_curve_of_id
  get_shared_secret-create_p256_ephemeral_keys generated private_key other key h =
      let (x, from_x, h₁) = >>=-eq-ok (ok_or (curve.x generated) ephemeral_key_error) _ h in
      let (y, from_y, h₂) = >>=-eq-ok (ok_or (curve.y generated) ephemeral_key_error) _ h₁ in
      subst (Shares generated other) (ok-injective _ (private_key, key) h₂)
        (refl, shared generated other x y (ok_or-eq-ok _ _ x from_x) (ok_or-eq-ok _ _ y from_y))
