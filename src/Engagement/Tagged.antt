-- ===== src/Engagement/Tagged.antt =====
-- src/definitions/helpers/tag24.rs: values that carry their own encoding, under tag 24. The decoder of
-- the inner type is an argument.
use mathlib.Core.Path.{subst}
use isomdl_elevenid.Common.{
  ℕ, ◌≡◌, refl, Option, none, some, Result, ok, err, ◌>>=◌, ok_or, >>=-eq-ok, ok_or-eq-ok,
  ok-injective, if◌then◌else◌,
}
use isomdl_elevenid.Common.Order.{◌==◌, nat_ord}
use isomdl_elevenid.Cbor.{Value}
use isomdl_elevenid.Session.{Bytes}
use isomdl_elevenid.Issuance.Plan.{Tag24}

-- `tag24::Error`
pub data Tag24Error : Type 0 where
  invalid_tag24 not_a_tag24 unable_to_encode unable_to_decode : Tag24Error

-- `Tag24::new`
unfoldable pub tag24_of : {T : Type 0} → (T → Option Bytes) → T → Result Tag24Error (Tag24 T)
tag24_of to_vec inner = do
  bytes ← ok_or (to_vec inner) unable_to_encode
  ok (record { inner = inner; inner_bytes = bytes })

unfoldable pub tag24_from_bytes :
    {T : Type 0} → (Bytes → Option T) → Bytes → Result Tag24Error (Tag24 T)
tag24_from_bytes from_slice bytes = do
  inner ← ok_or (from_slice bytes) unable_to_decode
  ok (record { inner = inner; inner_bytes = bytes })

abbrev pub tagged_value :
    {T : Type 0} → (Bytes → Option T) → ℕ → Value → Result Tag24Error (Tag24 T)
tagged_value from_slice t (Value.bytes bytes) =
    if t == 24 then tag24_from_bytes from_slice bytes else err not_a_tag24
tagged_value from_slice t other = if t == 24 then err invalid_tag24 else err not_a_tag24

-- `TryFrom<ciborium::Value> for Tag24<T>`
unfoldable pub tag24_of_value :
    {T : Type 0} → (Bytes → Option T) → Value → Result Tag24Error (Tag24 T)
tag24_of_value from_slice (Value.tag t v) = tagged_value from_slice t v
tag24_of_value from_slice other = err not_a_tag24

-- `From<Tag24<T>> for ciborium::Value`
unfoldable pub tag24_to_value : {T : Type 0} → Tag24 T → Value
tag24_to_value t = Value.tag 24 (Value.bytes t.inner_bytes)

-- What a decoder gives back where it succeeds.
abbrev pub to_option : {E A : Type 0} → Result E A → Option A
to_option (ok a) = some a
to_option (err e) = none

-- A tagged value whose bytes decode to what it holds is read back with the same bytes.
pub tag24_of_value-tag24_to_value :
    {T : Type 0} (from_slice : Bytes → Option T) (t : Tag24 T)
    → from_slice t.inner_bytes ≡ some t.inner
    → tag24_of_value from_slice (tag24_to_value t) ≡ ok t
unfolding tag24_of_value tag24_to_value tag24_from_bytes
tag24_of_value-tag24_to_value from_slice t h = rw h

pub tag24_of-eq-ok :
    {T : Type 0} (to_vec : T → Option Bytes) (inner : T) (t : Tag24 T)
    → tag24_of to_vec inner ≡ ok t
    → (to_vec t.inner ≡ some t.inner_bytes) × (t.inner ≡ inner)
unfolding tag24_of
tag24_of-eq-ok to_vec inner t h =
    let (bytes, written, same) = >>=-eq-ok (ok_or (to_vec inner) unable_to_encode) _ h in
    subst (λ u. (to_vec u.inner ≡ some u.inner_bytes) × (u.inner ≡ inner)) (ok-injective _ t same)
      (ok_or-eq-ok _ _ bytes written, refl)

pub tag24_of_self :
    {T : Type 0} (to_vec : T → Option Bytes) (t : Tag24 T)
    → to_vec t.inner ≡ some t.inner_bytes
    → tag24_of to_vec t.inner ≡ ok t
unfolding tag24_of
tag24_of_self to_vec t h = rw h refl
