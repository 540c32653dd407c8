-- ===== src/Engagement/Qr.antt =====
-- src/definitions/device_engagement.rs: the URI of a QR code that carries a device engagement. Base64
-- and CBOR are parameters.
use mathlib.Core.Path.{subst}
use isomdl_elevenid.Common.{
  ◌≡◌, refl, [], ◌∷◌, ◌++◌, Option, some, Result, ok, ◌>>=◌, ok_or, map_err, ok_or-eq-ok, >>=-eq-ok,
  ok-injective,
}
use isomdl_elevenid.Common.Order.{Str, str, ==_self, list_ord, nat_ord}
use isomdl_elevenid.Session.{Bytes}
use isomdl_elevenid.Issuance.Plan.{Tag24}
use isomdl_elevenid.DeviceKey.CoseKey.{CoseKey, to_value}
use isomdl_elevenid.Device.Age.{strip_prefix}
use isomdl_elevenid.Engagement.{DeviceEngagement}
use isomdl_elevenid.Engagement.Tagged.{Tag24Error, tag24_of, tag24_from_bytes}
use isomdl_elevenid.Engagement.Codec.{
  Serde, engagement_to_value, engagement_to_vec, engagement_from_slice,
}
use isomdl_elevenid.Engagement.RoundTrip.{
  Derives, IsEngagement, engagement_of_value-engagement_to_value,
}

-- The errors of `from_qr_code_uri`.
pub data QrError : Type 0 where
  invalid_prefix undecodable_base64 : QrError
  undecodable_engagement : Tag24Error → QrError

-- base64 in its URL-safe alphabet without padding.
pub record Base64 : Type 0 where
  pub encode_config : Bytes → Str
  pub decode_config : Str → Option Bytes

-- What is encoded is decoded to the same bytes.
abbrev pub DecodesEncoded : Base64 → Type 0
DecodesEncoded base64 =
    (bytes : Bytes) → base64.decode_config (base64.encode_config bytes) ≡ some bytes

-- What ciborium writes of an engagement or of a key, it reads to the same value.
pub record ReadsWritten (serde : Serde) : Type 0 where
  pub engagement :
      (e : DeviceEngagement) (bytes : Bytes)
      → engagement_to_vec serde e ≡ some bytes
      → serde.value_from_slice bytes ≡ some (engagement_to_value e)
  pub key :
      (k : CoseKey) (bytes : Bytes)
      → serde.value_to_vec (to_value k) ≡ some bytes
      → serde.value_from_slice bytes ≡ some (to_value k)

abbrev pub uri_prefix : Str
uri_prefix = str "mdoc:"

module _ (base64 : Base64) where
  unfoldable pub to_qr_code_uri : Tag24 DeviceEngagement → Str
  to_qr_code_uri e = uri_prefix ++ base64.encode_config e.inner_bytes

  module _ (serde : Serde) where
    unfoldable pub from_qr_code_uri : Str → Result QrError (Tag24 DeviceEngagement)
    from_qr_code_uri qr_code_uri = do
      encoded_de ← ok_or (strip_prefix uri_prefix qr_code_uri) invalid_prefix
      decoded_de ← ok_or (base64.decode_config encoded_de) undecodable_base64
      map_err undecodable_engagement (tag24_from_bytes (engagement_from_slice serde) decoded_de)

    strip_prefix-append : (p s : Str) → strip_prefix p (p ++ s) ≡ some s
    unfolding strip_prefix
    strip_prefix-append [] s = refl
    strip_prefix-append (c ∷ p) s = rw (==_self c) (strip_prefix-append p s)

    -- The URI that is shown for an engagement that was encoded is read to the same engagement with the
    -- same bytes, where base64, ciborium and serde read what they have written.
    pub from_qr_code_uri-to_qr_code_uri :
        Derives serde
        → DecodesEncoded base64
        → ReadsWritten serde
        → (e : DeviceEngagement) (t : Tag24 DeviceEngagement) → IsEngagement serde e
        → tag24_of (engagement_to_vec serde) e ≡ ok t
        → from_qr_code_uri (to_qr_code_uri t) ≡ ok t
    unfolding from_qr_code_uri to_qr_code_uri tag24_of tag24_from_bytes
    from_qr_code_uri-to_qr_code_uri derives decodes reads e t valid made =
        let (bytes, written, same) = >>=-eq-ok (ok_or (engagement_to_vec serde e) _) _ made in
        let read = reads.engagement e bytes (ok_or-eq-ok _ _ bytes written) in
        let opened = engagement_of_value-engagement_to_value serde derives e valid in
        subst (λ u. from_qr_code_uri (to_qr_code_uri u) ≡ ok u) (ok-injective _ t same)
          (rw
            (
              strip_prefix-append uri_prefix (base64.encode_config bytes),
              decodes bytes,
              read,
              opened,
            )
            refl)
