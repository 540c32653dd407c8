-- ===== src/Establish/Engaged.antt =====
-- src/presentation/device.rs: what `initialise` engages with. Its engagement is one that the codec
-- reads back, and the key in it is the public key of the private key that is kept.
use mathlib.Core.Path.{subst}
use isomdl_elevenid.Common.{
  ◌≡◌, refl, sym, Option, none, some, ok, arith, >>=-eq-ok, ok-injective, map_err-eq-ok, map_err,
}
use isomdl_elevenid.Common.Order.{str}
use isomdl_elevenid.Session.{Bytes}
use isomdl_elevenid.DeviceKey.CoseKey.{CoseKey}
use isomdl_elevenid.DeviceKey.RoundTrip.{of_value-to_value}
use isomdl_elevenid.Issuance.Plan.{Tag24}
use isomdl_elevenid.Engagement.{DeviceEngagement, DeviceRetrievalMethods, ServerRetrievalMethods}
use isomdl_elevenid.Engagement.Tagged.{tag24_of, tag24_of-eq-ok, tag24_of_self}
use isomdl_elevenid.Engagement.Codec.{Serde, engagement_to_vec, key_from_slice}
use isomdl_elevenid.Engagement.RoundTrip.{IsEngagement, AreMethods, AreServed}
use isomdl_elevenid.Engagement.Qr.{ReadsWritten}
use isomdl_elevenid.Establish.{ephemeral_key, tag24_encoding}
use isomdl_elevenid.Establish.Keys.{
  Curve, create_p256_ephemeral_keys, get_shared_secret, key_to_vec,
}
use isomdl_elevenid.Establish.Holder.{SessionManagerInit, initialise}
use isomdl_elevenid.Establish.Agreed.{Exchanges, get_shared_secret-create_p256_ephemeral_keys}

abbrev initial :
    Option DeviceRetrievalMethods → Option ServerRetrievalMethods → Tag24 CoseKey → DeviceEngagement
initial device server key = record {
  version = str "1.0";
  security = record { cipher_suite = 1; e_device_key = key };
  device_retrieval_methods = device;
  server_retrieval_methods = server;
  protocol_info = none;
}

module _ (serde : Serde) (reads : ReadsWritten serde) where
  pub key_from_slice-key_to_vec :
      (key : CoseKey) (bytes : Bytes)
      → key_to_vec serde key ≡ some bytes
      → key_from_slice serde bytes ≡ some key
  key_from_slice-key_to_vec key bytes e = rw (reads.key key bytes e, of_value-to_value key) refl

module _ {Documents Secret Point Public : Type 0} (curve : Curve Secret Point Public)
    (serde : Serde) (exchanges : Exchanges curve) where
  pub record IsEngaged (documents : Documents) (init : SessionManagerInit Documents Secret)
      : Type 0 where
    pub kept : init.documents ≡ documents
    pub made :
        tag24_of (engagement_to_vec serde) init.device_engagement.inner ≡ ok init.device_engagement
    pub valid : IsEngagement serde init.device_engagement.inner
    pub shared :
        (other : Secret)
        → get_shared_secret curve init.device_engagement.inner.security.e_device_key.inner other
          ≡ ok (curve.diffie_hellman other (exchanges.public init.e_device_key))

  module _ (reads : ReadsWritten serde) where
    pub initialise-IsEngaged :
        (documents : Documents) (device : Option DeviceRetrievalMethods)
        (server : Option ServerRetrievalMethods) (generated : Secret)
        (init : SessionManagerInit Documents Secret)
        → AreMethods device
        → AreServed server
        → initialise curve serde documents device server generated ≡ ok init
        → IsEngaged documents init
    unfolding initialise
    initialise-IsEngaged documents device server generated init methods servers h =
        let ((secret, key), created, h₁) =
          >>=-eq-ok (map_err ephemeral_key (create_p256_ephemeral_keys curve generated)) _ h in
        let (key_bytes, encoded, h₂) =
          >>=-eq-ok (map_err tag24_encoding (tag24_of (key_to_vec serde) key)) _ h₁ in
        let (engagement, engaged, h₃) =
          >>=-eq-ok
            (map_err tag24_encoding
              (tag24_of (engagement_to_vec serde) (initial device server key_bytes)))
            _ h₂ in
        let (key_written, key_kept) =
          tag24_of-eq-ok (key_to_vec serde) key key_bytes
            (map_err-eq-ok tag24_encoding _ _ encoded) in
        let (written, engagement_kept) =
          tag24_of-eq-ok (engagement_to_vec serde) (initial device server key_bytes) engagement
            (map_err-eq-ok tag24_encoding _ _ engaged) in
        let key_read =
          key_from_slice-key_to_vec serde reads key_bytes.inner key_bytes.inner_bytes key_written in
        subst (IsEngaged documents) (ok-injective _ init h₃) (record {
          kept = refl;
          made = tag24_of_self (engagement_to_vec serde) engagement written;
          valid = subst (IsEngagement serde) (sym engagement_kept) (record {
            supported = refl;
            suite = omega arith;
            key = key_read;
            methods = methods;
            servers = servers;
            reserved = refl;
          });
          shared = λ other.
              rw (engagement_kept, key_kept)
                (get_shared_secret-create_p256_ephemeral_keys curve exchanges generated secret other
                  key (map_err-eq-ok ephemeral_key _ _ created)).1;
        })
