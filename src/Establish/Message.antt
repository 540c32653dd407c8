-- ===== src/Establish/Message.antt =====
-- src/definitions/session.rs: the first message, a session establishment as a CBOR map. The coders that
-- serde derives from its declaration are a parameter; the key in it goes through `Tag24`.
use mathlib.Core.Path.{ap}
use isomdl_elevenid.Common.{◌≡◌, Option, none, some}
use isomdl_elevenid.Common.Order.{str}
use isomdl_elevenid.Cbor.{Value, Entries}
use isomdl_elevenid.Session.{Bytes}
use isomdl_elevenid.DeviceKey.CoseKey.{CoseKey}
use isomdl_elevenid.Issuance.Plan.{Tag24}
use isomdl_elevenid.Engagement.Tagged.{
  tag24_of_value, tag24_to_value, to_option, tag24_of_value-tag24_to_value,
}
use isomdl_elevenid.Engagement.Codec.{Serde, key_from_slice}
use isomdl_elevenid.Engagement.RoundTrip.{value_at, AreFields}
use isomdl_elevenid.Establish.{SessionEstablishment}

-- What serde derives for `SessionEstablishment`, with the decoder of its key as an argument.
pub record EstablishmentSerde : Type 0 where
  pub to_value : SessionEstablishment → Value
  pub from_value : (Value → Option (Tag24 CoseKey)) → Value → Option SessionEstablishment

-- A struct is written as a map of its fields under their names in camel case, a key as its bytes under
-- tag 24, and each field is read from the entry under its name.
pub record DerivesEstablishment (derived : EstablishmentSerde) : Type 0 where
  pub writes :
      (e : SessionEstablishment)
      → (es : Entries) × (derived.to_value e ≡ Value.dictionary es)
        × AreFields es
        × (value_at (str "eReaderKey") es ≡ some (tag24_to_value e.e_reader_key))
        × (value_at (str "data") es ≡ some (Value.bytes e.data_bytes))
  pub reads :
      (decode : Value → Option (Tag24 CoseKey)) (es : Entries) (v : Value) (key : Tag24 CoseKey)
      (data_bytes : Bytes)
      → AreFields es
      → value_at (str "eReaderKey") es ≡ some v
      → decode v ≡ some key
      → value_at (str "data") es ≡ some (Value.bytes data_bytes)
      → derived.from_value decode (Value.dictionary es)
        ≡ some (record { e_reader_key = key; data_bytes = data_bytes })

module _ (serde : Serde) (derived : EstablishmentSerde) where
  abbrev pub establishment_to_vec : SessionEstablishment → Option Bytes
  establishment_to_vec e = serde.value_to_vec (derived.to_value e)

  abbrev pub establishment_of_option : Option Value → Option SessionEstablishment
  establishment_of_option none = none
  establishment_of_option (some v) =
      derived.from_value (λ w. to_option (tag24_of_value (key_from_slice serde) w)) v

  abbrev pub establishment_from_slice : Bytes → Option SessionEstablishment
  establishment_from_slice bytes = establishment_of_option (serde.value_from_slice bytes)

  -- What ciborium writes of a first message, it reads to the same value.
  abbrev pub ReadsEstablishments : Type 0
  ReadsEstablishments =
      (e : SessionEstablishment) (bytes : Bytes)
      → establishment_to_vec e ≡ some bytes
      → serde.value_from_slice bytes ≡ some (derived.to_value e)

  -- A message whose key is the one that its bytes encode is read back from what is written of it.
  pub establishment_from_slice-establishment_to_vec :
      DerivesEstablishment derived
      → ReadsEstablishments
      → (e : SessionEstablishment) (bytes : Bytes)
      → key_from_slice serde e.e_reader_key.inner_bytes ≡ some e.e_reader_key.inner
      → establishment_to_vec e ≡ some bytes
      → establishment_from_slice bytes ≡ some e
  establishment_from_slice-establishment_to_vec derives reads e bytes key written =
      let (es, mapped, fields, at_key, at_data) = derives.writes e in
      let decoded =
        ap to_option (tag24_of_value-tag24_to_value (key_from_slice serde) e.e_reader_key key) in
      rw (reads e bytes written, mapped)
        (derives.reads _ es (tag24_to_value e.e_reader_key) e.e_reader_key e.data_bytes fields
          at_key decoded at_data)
