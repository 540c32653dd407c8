-- ===== src/Establish/Example.antt =====
-- A curve whose private and public keys are one number, and an encoding of the first message.
use isomdl_elevenid.Common.{
  ℕ, ◌+◌, ◌≡◌, refl, ap, arith, [], ◌∷◌, ◌++◌, Option, none, some, replicate, length,
}
use isomdl_elevenid.Common.Order.{list_ord, nat_ord, str}
use isomdl_elevenid.Session.{Bytes}
use isomdl_elevenid.DeviceKey.CoseKey.{CoseKey}
use isomdl_elevenid.Cbor.{Value, Entries, entry, no_entries}
use isomdl_elevenid.Issuance.Plan.{Tag24}
use isomdl_elevenid.Engagement.Tagged.{tag24_to_value}
use isomdl_elevenid.Engagement.RoundTrip.{value_at}
use isomdl_elevenid.Engagement.Example.{toy_serde}
use isomdl_elevenid.Establish.Message.{
  EstablishmentSerde, DerivesEstablishment, ReadsEstablishments, establishment_to_vec,
}
use isomdl_elevenid.Establish.{SessionEstablishment}
use isomdl_elevenid.Establish.Keys.{Curve}
use isomdl_elevenid.Establish.Agreed.{Exchanges}

abbrev second : Bytes → Option ℕ
second [] = none
second (a ∷ []) = none
second (a ∷ b ∷ bs) = some b

abbrev pub toy_curve : Curve ℕ Bytes ℕ
toy_curve = record {
  x = λ s. some (replicate 32 s);
  y = λ s. some (replicate 32 s);
  point_from_bytes = λ bytes. some bytes;
  public_from_sec1_point = second;
  diffie_hellman = λ s p. (s + p) ∷ [];
}

toy-length : (s : ℕ) (x : Bytes) → some (replicate 32 s) ≡ some x → length x ≡ 32
toy-length s x h = let same : replicate 32 s ≡ x = cc in rw (← same) refl

toy-read : (s : ℕ) (x y : Bytes) → some (replicate 32 s) ≡ some x → second (4 ∷ (x ++ y)) ≡ some s
toy-read s x y h = let same : replicate 32 s ≡ x = cc in rw (← same) refl

pub toy_curve-Exchanges : Exchanges toy_curve
toy_curve-Exchanges = record {
  public = λ s. s;
  length_x = toy-length;
  length_y = toy-length;
  read = λ s x y h k. (4 ∷ (x ++ y), refl, toy-read s x y h);
  symmetric = λ a b. ap (λ n. n ∷ []) (omega arith);
}

abbrev key_of : (Value → Option (Tag24 CoseKey)) → Option Value → Option (Tag24 CoseKey)
key_of decode none = none
key_of decode (some v) = decode v

abbrev with_data : Option (Tag24 CoseKey) → Option Value → Option SessionEstablishment
with_data (some key) (some (Value.bytes data_bytes)) =
    some (record { e_reader_key = key; data_bytes = data_bytes })
with_data key data_value = none

abbrev establishment_of : (Value → Option (Tag24 CoseKey)) → Value → Option SessionEstablishment
establishment_of decode (Value.dictionary es) =
    with_data (key_of decode (value_at (str "eReaderKey") es)) (value_at (str "data") es)
establishment_of decode other = none

abbrev entries_of : SessionEstablishment → Entries
entries_of e =
    entry (Value.text (str "eReaderKey")) (tag24_to_value e.e_reader_key)
      (entry (Value.text (str "data")) (Value.bytes e.data_bytes) no_entries)

abbrev pub toy_derived : EstablishmentSerde
toy_derived = record {
  to_value = λ e. Value.dictionary (entries_of e);
  from_value = establishment_of;
}

pub toy_derived-DerivesEstablishment : DerivesEstablishment toy_derived
toy_derived-DerivesEstablishment = record {
  writes = λ e. (
    entries_of e,
    refl,
    ((str "eReaderKey", refl, refl), ((str "data", refl, refl), tt)),
    refl,
    refl,
  );
  reads = λ decode es v key data_bytes fields at_key decoded at_data.
      rw (at_key, decoded, at_data) refl;
}

toy-read_establishment :
    (key : CoseKey) (key_bytes data_bytes bytes : Bytes)
    → establishment_to_vec toy_serde toy_derived (record {
      e_reader_key = record { inner = key; inner_bytes = key_bytes };
      data_bytes = data_bytes;
    })
      ≡ some bytes
    → toy_serde.value_from_slice bytes
      ≡ some (
          Value.dictionary (
            entries_of (record {
              e_reader_key = record { inner = key; inner_bytes = key_bytes };
              data_bytes = data_bytes;
            })))
unfolding tag24_to_value
toy-read_establishment key [] data_bytes bytes h = absurd cc
toy-read_establishment key (c ∷ []) data_bytes bytes h =
    let same : c ∷ 1 ∷ data_bytes ≡ bytes = cc in rw (← same) refl
toy-read_establishment key (c ∷ b ∷ bs) data_bytes bytes h = absurd cc

pub toy_derived-ReadsEstablishments : ReadsEstablishments toy_serde toy_derived
toy_derived-ReadsEstablishments e bytes h =
    toy-read_establishment e.e_reader_key.inner e.e_reader_key.inner_bytes e.data_bytes bytes h
