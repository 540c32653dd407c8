-- ===== src/Cbor.antt =====
-- The values of src/cbor.rs and of the keys and responses that carry them: `ciborium::Value`. A float
-- is its bit pattern.
use isomdl_elevenid.Common.{ℕ, List, Bool}
use isomdl_elevenid.Common.Order.{Str}
use isomdl_elevenid.Common.Int.{ℤ}

mutual
  pub data Value : Type 0 where
    integer : ℤ → Value
    bytes : List ℕ → Value
    float : ℕ → Value
    text : Str → Value
    bool : Bool → Value
    null : Value
    tag : ℕ → Value → Value
    array : Values → Value
    dictionary : Entries → Value

  pub data Values : Type 0 where
    no_values : Values
    value : Value → Values → Values

  pub data Entries : Type 0 where
    no_entries : Entries
    entry : Value → Value → Entries → Entries
