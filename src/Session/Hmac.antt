-- ===== src/Session/Hmac.antt =====
-- src/definitions/session_crypto.rs: HMAC and HKDF with SHA-256 over scratch memory that is wiped.
-- A panic is `none`. The closures that run between the steps enter with their result.
use Prim.Native.Nat.{bit_xor}
use isomdl_elevenid.Common.{
  ℕ, List, [], ◌∷◌, Option, some, map, ltb, if◌then◌else◌, length, replicate, Result, ok, err,
}
use isomdl_elevenid.Session.{Bytes}
use isomdl_elevenid.Session.Sha256.{Words, ◌>>=◌, copy_at, sha256_block_bytes, hash_parts}

pub record HmacSha256Scratch : Type 0 where
  pub key_block : Bytes
  pub inner_digest : Bytes

pub record HkdfScratch : Type 0 where
  pub key_block : Bytes
  pub inner_digest : Bytes
  pub prk : Bytes

-- `zeroize`
abbrev pub wiped : HmacSha256Scratch
wiped = record { key_block = replicate 64 0; inner_digest = replicate 32 0 }

abbrev pub hkdf_wiped : HkdfScratch
hkdf_wiped = record {
  key_block = replicate 64 0;
  inner_digest = replicate 32 0;
  prk = replicate 32 0;
}

-- `for byte in key_block.iter_mut() { *byte ^= mask; }`
abbrev pub xor_all : ℕ → Bytes → Bytes
xor_all mask bytes = map (λ byte. bit_xor byte mask) bytes

module _ (compress256 : Words → Bytes → Words) where
  unfoldable pub key_block_of : Bytes → Option Bytes
  key_block_of key =
      if ltb sha256_block_bytes (length key)
      then (do
        hashed_key ← hash_parts compress256 (key ∷ [])
        some (copy_at (replicate 64 0) 0 hashed_key))
      else some (copy_at (replicate 64 0) 0 key)

  -- What is left in the scratch memory, and the output.
  unfoldable pub hmac_sha256_into : Bytes → List Bytes → Option (HmacSha256Scratch × Bytes)
  unfolding key_block_of
  hmac_sha256_into key message_parts = do
    block ← key_block_of key
    let inner_block = xor_all 0x36 block
    inner_digest ← hash_parts compress256 (inner_block ∷ message_parts)
    let outer_block = xor_all (bit_xor 0x36 0x5c) inner_block
    digest ← hash_parts compress256 (outer_block ∷ inner_digest ∷ [])
    some (record { key_block = outer_block; inner_digest = inner_digest }, digest)

  -- The guard of the output wipes it unless the closure has succeeded.
  abbrev pub guarded_output : Result (Unit {0}) (Unit {0}) → Bytes → Bytes
  guarded_output (ok u) output = output
  guarded_output (err u) output = replicate 32 0

  unfoldable pub hmac_sha256_with_scratch :
      Bytes
      → List Bytes
      → Result (Unit {0}) (Unit {0})
      → Option (Result (Unit {0}) (Unit {0}) × Bytes × HmacSha256Scratch)
  hmac_sha256_with_scratch key message_parts after_compute = do
    (scratch, output) ← hmac_sha256_into key message_parts
    some (after_compute, guarded_output after_compute output, wiped)

  abbrev pub expand :
      Bytes
      → Bytes
      → Result (Unit {0}) (Unit {0})
      → Option (Result (Unit {0}) (Unit {0}) × Bytes × HkdfScratch)
  expand prk info (err u) = some (err u, replicate 32 0, hkdf_wiped)
  expand prk info (ok u) = do
    (scratch, output) ← hmac_sha256_into prk (info ∷ (1 ∷ []) ∷ [])
    some (ok u, output, hkdf_wiped)

  unfoldable pub hkdf_sha256_32_with_scratch :
      Bytes
      → Bytes
      → Bytes
      → Result (Unit {0}) (Unit {0})
      → Option (Result (Unit {0}) (Unit {0}) × Bytes × HkdfScratch)
  hkdf_sha256_32_with_scratch input_key_material salt info after_extract = do
    (scratch, prk) ← hmac_sha256_into salt (input_key_material ∷ [])
    expand prk info after_extract
