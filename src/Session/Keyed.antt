-- ===== src/Session/Keyed.antt =====
-- src/definitions/session_crypto.rs: the HMAC and the HKDF are those of RFC 2104 and RFC 5869.
use Prim.Native.Nat.{bit_xor}
use mathlib.Core.List.{append-nil}
use isomdl_elevenid.Common.{
  ℕ, zero, suc, ◌+◌, ◌-◌, ◌*◌, ◌/◌, ◌<◌, ◌≤◌, ◌^◌, ◌≡◌, refl, inl, inr, Bool, false, true, List, [],
  ◌∷◌, ◌++◌, All, All-append, some, arith, ltb, Bool-cases, length, replicate, drop, if◌then◌else◌,
  length-append, length-map, length-replicate, Result, ok, err,
}
use isomdl_elevenid.Common.Order.{◌==◌, nat_ord}
use isomdl_elevenid.Session.{Bytes}
use isomdl_elevenid.Session.Sha256.{Words, copy_at, words_to_bytes, sha256_initial_state}
use isomdl_elevenid.Session.Blocks.{concat, sha256, compress_all, chunks, padded}
use isomdl_elevenid.Session.Parts.{hash_parts-sha256}
use isomdl_elevenid.Session.Hmac.{
  HmacSha256Scratch, xor_all, wiped, hkdf_wiped, key_block_of, hmac_sha256_into,
  hmac_sha256_with_scratch, guarded_output, hkdf_sha256_32_with_scratch,
}

abbrev pub IsByte : ℕ → Type 0
IsByte byte = byte < 256

module _ (test : ℕ → Bool) where
  -- Whether every number under a bound passes the test, counted down from the bound.
  passes_under : ℕ → Bool
  passes_under zero = true
  passes_under (suc bound) = if test bound then passes_under bound else false

  passed : (bound number : ℕ) → number < bound → passes_under bound ≡ true → test number ≡ true
  unfolding passes_under
  passed zero number small tested = absurd (omega arith)
  passed (suc bound) number small tested = ground (arith, passed bound number)

-- The second mask of the key block takes the first one back.
remask :
    (byte : ℕ) → IsByte byte → bit_xor (bit_xor byte 0x36) (bit_xor 0x36 0x5c) ≡ bit_xor byte 0x5c
unfolding passes_under
remask byte small =
    let tested =
      passed (λ b. bit_xor (bit_xor b 0x36) (bit_xor 0x36 0x5c) == bit_xor b 0x5c) 256 byte small
        refl in
    nat_ord.eq_of_cmp _ _ (ground arith)

remask_bytes :
    (block : Bytes)
    → All IsByte block
    → xor_all (bit_xor 0x36 0x5c) (xor_all 0x36 block) ≡ xor_all 0x5c block
remask_bytes [] h = refl
remask_bytes (x ∷ xs) (h, hs) = cc (remask x h, remask_bytes xs hs)

words_to_bytes-IsByte : (words : Words) → All IsByte (words_to_bytes words)
words_to_bytes-IsByte [] = tt
words_to_bytes-IsByte (w ∷ ws) =
    (omega arith, (omega arith, (omega arith, (omega arith, words_to_bytes-IsByte ws))))

length-words_to_bytes : (words : Words) → length (words_to_bytes words) ≡ length words * 4
length-words_to_bytes [] = refl
length-words_to_bytes (w ∷ ws) = omega (arith, length-words_to_bytes ws)

replicate-IsByte : (n : ℕ) → All IsByte (replicate n 0)
replicate-IsByte zero = tt
replicate-IsByte (suc n) = (omega arith, replicate-IsByte n)

drop-replicate : (m n : ℕ) → drop {A = ℕ} m (replicate n 0) ≡ replicate (n - m) 0
drop-replicate zero n = let e : n - 0 ≡ n = omega arith in rw e
drop-replicate (suc m) zero = let e : 0 - suc m ≡ 0 = omega arith in rw e
drop-replicate (suc m) (suc n) =
    let e : suc n - suc m ≡ n - m = omega arith in rw (e, drop-replicate m n)

module _ (compress256 : Words → Bytes → Words) where
  -- `compress256` works on a state of eight words.
  abbrev pub KeepsEight : Type 0
  KeepsEight =
      (words : Words) (block : Bytes) → length words ≡ 8 → length (compress256 words block) ≡ 8

  abbrev pub padded_key : Bytes → Bytes
  padded_key key = key ++ replicate (64 - length key) 0

  -- RFC 2104
  abbrev pub block_key : Bytes → Bytes
  block_key key = padded_key (if ltb 64 (length key) then sha256 compress256 key else key)

  abbrev pub hmac : Bytes → Bytes → Bytes
  hmac key message =
      sha256 compress256 (
        xor_all 0x5c (block_key key)
        ++ sha256 compress256 (xor_all 0x36 (block_key key) ++ message))

  -- RFC 5869, for an output of one block.
  abbrev pub hkdf : Bytes → Bytes → Bytes → Bytes
  hkdf input_key_material salt info = hmac (hmac salt input_key_material) (info ++ (1 ∷ []))

  length-compress_all :
      KeepsEight
      → (words : Words) (blocks : List Bytes) → length words ≡ 8
      → length (compress_all compress256 words blocks) ≡ 8
  length-compress_all keeps words [] h = h
  length-compress_all keeps words (b ∷ bs) h =
      length-compress_all keeps (compress256 words b) bs (keeps words b h)

  pub length-sha256 : KeepsEight → (message : Bytes) → length (sha256 compress256 message) ≡ 32
  unfolding sha256
  length-sha256 keeps message = omega (
    arith,
    length-words_to_bytes (
        compress_all compress256 sha256_initial_state
          (chunks (length (padded message) / 64) (padded message))),
    length-compress_all keeps sha256_initial_state
        (chunks (length (padded message) / 64) (padded message)) refl,
  )

  pub sha256-IsByte : (message : Bytes) → All IsByte (sha256 compress256 message)
  unfolding sha256
  sha256-IsByte message = words_to_bytes-IsByte _

  key_block-padded : (key : Bytes) → copy_at (replicate 64 0) 0 key ≡ padded_key key
  key_block-padded key =
      let e : 0 + length key ≡ length key = omega arith in rw (e, drop-replicate (length key) 64)

  padded_key_lem :
      (key : Bytes)
      → All IsByte key
      → length key ≤ 64
      → (length (padded_key key) ≡ 64) × All IsByte (padded_key key)
  padded_key_lem key h fits = (
    omega (
      arith,
      length-append key (replicate (64 - length key) 0),
      length-replicate {A = ℕ} (64 - length key) 0,
    ),
    All-append IsByte key (replicate (64 - length key) 0) h (replicate-IsByte (64 - length key)),
  )

  key_block_of-block_key :
      KeepsEight
      → (key : Bytes) → All IsByte key
      → length key * 8 < 2 ^ 64
      → (key_block_of compress256 key ≡ some (block_key key))
        × (length (block_key key) ≡ 64)
        × All IsByte (block_key key)
  unfolding key_block_of
  key_block_of-block_key keeps key h fits = elim (Bool-cases (ltb 64 (length key))) [
    | inl long ↦
        let digest = sha256 compress256 key in
        let (sized, bytes) =
          padded_key_lem digest (sha256-IsByte key) (omega (arith, length-sha256 keeps key)) in
        rw
          (
            long,
            hash_parts-sha256 compress256 (key ∷ []) (rw (append-nil key) fits),
            append-nil key,
            key_block-padded digest,
          )
          (refl, sized, bytes)
    | inr short ↦
        let (sized, bytes) = padded_key_lem key h (ground arith) in
        rw (short, key_block-padded key) (refl, sized, bytes)
  ]

  hmac_sha256_into-hmac :
      KeepsEight
      → (key : Bytes) (parts : List Bytes) → All IsByte key
      → length key * 8 < 2 ^ 64
      → (length (concat parts) + 64) * 8 < 2 ^ 64
      → (scratch : HmacSha256Scratch) × (hmac_sha256_into compress256 key parts
          ≡ some (scratch, hmac key (concat parts)))
  unfolding hmac_sha256_into
  hmac_sha256_into-hmac keeps key parts h fits_key fits =
      let (found, sized, bytes) = key_block_of-block_key keeps key h fits_key in
      let inner = xor_all 0x36 (block_key key) in
      let outer = xor_all 0x5c (block_key key) in
      let inner_digest = sha256 compress256 (inner ++ concat parts) in
      let first = hash_parts-sha256 compress256 (inner ∷ parts) (
        omega (
          arith,
          sized,
          length-append inner (concat parts),
          length-map (λ (b : ℕ). bit_xor b 0x36) (block_key key),
        )) in
      let second = hash_parts-sha256 compress256 (outer ∷ inner_digest ∷ []) (
        rw (append-nil inner_digest) (
          omega (
            arith,
            sized,
            length-append outer inner_digest,
            length-map (λ (b : ℕ). bit_xor b 0x5c) (block_key key),
            length-sha256 keeps (inner ++ concat parts),
          ))) in
      (
        record { key_block = outer; inner_digest = inner_digest },
        rw (found, first, remask_bytes (block_key key) bytes, second, append-nil inner_digest),
      )

  -- On success the output is the HMAC of the concatenated parts; on an error of the closure it is
  -- zero; the scratch memory is zero on both.
  pub hmac_sha256_with_scratch-hmac :
      KeepsEight
      → (key : Bytes) (parts : List Bytes) (after_compute : Result (Unit {0}) (Unit {0}))
      → All IsByte key
      → length key * 8 < 2 ^ 64
      → (length (concat parts) + 64) * 8 < 2 ^ 64
      → hmac_sha256_with_scratch compress256 key parts after_compute
        ≡ some (
          after_compute,
          guarded_output compress256 after_compute (hmac key (concat parts)),
          wiped,
        )
  unfolding hmac_sha256_with_scratch
  hmac_sha256_with_scratch-hmac keeps key parts after_compute h fits_key fits =
      let (scratch, e) = hmac_sha256_into-hmac keeps key parts h fits_key fits in rw e

  -- For a salt of bytes, and a salt, key material and info that are short enough for the lengths of
  -- the digests, the output is the HKDF of the key material where the closure succeeds, and zero where
  -- it fails; the result is that of the closure, and the scratch memory is wiped in both cases.
  pub hkdf_sha256_32_with_scratch-hkdf :
      KeepsEight
      → (input_key_material salt info : Bytes) (after_extract : Result (Unit {0}) (Unit {0}))
      → All IsByte salt
      → length salt * 8 < 2 ^ 64
      → (length input_key_material + 64) * 8 < 2 ^ 64
      → (length info + 65) * 8 < 2 ^ 64
      → hkdf_sha256_32_with_scratch compress256 input_key_material salt info after_extract
        ≡ some (
          after_extract,
          guarded_output compress256 after_extract (hkdf input_key_material salt info),
          hkdf_wiped,
        )
  unfolding hkdf_sha256_32_with_scratch
  hkdf_sha256_32_with_scratch-hkdf keeps input_key_material salt info (err u) h fits_salt fits_key
        fits =
      let (scratch, e) =
        hmac_sha256_into-hmac keeps salt (input_key_material ∷ []) h fits_salt
          (rw (append-nil input_key_material) fits_key) in
      rw e
  hkdf_sha256_32_with_scratch-hkdf keeps input_key_material salt info (ok u) h fits_salt fits_key
        fits =
      let prk = hmac salt input_key_material in
      let (scratch, e) =
        hmac_sha256_into-hmac keeps salt (input_key_material ∷ []) h fits_salt
          (rw (append-nil input_key_material) fits_key) in
      let (scratch', f) =
        hmac_sha256_into-hmac keeps prk (info ∷ (1 ∷ []) ∷ []) (sha256-IsByte _)
          (omega (
            arith,
            length-sha256 keeps (
                xor_all 0x5c (block_key salt)
                ++ sha256 compress256 (xor_all 0x36 (block_key salt) ++ input_key_material)),
          ))
          (omega (arith, length-append info (1 ∷ []))) in
      rw (e, append-nil input_key_material, f)
