-- ===== src/Session/Absorbed.antt =====
-- src/definitions/session_crypto.rs: the state of a running SHA-256 as the message that it has taken in.
use mathlib.Core.List.{append-nil, append_assoc}
use isomdl_elevenid.Common.{
  ℕ, zero, suc, ◌+◌, ◌≤◌, ◌<◌, ◌≡◌, refl, sym, ap, ◌∙◌, inl, inr, List, [], ◌∷◌, ◌++◌, All,
  All-append, arith, Bool-cases, leb, length, take, drop, length-append,
}
use isomdl_elevenid.Common.Order.{nat_ord}
use isomdl_elevenid.Session.{Bytes}
use isomdl_elevenid.Session.Sha256.{
  Words, SecureSha256, copy_at, sha256_initial_state, sha256_new, compress_buffer, compress_blocks,
}
use isomdl_elevenid.Session.Blocks.{
  concat, IsBlock, compress_all, compress_all-append, concat-append, take-append, take-append-drop,
  length-take_le, length-drop,
}

module _ {ℓ} {A : Type ℓ} where
  pub length-insert :
      (xs ys zs : List A) → length (xs ++ (ys ++ zs)) ≡ length xs + length ys + length zs
  length-insert xs ys zs = omega (arith, length-append xs (ys ++ zs), length-append ys zs)

-- A write inside the buffer keeps its length.
pub length-copy_at :
    (buffer : Bytes) (at : ℕ) (bytes : Bytes)
    → at + length bytes ≤ length buffer
    → length (copy_at buffer at bytes) ≡ length buffer
length-copy_at buffer at bytes h = omega (
  arith,
  length-insert (take at buffer) bytes (drop (at + length bytes) buffer),
  length-take_le at buffer,
  length-drop (at + length bytes) buffer,
)

-- Behind a write, the bytes up to its end are those before it and those written.
pub take-copy_at :
    (buffer : Bytes) (at : ℕ) (bytes : Bytes) (n : ℕ)
    → at + length bytes ≤ length buffer
    → n ≡ at + length bytes
    → take n (copy_at buffer at bytes) ≡ take at buffer ++ bytes
take-copy_at buffer at bytes n h e =
    let tail = drop (at + length bytes) buffer in
    rw (← append_assoc (take at buffer) bytes tail) (
      take-append (take at buffer ++ bytes) tail n
        (omega (arith, length-append (take at buffer) bytes, length-take_le at buffer)))

module _ (compress256 : Words → Bytes → Words) where
  -- The state has taken in the message: the whole blocks are compressed, the rest is in the buffer.
  pub record Absorbed (message : Bytes) (h : SecureSha256) : Type 0 where
    pub blocks : List Bytes
    pub rest : Bytes
    pub parts : message ≡ concat blocks ++ rest
    pub aligned : All IsBlock blocks
    pub chained : h.hash_state ≡ compress_all compress256 sha256_initial_state blocks
    pub kept : take h.buffer_len h.buffer ≡ rest
    pub counted : length rest ≡ h.buffer_len
    pub room : h.buffer_len < 64
    pub sized : length h.buffer ≡ 64

  pub sha256_new-Absorbed : Absorbed [] sha256_new
  unfolding sha256_new
  sha256_new-Absorbed = record {
    blocks = [];
    rest = [];
    parts = refl;
    aligned = tt;
    chained = refl;
    kept = refl;
    counted = refl;
    room = omega arith;
    sized = refl;
  }

  -- A full buffer is one more block.
  pub compress_buffer-Absorbed :
      (h : SecureSha256) (blocks : List Bytes)
      → All IsBlock blocks
      → h.hash_state ≡ compress_all compress256 sha256_initial_state blocks
      → length h.buffer ≡ 64
      → Absorbed (concat blocks ++ h.buffer) (compress_buffer compress256 h)
  unfolding compress_buffer
  compress_buffer-Absorbed h blocks aligned chained sized = record {
    blocks = blocks ++ (h.buffer ∷ []);
    rest = [];
    parts =
        rw
          (
            append-nil (concat (blocks ++ (h.buffer ∷ []))),
            concat-append blocks (h.buffer ∷ []),
            append-nil h.buffer,
          )
          refl;
    aligned = All-append IsBlock blocks (h.buffer ∷ []) aligned (sized, tt);
    chained =
        rw (compress_all-append compress256 sha256_initial_state blocks (h.buffer ∷ []), chained)
          refl;
    kept = refl;
    counted = refl;
    room = omega arith;
    sized = refl;
  }

  -- The loop compresses the whole blocks of its input, and leaves fewer than 64 bytes.
  pub compress_blocks_lem :
      (fuel : ℕ) (words : Words) (input : Bytes)
      → length input ≤ fuel
      → (blocks : List Bytes) × (All IsBlock blocks)
        × ((compress_blocks compress256 fuel words input).0 ≡ compress_all compress256 words blocks)
        × (input ≡ concat blocks ++ (compress_blocks compress256 fuel words input).1)
        × (length (compress_blocks compress256 fuel words input).1 < 64)
  unfolding compress_blocks
  compress_blocks_lem zero words [] h = ([], tt, refl, refl, omega arith)
  compress_blocks_lem zero words (b ∷ bs) h = absurd (omega arith)
  compress_blocks_lem (suc fuel) words input h = elim (Bool-cases (leb 64 (length input))) [
    | inl long ↦
        let (blocks, aligned, chained, whole, short) =
          compress_blocks_lem fuel (compress256 words (take 64 input)) (drop 64 input)
            (ground (arith, length-drop 64 input)) in
        rw long (
          take 64 input ∷ blocks,
          (length-take_le 64 input (ground arith), aligned),
          chained,
          sym (take-append-drop 64 input)
              ∙ ap (λ l. take 64 input ++ l) whole
              ∙ sym (append_assoc (take 64 input) (concat blocks) _),
          short,
        )
    | inr few ↦ rw few ([], tt, refl, refl, ground arith)
  ]
