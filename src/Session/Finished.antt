-- ===== src/Session/Finished.antt =====
-- src/definitions/session_crypto.rs: the padding of `finish`, and the digest of a message that is given
-- in parts.
use mathlib.Core.List.{append-nil, append_assoc}
use isomdl_elevenid.Common.{
  ℕ, zero, suc, ◌+◌, ◌-◌, ◌*◌, ◌/◌, ◌≤◌, ◌<◌, ◌^◌, ◌≡◌, refl, sym, ap, ◌∙◌, inl, inr, List, [], ◌∷◌,
  ◌++◌, All, All-append, some, arith, Bool-cases, ltb, lt→ltb, length, take, replicate,
  length-append, length-replicate,
}
use isomdl_elevenid.Session.{Bytes}
use isomdl_elevenid.Session.Sha256.{
  Words, SecureSha256, copy_at, sha256_initial_state, compress_buffer, finish, mark_end, make_room,
  write_length, be_bytes64, words_to_bytes,
}
use isomdl_elevenid.Session.Blocks.{
  concat, IsBlock, compress_all, compress_all-append, concat-append, padded, padding, zeros, sha256,
  chunks, chunks-concat, length-concat, take-all,
}
use isomdl_elevenid.Session.Absorbed.{Absorbed, length-copy_at, take-copy_at}

-- A write up to the end of a block.
write_end :
    (buffer : Bytes) (at : ℕ) (bytes : Bytes)
    → length buffer ≡ 64
    → at + length bytes ≡ 64
    → copy_at buffer at bytes ≡ take at buffer ++ bytes
write_end buffer at bytes h e =
    sym (take-all 64 (copy_at buffer at bytes) (length-copy_at buffer at bytes (omega arith) ∙ h))
    ∙ take-copy_at buffer at bytes 64 (omega arith) (sym e)

replicate-append : (m n : ℕ) → replicate {A = ℕ} (m + n) 0 ≡ replicate m 0 ++ replicate n 0
replicate-append zero n = let e : 0 + n ≡ n = omega arith in rw e
replicate-append (suc m) n =
    let e : suc m + n ≡ suc (m + n) = omega arith in rw (e, replicate-append m n)

module _ (compress256 : Words → Bytes → Words) where
  -- The reference for a message whose padding is known block by block.
  sha256_of_blocks :
      (message : Bytes) (blocks : List Bytes)
      → All IsBlock blocks
      → padded message ≡ concat blocks
      → sha256 compress256 message
        ≡ words_to_bytes (compress_all compress256 sha256_initial_state blocks)
  unfolding sha256
  sha256_of_blocks message blocks aligned e =
      let count : length (padded message) / 64 ≡ length blocks =
        omega (arith, length-concat blocks aligned, ap length e) in
      let split : chunks (length (padded message) / 64) (padded message) ≡ blocks =
        ap (λ (n : ℕ). chunks n (padded message)) count
        ∙ ap (chunks (length blocks)) e
        ∙ chunks-concat blocks aligned in
      ap (λ bs. words_to_bytes (compress_all compress256 sha256_initial_state bs)) split

  module _ {message : Bytes} {h : SecureSha256} (a : Absorbed compress256 message h) where
    bits : Bytes
    bits = be_bytes64 (length message * 8)

    length-bits : length bits ≡ 8
    unfolding bits
    length-bits = refl

    length-message : length message ≡ length a.blocks * 64 + h.buffer_len
    length-message = omega (
      arith,
      ap length a.parts,
      length-append (concat a.blocks) a.rest,
      length-concat a.blocks a.aligned,
      a.counted,
    )

    marked : Bytes
    marked = copy_at h.buffer h.buffer_len (0x80 ∷ [])

    length-marked : length marked ≡ 64
    unfolding marked
    length-marked =
        length-copy_at h.buffer h.buffer_len (0x80 ∷ []) (omega (arith, a.room, a.sized)) ∙ a.sized

    take-marked : take (h.buffer_len + 1) marked ≡ a.rest ++ (0x80 ∷ [])
    unfolding marked
    take-marked =
        take-copy_at h.buffer h.buffer_len (0x80 ∷ []) (h.buffer_len + 1)
          (omega (arith, a.room, a.sized)) (omega arith)
        ∙ ap (λ l. l ++ (0x80 ∷ [])) a.kept

    -- The block that holds the length, where the buffer has room for it.
    last_block : Bytes → ℕ → Bytes
    last_block buffer at = copy_at (copy_at buffer at (replicate (56 - at) 0)) 56 bits

    last_block_lem :
        (buffer : Bytes) (at : ℕ)
        → length buffer ≡ 64
        → at ≤ 56
        → last_block buffer at ≡ take at buffer ++ (replicate (56 - at) 0 ++ bits)
    unfolding last_block
    last_block_lem buffer at sized room =
        let zs : Bytes = replicate (56 - at) 0 in
        let lz : length zs ≡ 56 - at = length-replicate (56 - at) 0 in
        write_end (copy_at buffer at zs) 56 bits (length-copy_at buffer at zs (omega arith) ∙ sized)
          (omega (arith, length-bits))
        ∙ ap (λ l. l ++ bits) (take-copy_at buffer at zs 56 (omega arith) (omega arith))
        ∙ append_assoc (take at buffer) zs bits

    padded_parts :
        (n : ℕ)
        → zeros (length message) ≡ n
        → padded message ≡ concat a.blocks ++ ((a.rest ++ (0x80 ∷ [])) ++ (replicate n 0 ++ bits))
    unfolding bits
    padded_parts n e =
        rw (← e, append_assoc a.rest (0x80 ∷ []) (replicate (zeros (length message)) 0 ++ bits))
          (ap (λ l. l ++ padding (length message)) a.parts
            ∙ append_assoc (concat a.blocks) a.rest (padding (length message)))

    last_block-IsBlock :
        (buffer : Bytes) (at : ℕ) → length buffer ≡ 64 → at ≤ 56 → IsBlock (last_block buffer at)
    unfolding last_block
    last_block-IsBlock buffer at sized room =
        let zs : Bytes = replicate (56 - at) 0 in
        let lz : length zs ≡ 56 - at = length-replicate (56 - at) 0 in
        let sized' : length (copy_at buffer at zs) ≡ 64 =
          length-copy_at buffer at zs (omega arith) ∙ sized in
        length-copy_at (copy_at buffer at zs) 56 bits (omega (arith, length-bits)) ∙ sized'

    -- The digest, where the blocks behind those compressed hold the rest and the padding.
    closing :
        (n : ℕ) (blocks : List Bytes)
        → zeros (length message) ≡ n
        → All IsBlock blocks
        → concat blocks ≡ (a.rest ++ (0x80 ∷ [])) ++ (replicate n 0 ++ bits)
        → words_to_bytes (compress_all compress256 h.hash_state blocks) ≡ sha256 compress256 message
    closing n blocks e aligned whole = sym (
        sha256_of_blocks message (a.blocks ++ blocks)
          (All-append IsBlock a.blocks blocks a.aligned aligned)
          (padded_parts n e
            ∙ ap (λ l. concat a.blocks ++ l) (sym whole)
            ∙ sym (concat-append a.blocks blocks))
        ∙ ap words_to_bytes (
            compress_all-append compress256 sha256_initial_state a.blocks blocks
            ∙ ap (λ w. compress_all compress256 w blocks) (sym a.chained)))

    -- There is room for the length: one more block.
    one_block_lem :
        h.buffer_len < 56
        → words_to_bytes (compress256 h.hash_state (last_block marked (h.buffer_len + 1)))
          ≡ sha256 compress256 message
    one_block_lem short =
        closing (56 - (h.buffer_len + 1)) (last_block marked (h.buffer_len + 1) ∷ [])
          (omega (arith, length-message))
          (last_block-IsBlock marked (h.buffer_len + 1) length-marked (omega arith), tt)
          (append-nil (last_block marked (h.buffer_len + 1))
            ∙ last_block_lem marked (h.buffer_len + 1) length-marked (omega arith)
            ∙ ap (λ l. l ++ (replicate (56 - (h.buffer_len + 1)) 0 ++ bits)) take-marked)

    -- There is none: the block is filled with zeros, and one more holds the length.
    filled_block : Bytes
    filled_block = copy_at marked (h.buffer_len + 1) (replicate (64 - (h.buffer_len + 1)) 0)

    filled_block_lem :
        filled_block ≡ (a.rest ++ (0x80 ∷ [])) ++ replicate (64 - (h.buffer_len + 1)) 0
    unfolding filled_block
    filled_block_lem =
        write_end marked (h.buffer_len + 1) (replicate (64 - (h.buffer_len + 1)) 0) length-marked
          (omega (arith, a.room, length-replicate {A = ℕ} (64 - (h.buffer_len + 1)) 0))
        ∙ ap (λ l. l ++ replicate (64 - (h.buffer_len + 1)) 0) take-marked

    filled_block-IsBlock : IsBlock filled_block
    unfolding filled_block
    filled_block-IsBlock =
        length-copy_at marked (h.buffer_len + 1) (replicate (64 - (h.buffer_len + 1)) 0) (
          omega
            (arith, a.room, length-marked, length-replicate {A = ℕ} (64 - (h.buffer_len + 1)) 0))
        ∙ length-marked

    two_blocks_lem :
        56 ≤ h.buffer_len
        → words_to_bytes
            (compress256 (compress256 h.hash_state filled_block) (last_block (replicate 64 0) 0))
          ≡ sha256 compress256 message
    two_blocks_lem long =
        let n : ℕ = 64 - (h.buffer_len + 1) in
        closing (n + 56) (filled_block ∷ last_block (replicate 64 0) 0 ∷ [])
          (omega (arith, length-message, a.room))
          (filled_block-IsBlock, (last_block-IsBlock (replicate 64 0) 0 refl (omega arith), tt))
          (rw
            (
              append-nil (last_block (replicate 64 0) 0),
              last_block_lem (replicate 64 0) 0 refl (omega arith),
              filled_block_lem,
              replicate-append n 56,
            )
            (append_assoc (a.rest ++ (0x80 ∷ [])) (replicate n 0) (replicate 56 0 ++ bits)
              ∙ ap (λ l. (a.rest ++ (0x80 ∷ [])) ++ l)
                  (sym (append_assoc (replicate n 0) (replicate 56 0) bits))))

  -- The digest that `finish` computes from the buffer and the length of the message.
  digest_of : SecureSha256 → ℕ → Bytes
  digest_of h len =
      words_to_bytes
        (write_length compress256 (len * 8)
          (make_room compress256 (mark_end compress256 h))).hash_state

  digest_of_lem :
      {message : Bytes} {h : SecureSha256}
      → Absorbed compress256 message h
      → digest_of h (length message) ≡ sha256 compress256 message
  unfolding digest_of mark_end make_room write_length compress_buffer marked last_block bits
      filled_block
  digest_of_lem {message} {h} a = elim (Bool-cases (ltb 56 (h.buffer_len + 1))) [
    | inl long ↦ rw long (two_blocks_lem a (ground arith))
    | inr short ↦ rw short (one_block_lem a (ground arith))
  ]

  pub finish-sha256 :
      {message : Bytes} {h : SecureSha256}
      → Absorbed compress256 message h
      → h.message_len ≡ length message
      → length message * 8 < 2 ^ 64
      → finish compress256 h ≡ some (sha256 compress256 message)
  unfolding finish digest_of
  finish-sha256 {message} {h} a measured fits =
      rw (lt→ltb (h.message_len * 8) (2 ^ 64) (omega arith))
        (ap (λ (n : ℕ). some (digest_of h n)) measured ∙ ap some (digest_of_lem a))
