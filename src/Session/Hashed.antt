-- ===== src/Session/Hashed.antt =====
-- src/definitions/session_crypto.rs: `SecureSha256` computes the SHA-256 of its input, however the
-- input is divided among the calls of `update`.
use mathlib.Core.Path.{subst}
use mathlib.Core.List.{append-nil, append_assoc}
use isomdl_elevenid.Common.{
  ℕ, zero, suc, ◌+◌, ◌-◌, ◌≤◌, ◌<◌, ◌^◌, min, ◌≡◌, refl, sym, ap, ◌∙◌, ◌⊎◌, inl, inr, List, [], ◌∷◌,
  ◌++◌, All, All-append, some, arith, Bool-cases, lt→ltb, length, take, drop, length-append,
}
use isomdl_elevenid.Common.Order.{◌==◌, nat_ord}
use isomdl_elevenid.Session.{Bytes}
use isomdl_elevenid.Session.Sha256.{
  Words, SecureSha256, copy_at, sha256_initial_state, compress_buffer, fill_buffer, compress_blocks,
  keep_rest, absorb, update,
}
use isomdl_elevenid.Session.Blocks.{
  concat, IsBlock, compress_all, compress_all-append, concat-append, take-append-drop,
  length-take_le, take-all,
}
use isomdl_elevenid.Session.Absorbed.{
  Absorbed, compress_buffer-Absorbed, compress_blocks_lem, length-copy_at, take-copy_at,
}

pub drop-all : (xs : Bytes) (n : ℕ) → length xs ≤ n → drop n xs ≡ []
drop-all [] zero h = refl
drop-all [] (suc n) h = refl
drop-all (x ∷ xs) zero h = absurd (omega arith)
drop-all (x ∷ xs) (suc n) h = drop-all xs n (omega arith)

module _ (compress256 : Words → Bytes → Words) where
  -- The message, divided into what the state has taken in and what is left.
  abbrev pub Fills : Bytes → SecureSha256 × Bytes → Type 0
  Fills message (h, left) =
      (taken : Bytes) × (message ≡ taken ++ left)
      × Absorbed compress256 taken h
      × ((h.buffer_len ≡ 0) ⊎ (left ≡ []))

  module _ {message : Bytes} {h : SecureSha256} (a : Absorbed compress256 message h)
      (input : Bytes) where
    copied : ℕ
    copied = min (64 - h.buffer_len) (length input)

    filled : SecureSha256
    unfolding copied
    filled = record h {
      buffer = copy_at h.buffer h.buffer_len (take copied input);
      buffer_len = h.buffer_len + copied;
    }

    copied_bounds : (copied ≤ length input) × (h.buffer_len + copied ≤ 64)
    unfolding copied
    copied_bounds = ground (arith, a.room)

    length-copied : length (take copied input) ≡ copied
    length-copied = length-take_le copied input copied_bounds.0

    in_bounds : h.buffer_len + length (take copied input) ≤ length h.buffer
    in_bounds = omega (arith, length-copied, copied_bounds, a.sized)

    length-filled : length filled.buffer ≡ 64
    unfolding filled
    length-filled = length-copy_at h.buffer h.buffer_len (take copied input) in_bounds ∙ a.sized

    take-filled : take filled.buffer_len filled.buffer ≡ a.rest ++ take copied input
    unfolding filled
    take-filled =
        take-copy_at h.buffer h.buffer_len (take copied input) (h.buffer_len + copied) in_bounds
          (omega (arith, length-copied))
        ∙ ap (λ l. l ++ take copied input) a.kept

    whole_input :
        (buffer : Bytes)
        → buffer ≡ a.rest ++ take copied input
        → message ++ input ≡ (concat a.blocks ++ buffer) ++ drop copied input
    whole_input buffer e =
        rw
          (
            e,
            append_assoc (concat a.blocks) (a.rest ++ take copied input) (drop copied input),
            append_assoc a.rest (take copied input) (drop copied input),
            take-append-drop copied input,
            a.parts,
            append_assoc (concat a.blocks) a.rest input,
          )
          refl

    -- The buffer is full, and one more block.
    full-Fills :
        filled.buffer_len ≡ 64
        → Fills (message ++ input) (compress_buffer compress256 filled, drop copied input)
    unfolding compress_buffer filled
    full-Fills full =
        let whole : take 64 filled.buffer ≡ a.rest ++ take copied input =
          ap (λ (n : ℕ). take n filled.buffer) (sym full) ∙ take-filled in
        (
          concat a.blocks ++ filled.buffer,
          whole_input filled.buffer (sym (take-all 64 filled.buffer length-filled) ∙ whole),
          compress_buffer-Absorbed compress256 filled a.blocks a.aligned a.chained length-filled,
          inl refl,
        )

    -- The input ends before the buffer is full.
    short-Fills : filled.buffer_len < 64 → Fills (message ++ input) (filled, drop copied input)
    unfolding filled copied
    short-Fills short = (
      concat a.blocks ++ (a.rest ++ take copied input),
      whole_input (a.rest ++ take copied input) refl,
      record {
        blocks = a.blocks;
        rest = a.rest ++ take copied input;
        parts = refl;
        aligned = a.aligned;
        chained = a.chained;
        kept = take-filled;
        counted = omega (arith, length-append a.rest (take copied input), length-copied, a.counted);
        room = short;
        sized = length-filled;
      },
      inr (drop-all input copied (ground arith)),
    )

  fill_buffer-Fills :
      {message : Bytes} {h : SecureSha256} (a : Absorbed compress256 message h) (input : Bytes)
      → Fills (message ++ input) (fill_buffer compress256 h input)
  unfolding fill_buffer filled copied
  fill_buffer-Fills {message} {h} a input = elim (Bool-cases (h.buffer_len == 0)) [
    | inl none_yet ↦ rw none_yet (message, refl, a, inl (ground arith))
    | inr some_bytes ↦ rw some_bytes (elim (Bool-cases ((filled a input).buffer_len == 64)) [
      | inl full ↦ rw full (full-Fills a input (ground arith))
      | inr short ↦ rw short (short-Fills a input (ground (arith, copied_bounds a input)))
    ])
  ]

  -- With an empty buffer, what the loop leaves goes to the buffer.
  from_empty :
      (message : Bytes) (h : SecureSha256) (blocks : List Bytes) (words : Words) (left : Bytes)
      → (a : Absorbed compress256 message h) → h.buffer_len ≡ 0
      → All IsBlock blocks
      → words ≡ compress_all compress256 h.hash_state blocks
      → length left < 64
      → Absorbed compress256
          (message ++ (concat blocks ++ left))
          (keep_rest compress256 h (words, left))
  unfolding keep_rest
  from_empty message h blocks words left a bare aligned chained short = go left short
    where
      empty_rest : (xs : Bytes) → length xs ≡ 0 → xs ≡ []
      empty_rest [] e = refl
      empty_rest (x ∷ xs) e = absurd (omega arith)

      no_rest : a.rest ≡ []
      no_rest = empty_rest a.rest (omega (arith, a.counted))

      all_blocks : All IsBlock (a.blocks ++ blocks)
      all_blocks = All-append IsBlock a.blocks blocks a.aligned aligned

      all_chained : words ≡ compress_all compress256 sha256_initial_state (a.blocks ++ blocks)
      all_chained =
          rw (compress_all-append compress256 sha256_initial_state a.blocks blocks, ← a.chained)
            chained

      all_parts :
          (xs : Bytes) → message ++ (concat blocks ++ xs) ≡ concat (a.blocks ++ blocks) ++ xs
      all_parts xs =
          rw
            (
              a.parts,
              no_rest,
              append-nil (concat a.blocks),
              concat-append a.blocks blocks,
              append_assoc (concat a.blocks) (concat blocks) xs,
            )
            refl

      go :
          (xs : Bytes)
          → length xs < 64
          → Absorbed compress256
              (message ++ (concat blocks ++ xs))
              (keep_rest compress256 h (words, xs))
      go [] s = record {
        blocks = a.blocks ++ blocks;
        rest = [];
        parts = all_parts [];
        aligned = all_blocks;
        chained = all_chained;
        kept = rw bare refl;
        counted = sym bare;
        room = a.room;
        sized = a.sized;
      }
      go (x ∷ xs) s = record {
        blocks = a.blocks ++ blocks;
        rest = x ∷ xs;
        parts = all_parts (x ∷ xs);
        aligned = all_blocks;
        chained = all_chained;
        kept =
            take-copy_at h.buffer 0 (x ∷ xs) (length (x ∷ xs)) (omega (arith, a.sized))
              (omega arith);
        counted = refl;
        room = s;
        sized = length-copy_at h.buffer 0 (x ∷ xs) (omega (arith, a.sized)) ∙ a.sized;
      }

  -- What is left of the input behind a filled buffer is taken in.
  absorb-Absorbed :
      {message : Bytes} (h : SecureSha256) (left : Bytes)
      → Fills message (h, left)
      → Absorbed compress256 message (absorb compress256 (h, left))
  unfolding compress_blocks keep_rest
  absorb-Absorbed {message} h left (taken, parts, a, inl bare) =
      let (blocks, aligned, chained, whole, short) =
        compress_blocks_lem compress256 (length left) h.hash_state left (omega arith) in
      subst (λ m. Absorbed compress256 m (absorb compress256 (h, left)))
        (sym (parts ∙ ap (λ l. taken ++ l) whole))
        (from_empty taken h blocks _ _ a bare aligned chained short)
  absorb-Absorbed {message} h left (taken, parts, a, inr done) =
      let same : message ≡ taken = parts ∙ ap (λ l. taken ++ l) done ∙ append-nil taken in
      subst (λ l. Absorbed compress256 message (absorb compress256 (h, l))) (sym done)
        (unchanged (subst (λ m. Absorbed compress256 m h) (sym same) a))
    where
      unchanged :
          Absorbed compress256 message h → Absorbed compress256 message (absorb compress256 (h, []))
      unchanged b = b

  -- Only `update` itself counts the bytes.
  length_kept :
      (h : SecureSha256) (input : Bytes)
      → (absorb compress256 (fill_buffer compress256 h input)).message_len ≡ h.message_len
  unfolding keep_rest fill_buffer compress_buffer
  length_kept h input = ground arith

  -- `update` takes in its input, as long as the length is counted in 64 bits.
  pub update-Absorbed :
      {message : Bytes} {h : SecureSha256}
      → Absorbed compress256 message h
      → h.message_len ≡ length message
      → (input : Bytes) → length (message ++ input) < 2 ^ 64
      → (h' : SecureSha256) × (update compress256 h input ≡ some h')
        × Absorbed compress256 (message ++ input) h'
        × (h'.message_len ≡ length (message ++ input))
  unfolding update
  update-Absorbed {message} {h} a measured input fits =
      let counted = record h { message_len = h.message_len + length input } in
      let total : h.message_len + length input ≡ length (message ++ input) =
        omega (arith, length-append message input) in
      let fills = fill_buffer-Fills (again (h.message_len + length input)) input in
      (
        absorb compress256 (fill_buffer compress256 counted input),
        rw (lt→ltb (h.message_len + length input) (2 ^ 64) (omega arith)) refl,
        absorb-Absorbed _ _ fills,
        length_kept counted input ∙ total,
      )
    where
      again : (n : ℕ) → Absorbed compress256 message (record h { message_len = n })
      again n = record {
        blocks = a.blocks;
        rest = a.rest;
        parts = a.parts;
        aligned = a.aligned;
        chained = a.chained;
        kept = a.kept;
        counted = a.counted;
        room = a.room;
        sized = a.sized;
      }
