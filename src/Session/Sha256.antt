-- ===== src/Session/Sha256.antt =====
-- src/definitions/session_crypto.rs: the SHA-256 of a session, which buffers its input in blocks of 64
-- bytes. `compress256` of the crate sha2 is a parameter. A panic on an overflow is `none`.
use isomdl_elevenid.Common.{
  ℕ, zero, suc, ◌+◌, ◌-◌, ◌*◌, ◌/◌, ◌^◌, min, List, [], ◌∷◌, ◌++◌, Option, none, some, ltb, leb,
  if◌then◌else◌, length, take, drop, replicate,
}
use isomdl_elevenid.Common.Order.{◌==◌, nat_ord}
use isomdl_elevenid.Common.Map.{is_empty}
use isomdl_elevenid.Session.{Bytes, be_bytes32}

-- `[u32; 8]`
abbrev pub Words : Type 0
Words = List ℕ

abbrev pub sha256_block_bytes : ℕ
sha256_block_bytes = 64

abbrev pub sha256_initial_state : Words
sha256_initial_state =
    0x6a09e667 ∷ 0xbb67ae85 ∷ 0x3c6ef372 ∷ 0xa54ff53a ∷ 0x510e527f ∷ 0x9b05688c ∷ 0x1f83d9ab
    ∷ 0x5be0cd19 ∷ []

pub record SecureSha256 : Type 0 where
  pub hash_state : Words
  pub buffer : Bytes
  pub buffer_len : ℕ
  pub message_len : ℕ

-- A step that may panic, in front of the rest.
infixl 5 ◌>>=◌
abbrev pub ◌>>=◌ : {A B : Type 0} → Option A → (A → Option B) → Option B
none >>= rest = none
some a >>= rest = rest a

-- `buffer[at..at + bytes.len()].copy_from_slice(bytes)`
abbrev pub copy_at : Bytes → ℕ → Bytes → Bytes
copy_at buffer at bytes = take at buffer ++ (bytes ++ drop (at + length bytes) buffer)

-- `u64::to_be_bytes`
abbrev pub be_bytes64 : ℕ → Bytes
be_bytes64 n = be_bytes32 (n / 2 ^ 32) ++ be_bytes32 n

abbrev pub words_to_bytes : Words → Bytes
words_to_bytes [] = []
words_to_bytes (word ∷ words) = be_bytes32 word ++ words_to_bytes words

unfoldable pub sha256_new : SecureSha256
sha256_new = record {
  hash_state = sha256_initial_state;
  buffer = replicate 64 0;
  buffer_len = 0;
  message_len = 0;
}

module _ (compress256 : Words → Bytes → Words) where
  -- `zeroize` clears the buffer and its length.
  unfoldable pub compress_buffer : SecureSha256 → SecureSha256
  compress_buffer h = record h {
    hash_state = compress256 h.hash_state h.buffer;
    buffer = replicate 64 0;
    buffer_len = 0;
  }

  -- The first part of `update`: a buffer that holds bytes is filled up. The bytes that are left
  -- stand behind the new state.
  unfoldable pub fill_buffer : SecureSha256 → Bytes → SecureSha256 × Bytes
  unfolding compress_buffer
  fill_buffer h input =
      let copied = min (sha256_block_bytes - h.buffer_len) (length input) in
      let filled = record h {
        buffer = copy_at h.buffer h.buffer_len (take copied input);
        buffer_len = h.buffer_len + copied;
      } in
      if h.buffer_len == 0 then (h, input) else (
        if filled.buffer_len == sha256_block_bytes then compress_buffer filled else filled,
        drop copied input,
      )

  -- The loop of `update` over whole blocks; the length of the input is fuel enough.
  unfoldable pub compress_blocks : ℕ → Words → Bytes → Words × Bytes
  compress_blocks zero words input = (words, input)
  compress_blocks (suc fuel) words input =
      let rest =
        compress_blocks fuel (compress256 words (take sha256_block_bytes input))
          (drop sha256_block_bytes input) in
      if leb sha256_block_bytes (length input) then rest else (words, input)

  unfoldable pub keep_rest : SecureSha256 → Words × Bytes → SecureSha256
  keep_rest h (words, input) =
      if is_empty input then record h { hash_state = words } else record h {
        hash_state = words;
        buffer = copy_at h.buffer 0 input;
        buffer_len = length input;
      }

  abbrev pub absorb : SecureSha256 × Bytes → SecureSha256
  absorb (h, input) = keep_rest h (compress_blocks (length input) h.hash_state input)

  unfoldable pub update : SecureSha256 → Bytes → Option SecureSha256
  update h input =
      if ltb (h.message_len + length input) (2 ^ 64)
      then some
          (absorb (fill_buffer (record h { message_len = h.message_len + length input }) input))
      else none

  -- The padding: the byte 0x80 behind the message, then zeros up to the length.
  unfoldable pub mark_end : SecureSha256 → SecureSha256
  mark_end h = record h {
    buffer = copy_at h.buffer h.buffer_len (0x80 ∷ []);
    buffer_len = h.buffer_len + 1;
  }

  unfoldable pub make_room : SecureSha256 → SecureSha256
  make_room h =
      if ltb 56 h.buffer_len
      then compress_buffer
          (record h { buffer = copy_at h.buffer h.buffer_len (replicate (64 - h.buffer_len) 0) })
      else h

  unfoldable pub write_length : ℕ → SecureSha256 → SecureSha256
  write_length bit_len h = compress_buffer (record h {
    buffer =
        copy_at (copy_at h.buffer h.buffer_len (replicate (56 - h.buffer_len) 0)) 56
          (be_bytes64 bit_len);
    buffer_len = sha256_block_bytes;
  })

  unfoldable pub finish : SecureSha256 → Option Bytes
  unfolding mark_end make_room write_length compress_buffer
  finish h =
      if ltb (h.message_len * 8) (2 ^ 64)
      then some
          (words_to_bytes (write_length (h.message_len * 8) (make_room (mark_end h))).hash_state)
      else none

  -- A new state, one `update` for each part, and `finish`.
  unfoldable pub update_all : SecureSha256 → List Bytes → Option SecureSha256
  update_all h [] = some h
  update_all h (part ∷ parts) = do h' ← update h part; update_all h' parts

  unfoldable pub hash_parts : List Bytes → Option Bytes
  hash_parts parts = do h ← update_all sha256_new parts; finish h
