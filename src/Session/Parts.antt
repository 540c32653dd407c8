-- ===== src/Session/Parts.antt =====
-- src/definitions/session_crypto.rs: the digest of a message that is given in parts.
use mathlib.Core.Path.{subst}
use mathlib.Core.List.{append-nil, append_assoc}
use isomdl_elevenid.Common.{
  ◌*◌, ◌<◌, ◌^◌, ◌≡◌, refl, ap, ◌∙◌, List, [], ◌∷◌, ◌++◌, some, arith, length, length-append,
}
use isomdl_elevenid.Session.{Bytes}
use isomdl_elevenid.Session.Sha256.{Words, SecureSha256, sha256_new, update_all, hash_parts}
use isomdl_elevenid.Session.Blocks.{concat, sha256}
use isomdl_elevenid.Session.Absorbed.{Absorbed, sha256_new-Absorbed}
use isomdl_elevenid.Session.Hashed.{update-Absorbed}
use isomdl_elevenid.Session.Finished.{finish-sha256}

module _ (compress256 : Words → Bytes → Words) where
  update_all-Absorbed :
      (parts : List Bytes) {message : Bytes} {h : SecureSha256}
      → Absorbed compress256 message h
      → h.message_len ≡ length message
      → length (message ++ concat parts) < 2 ^ 64
      → (h' : SecureSha256) × (update_all compress256 h parts ≡ some h')
        × Absorbed compress256 (message ++ concat parts) h'
        × (h'.message_len ≡ length (message ++ concat parts))
  unfolding update_all
  update_all-Absorbed [] {message} {h} a measured fits =
      rw (append-nil message) (h, refl, a, measured)
  update_all-Absorbed (part ∷ parts) {message} {h} a measured fits =
      let (h₁, updated, a₁, measured₁) = update-Absorbed compress256 a measured part (
        omega (
          arith,
          length-append message part,
          length-append part (concat parts),
          length-append message (part ++ concat parts),
        )) in
      let (h₂, rest, a₂, measured₂) =
        update_all-Absorbed parts a₁ measured₁
          (rw (append_assoc message part (concat parts)) fits) in
      (
        h₂,
        rw updated rest,
        subst (λ m. Absorbed compress256 m h₂) (append_assoc message part (concat parts)) a₂,
        measured₂ ∙ ap length (append_assoc message part (concat parts)),
      )

  -- However a message of fewer than 2^61 bytes is divided into parts, the running digest of the
  -- parts is the SHA-256 of the message.
  pub hash_parts-sha256 :
      (parts : List Bytes)
      → length (concat parts) * 8 < 2 ^ 64
      → hash_parts compress256 parts ≡ some (sha256 compress256 (concat parts))
  unfolding hash_parts sha256_new
  hash_parts-sha256 parts fits =
      let (h, updated, a, measured) =
        update_all-Absorbed parts (sha256_new-Absorbed compress256) refl (omega arith) in
      rw updated (finish-sha256 compress256 a measured fits)
