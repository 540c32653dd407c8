-- ===== src/Session/Channel.antt =====
-- src/definitions/session.rs: the two ends of a session stay in step.
use isomdl_elevenid.Common.{
  ℕ, ◌+◌, ◌≡◌, Bool, List, [], ◌∷◌, arith, Result, ok, err, ok-injective, >>=-eq-ok, ◌>>=◌,
  Option-cases, inl, inr,
}
use isomdl_elevenid.Session.Nonce.{get_initialization_vector-cases}
use isomdl_elevenid.Session.{
  Bytes, AeadError, Aead, OpensSealed, keep_or_restore, encrypt, decrypt, encrypt_with_backend,
  decrypt_with_backend,
}

module _ {Key : Type 0} (lib : Aead Key) (session_key : Bytes) where
  backend_round_trip :
      OpensSealed lib
      → (nonce plaintext ciphertext : Bytes)
      → encrypt_with_backend lib session_key nonce plaintext ≡ ok ciphertext
      → decrypt_with_backend lib session_key nonce ciphertext ≡ ok plaintext
  unfolding encrypt_with_backend decrypt_with_backend
  backend_round_trip opens nonce plaintext ciphertext h =
      elim (Option-cases (lib.unbound_key session_key)) [
        | inl e ↦ absurd (cc (rw e at h))
        | inr (key, e) ↦ elim (Option-cases (lib.seal_in_place key nonce plaintext)) [
          | inl f ↦ absurd (cc (rw (e, f) at h))
          | inr (sealed, f) ↦
              let same : sealed ≡ ciphertext = ok-injective _ _ (rw (e, f) at h) in
              let (buffer, len, opened, plain) =
                opens key nonce plaintext ciphertext (ground arith) in
              rw (e, opened, plain)
        ]
      ]

  keep_or_restore-eq-ok :
      (o : Result AeadError Bytes) (a : Bytes) (c d c' : ℕ)
      → keep_or_restore o c d ≡ (ok a, c')
      → (o ≡ ok a) × (d ≡ c')
  keep_or_restore-eq-ok (ok b) a c d c' h = ground arith
  keep_or_restore-eq-ok (err e) a c d c' h = absurd (ground arith)

  -- What one end encrypted under a count, the other decrypts under the same count, and both counts
  -- are then equal.
  pub decrypt-encrypt :
      OpensSealed lib
      → (plaintext ciphertext : Bytes) (c c' : ℕ) (reader : Bool)
      → encrypt lib session_key plaintext c reader ≡ (ok ciphertext, c')
      → decrypt lib session_key ciphertext c reader ≡ (ok plaintext, c')
  unfolding encrypt decrypt
  decrypt-encrypt opens plaintext ciphertext c c' reader h =
      elim (get_initialization_vector-cases c reader) [
        | inl (nonce, e) ↦
            let (sealed, same) = keep_or_restore-eq-ok _ ciphertext c (c + 1) c' (rw e at h) in
            rw (e, backend_round_trip opens nonce plaintext ciphertext sealed, same)
        | inr e ↦ absurd (ground arith)
      ]

  -- Sealing, then opening, a sequence of messages.
  unfoldable pub encrypt_all : Bool → List Bytes → ℕ → Result AeadError (List Bytes)
  encrypt_all reader [] c = ok []
  encrypt_all reader (plaintext ∷ ps) c =
      let (sent, c') = encrypt lib session_key plaintext c reader in
      let rest = encrypt_all reader ps c' in do ciphertext ← sent; cs ← rest; ok (ciphertext ∷ cs)

  unfoldable pub decrypt_all : Bool → List Bytes → ℕ → Result AeadError (List Bytes)
  decrypt_all reader [] c = ok []
  decrypt_all reader (ciphertext ∷ cs) c =
      let (received, c') = decrypt lib session_key ciphertext c reader in
      let rest = decrypt_all reader cs c' in do plaintext ← received; ps ← rest; ok (plaintext ∷ ps)

  pub decrypt_all-encrypt_all :
      OpensSealed lib
      → (reader : Bool) (ps cs : List Bytes) (c : ℕ) → encrypt_all reader ps c ≡ ok cs
      → decrypt_all reader cs c ≡ ok ps
  unfolding encrypt_all decrypt_all
  decrypt_all-encrypt_all opens reader [] cs c h =
      let same : [] ≡ cs = ok-injective _ _ h in rw (← same)
  decrypt_all-encrypt_all opens reader (p ∷ ps) cs c h =
      let (ciphertext, sealed, h₁) = >>=-eq-ok (encrypt lib session_key p c reader).0 _ h in
      let c' = (encrypt lib session_key p c reader).1 in
      let (rest, sealed_rest, h₂) = >>=-eq-ok (encrypt_all reader ps c') _ h₁ in
      let same : ciphertext ∷ rest ≡ cs = ok-injective _ _ h₂ in
      let opened = decrypt-encrypt opens p ciphertext c c' reader (λ i. (sealed i, c')) in
      rw (← same, opened, decrypt_all-encrypt_all opens reader ps rest c' sealed_rest)
