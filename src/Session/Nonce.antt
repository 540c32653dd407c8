-- ===== src/Session/Nonce.antt =====
-- src/definitions/session.rs: the counters of a session, and that no nonce serves twice.
use isomdl_elevenid.Common.{
  ℕ, ◌+◌, ◌^◌, ◌≤◌, ◌<◌, ◌≡◌, refl, ◌≢◌, Bool, true, false, List, [], ◌∷◌, ◌++◌, arith, ◌⊎◌, Result,
  ok, err, All, ltb, inl, inr, Bool-cases, Option, none, some,
}
use isomdl_elevenid.Session.{
  Bytes, AeadError, aead_error, Aead, be_bytes32, identifier, get_initialization_vector,
  keep_or_restore, encrypt, decrypt,
}

be_bytes32-injective : (a b : ℕ) → a < 2 ^ 32 → b < 2 ^ 32 → be_bytes32 a ≡ be_bytes32 b → a ≡ b
be_bytes32-injective a b ha hb h = ground arith

-- Two calls that give the same initialization vector had the same counter and the same role, so
-- the vectors of the two directions of a session, and those of one direction, all differ.
pub get_initialization_vector-injective :
    (c d c' d' : ℕ) (r s : Bool) (nonce : Bytes)
    → get_initialization_vector c r ≡ (ok nonce, c')
    → get_initialization_vector d s ≡ (ok nonce, d')
    → (c ≡ d) × (r ≡ s)
unfolding get_initialization_vector
get_initialization_vector-injective c d c' d' true true nonce h k =
    (ground (arith, be_bytes32-injective (c + 1) (d + 1)), refl)
get_initialization_vector-injective c d c' d' false false nonce h k =
    (ground (arith, be_bytes32-injective (c + 1) (d + 1)), refl)
get_initialization_vector-injective c d c' d' true false nonce h k = absurd (ground arith)
get_initialization_vector-injective c d c' d' false true nonce h k = absurd (ground arith)

-- A call gives the vector of the next count, or fails and leaves the count.
pub get_initialization_vector-cases :
    (c : ℕ) (reader : Bool)
    → ((nonce : Bytes) × (get_initialization_vector c reader ≡ (ok nonce, c + 1)))
      ⊎ (get_initialization_vector c reader ≡ (err aead_error, c))
unfolding get_initialization_vector
get_initialization_vector-cases c reader = elim (Bool-cases (ltb (c + 1) (2 ^ 32))) [
  | inl h ↦ inl (identifier reader ++ be_bytes32 (c + 1), rw h)
  | inr h ↦ inr (rw h)
]

module _ {Key : Type 0} (lib : Aead Key) (session_key : Bytes) where
  -- A step of a counter: one up on success, and as before on an error.
  abbrev pub CounterStep : ℕ → Result AeadError Bytes × ℕ → Type 0
  CounterStep c (ok _, c') = (c' ≡ c + 1) × (c' < 2 ^ 32)
  CounterStep c (err _, c') = c' ≡ c

  keep_or_restore-CounterStep :
      (c : ℕ) (o : Result AeadError Bytes)
      → c + 1 < 2 ^ 32
      → CounterStep c (keep_or_restore o c (c + 1))
  keep_or_restore-CounterStep c (ok a) h = (refl, h)
  keep_or_restore-CounterStep c (err e) h = refl

  -- Encryption and decryption alike advance the message counter by exactly one when they succeed,
  -- and leave it as it was when they fail; no count ever reaches 2 ^ 32, so a counter at its maximum fails.
  pub encrypt-decrypt-CounterStep :
      (message : Bytes) (c : ℕ) (reader : Bool)
      → CounterStep c (encrypt lib session_key message c reader)
        × CounterStep c (decrypt lib session_key message c reader)
  unfolding encrypt decrypt get_initialization_vector
  encrypt-decrypt-CounterStep message c reader = elim (Bool-cases (ltb (c + 1) (2 ^ 32))) [
    | inl h ↦ rw h (
      keep_or_restore-CounterStep c _ (ground arith),
      keep_or_restore-CounterStep c _ (ground arith),
    )
    | inr h ↦ rw h (refl, refl)
  ]

  -- The backend with a ciphertext that shows the nonce it was called with.
  abbrev pub recording : Aead Key
  recording = record {
    unbound_key = lib.unbound_key;
    seal_in_place = λ key nonce plaintext. shown nonce (lib.seal_in_place key nonce plaintext);
    open_in_place = lib.open_in_place;
  }
    where
      shown : Bytes → Option Bytes → Option Bytes
      shown nonce none = none
      shown nonce (some ciphertext) = some nonce

  abbrev shown_nonce : Result AeadError Bytes → Bytes
  shown_nonce (ok nonce) = nonce
  shown_nonce (err e) = []

  -- The nonces with which the backend is called to seal a sequence of messages, one for each message
  -- that succeeds.
  abbrev logged : Result AeadError Bytes → Bytes → List Bytes → List Bytes
  logged (ok _) nonce log = nonce ∷ log
  logged (err _) nonce log = log

  unfoldable pub sent_nonces : Bool → List Bytes → ℕ → List Bytes
  sent_nonces reader [] c = []
  sent_nonces reader (plaintext ∷ ps) c =
      let (sent, c') = encrypt lib session_key plaintext c reader in
      let rest = sent_nonces reader ps c' in
      let recorded = encrypt recording session_key plaintext c reader in
      logged sent (shown_nonce recorded.0) rest

  -- The nonce of a count that is still to come.
  abbrev IsLater : ℕ → Bool → Bytes → Type 0
  IsLater c reader nonce =
      (d : ℕ) × (c ≤ d) × (get_initialization_vector d reader ≡ (ok nonce, d + 1))

  abbrev pub Distinct : List Bytes → Type 0
  Distinct [] = Unit
  Distinct (n ∷ ns) = All (λ m. m ≢ n) ns × Distinct ns

  -- What one message adds to the log: the vector of its count where it is sealed, and nothing else.
  data Logs (reader : Bool) (ps : List Bytes) (c : ℕ) : List Bytes → Type 0 where
    sealed :
        (nonce : Bytes)
        → get_initialization_vector c reader ≡ (ok nonce, c + 1)
        → Logs reader ps c (nonce ∷ sent_nonces reader ps (c + 1))
    refused : Logs reader ps c (sent_nonces reader ps c)
