-- ===== src/Session/Blocks.antt =====
-- The SHA-256 of FIPS 180-4 over whole messages, against which src/definitions/session_crypto.rs is
-- proved, and the lists of blocks it is stated with.
use isomdl_elevenid.Common.{
  ℕ, zero, suc, ◌-◌, ◌*◌, ◌/◌, ◌%◌, ◌≤◌, ◌≡◌, refl, ap, List, [], ◌∷◌, ◌++◌, All, arith, length,
  take, drop, replicate, length-append,
}
use mathlib.Core.List.{append_assoc}
use isomdl_elevenid.Session.{Bytes}
use isomdl_elevenid.Session.Sha256.{Words, sha256_initial_state, be_bytes64, words_to_bytes}

abbrev pub concat : List Bytes → Bytes
concat [] = []
concat (b ∷ bs) = b ++ concat bs

-- The first blocks of 64 bytes.
abbrev pub chunks : ℕ → Bytes → List Bytes
chunks zero bytes = []
chunks (suc n) bytes = take 64 bytes ∷ chunks n (drop 64 bytes)

-- The number of zeros between the byte 0x80 and the length.
abbrev pub zeros : ℕ → ℕ
zeros len = (119 - len % 64) % 64

abbrev pub padding : ℕ → Bytes
padding len = 0x80 ∷ replicate (zeros len) 0 ++ be_bytes64 (len * 8)

abbrev pub padded : Bytes → Bytes
padded message = message ++ padding (length message)

module _ (compress256 : Words → Bytes → Words) where
  abbrev pub compress_all : Words → List Bytes → Words
  compress_all words [] = words
  compress_all words (block ∷ blocks) = compress_all (compress256 words block) blocks

  unfoldable pub sha256 : Bytes → Bytes
  sha256 message =
      words_to_bytes
        (compress_all sha256_initial_state (chunks (length (padded message) / 64) (padded message)))

  pub compress_all-append :
      (words : Words) (bs cs : List Bytes)
      → compress_all words (bs ++ cs) ≡ compress_all (compress_all words bs) cs
  compress_all-append words [] cs = refl
  compress_all-append words (b ∷ bs) cs = compress_all-append (compress256 words b) bs cs

abbrev pub IsBlock : Bytes → Type 0
IsBlock block = length block ≡ 64

module _ {ℓ} {A : Type ℓ} where
  pub take-append : (xs ys : List A) (n : ℕ) → length xs ≡ n → take n (xs ++ ys) ≡ xs
  take-append [] ys zero h = refl
  take-append [] ys (suc n) h = absurd (omega arith)
  take-append (x ∷ xs) ys zero h = absurd (omega arith)
  take-append (x ∷ xs) ys (suc n) h = ap (λ l. x ∷ l) (take-append xs ys n (omega arith))

  pub drop-append : (xs ys : List A) (n : ℕ) → length xs ≡ n → drop n (xs ++ ys) ≡ ys
  drop-append [] ys zero h = refl
  drop-append [] ys (suc n) h = absurd (omega arith)
  drop-append (x ∷ xs) ys zero h = absurd (omega arith)
  drop-append (x ∷ xs) ys (suc n) h = drop-append xs ys n (omega arith)

  pub take-append-drop : (n : ℕ) (xs : List A) → take n xs ++ drop n xs ≡ xs
  take-append-drop zero xs = refl
  take-append-drop (suc n) [] = refl
  take-append-drop (suc n) (x ∷ xs) = ap (λ l. x ∷ l) (take-append-drop n xs)

  pub length-take_le : (n : ℕ) (xs : List A) → n ≤ length xs → length (take n xs) ≡ n
  length-take_le zero xs h = refl
  length-take_le (suc n) [] h = absurd (omega arith)
  length-take_le (suc n) (x ∷ xs) h = ap suc (length-take_le n xs (omega arith))

  pub length-drop : (n : ℕ) (xs : List A) → length (drop n xs) ≡ length xs - n
  length-drop zero xs = omega arith
  length-drop (suc n) [] = omega arith
  length-drop (suc n) (x ∷ xs) = omega (arith, length-drop n xs)

  pub take-all : (n : ℕ) (xs : List A) → length xs ≡ n → take n xs ≡ xs
  take-all zero [] h = refl
  take-all (suc n) [] h = refl
  take-all zero (x ∷ xs) h = absurd (omega arith)
  take-all (suc n) (x ∷ xs) h = ap (λ l. x ∷ l) (take-all n xs (omega arith))

pub concat-append : (bs cs : List Bytes) → concat (bs ++ cs) ≡ concat bs ++ concat cs
concat-append [] cs = refl
concat-append (b ∷ bs) cs = rw (concat-append bs cs, append_assoc b (concat bs) (concat cs))

pub length-concat : (bs : List Bytes) → All IsBlock bs → length (concat bs) ≡ length bs * 64
length-concat [] h = refl
length-concat (b ∷ bs) (h, hs) = omega (arith, length-append b (concat bs), length-concat bs hs)

pub chunks-concat : (bs : List Bytes) → All IsBlock bs → chunks (length bs) (concat bs) ≡ bs
chunks-concat [] h = refl
chunks-concat (b ∷ bs) (h, hs) =
    rw (take-append b (concat bs) 64 h, drop-append b (concat bs) 64 h, chunks-concat bs hs) refl
