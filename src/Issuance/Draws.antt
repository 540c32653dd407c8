-- ===== src/Issuance/Draws.antt =====
-- The drawing of digest IDs: their range, and when the loop of `generate_digest_id` ends.
use isomdl_elevenid.Common.{
  ℕ, zero, suc, ◌+◌, ◌-◌, ◌^◌, ◌<◌, ◌≡◌, ◌≢◌, refl, ap, ◌⊎◌, inl, inr, false, List, ◌∷◌, ok,
  Bool-cases, arith,
}
use isomdl_elevenid.Common.Order.{nat_ord, ==-cases}
use isomdl_elevenid.Common.Int.{ℤ, pos, negsuc, int_ord}
use isomdl_elevenid.Issuance.{DigestId, digest_id_new}
use isomdl_elevenid.Issuance.Assembly.{is_member}
use isomdl_elevenid.Issuance.Plan.{Rng, Encoder, draw_digest_id, generate_digest_id}

-- The values of an `i32`.
abbrev pub IsI32 : ℤ → Type 0
IsI32 (pos n) = n < 2 ^ 31
IsI32 (negsuc n) = n < 2 ^ 31

-- What the documentation says of a digest ID: it is between 0 and 2 ^ 31 - 1.
abbrev pub IsDigestId : DigestId → Type 0
IsDigestId (pos n) = n < 2 ^ 31
IsDigestId (negsuc n) = ⊥

-- The ID made of an `i32` is between 0 and 2 ^ 31 - 1, but for the least `i32`, which is returned
-- unchanged.
pub digest_id_new-IsDigestId :
    (i : ℤ)
    → IsI32 i
    → IsDigestId (digest_id_new i) ⊎ (i ≡ negsuc (2 ^ 31 - 1)) × (digest_id_new i ≡ i)
unfolding digest_id_new
digest_id_new-IsDigestId (pos n) h = inl h
digest_id_new-IsDigestId (negsuc n) h = elim (==-cases n (2 ^ 31 - 1)) [
  | inl (e, same) ↦ inr (ap negsuc same, rw e)
  | inr (e, differs) ↦ rw e (inl (below differs))
]
  where
    below : n ≢ 2 ^ 31 - 1 → n + 1 < 2 ^ 31
    below differs = omega arith

module _ {Seed Value : Type 0} (rng : Rng Seed) (encoder : Encoder Value) (draws : ℕ) where
  -- The ID of the draw behind `k` others.
  abbrev pub drawn : ℕ → Seed → DigestId
  drawn zero seed = digest_id_new (rng.gen_i32 seed).0
  drawn (suc k) seed = drawn k (rng.gen_i32 seed).1

  draw_digest_id-returns :
      (fuel k : ℕ) (used : List DigestId) (seed : Seed)
      → k < fuel
      → is_member (drawn k seed) used ≡ false
      → (result : DigestId × List DigestId × Seed) × (draw_digest_id rng encoder draws fuel used
            seed
          ≡ ok result)
  unfolding draw_digest_id
  draw_digest_id-returns zero k used seed h new = absurd (omega arith)
  draw_digest_id-returns (suc fuel) zero used seed h new =
      ((drawn 0 seed, drawn 0 seed ∷ used, (rng.gen_i32 seed).1), rw new refl)
  draw_digest_id-returns (suc fuel) (suc k) used seed h new =
      elim (Bool-cases (is_member (digest_id_new (rng.gen_i32 seed).0) used)) [
        | inl e ↦ rw e (draw_digest_id-returns fuel k used (rng.gen_i32 seed).1 (omega arith) new)
        | inr e ↦ ((drawn 0 seed, drawn 0 seed ∷ used, (rng.gen_i32 seed).1), rw e refl)
      ]

  -- With one unused ID among the first `draws` that the generator yields, an ID is returned.
  pub generate_digest_id-returns :
      (k : ℕ) (used : List DigestId) (seed : Seed)
      → k < draws
      → is_member (drawn k seed) used ≡ false
      → (result : DigestId × List DigestId × Seed) × (generate_digest_id rng encoder draws used seed
          ≡ ok result)
  unfolding generate_digest_id
  generate_digest_id-returns k used seed h new = draw_digest_id-returns draws k used seed h new
