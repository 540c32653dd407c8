-- ===== src/Issuance/Filed.antt =====
-- The digest that each signed item gets from the planning of its namespace on.
use mathlib.Core.List.{append-nil}
use isomdl_elevenid.Common.{
  ok_or-eq-ok, ℕ, zero, suc, ◌+◌, ◌≡◌, refl, sym, ap, ◌≢◌, Bool, true, false, List, [], ◌∷◌, length,
  map, All, ok, >>=-eq-ok, ok_or, ok-injective, some,
}
use isomdl_elevenid.Common.Order.{list_ord, nat_ord, ◌==◌}
use isomdl_elevenid.Common.Int.{int_ord}
use isomdl_elevenid.Common.Index.{DistinctBy}
use isomdl_elevenid.Common.Map.{get}
use isomdl_elevenid.Session.{Bytes}
use isomdl_elevenid.Digest.{DigestAlgorithm, DigestJob, Sha2, execute_digest_job, digest_result}
use isomdl_elevenid.Issuance.{unable_to_encode, DigestId, DigestIds}
use isomdl_elevenid.Issuance.Assembly.{is_member}
use isomdl_elevenid.Issuance.Plan.{
  Rng, IssuerSignedItem, Tag24, Encoder, Planning, push_planned_digest, draw_digest_id,
  generate_digest_id, plan_items, plan_decoys, plan_digest_namespace, decoy_count,
  decoy_bytes_length,
}
use isomdl_elevenid.Issuance.Pushed.{pushed, push_planned_digest-pushed, or-right}
use isomdl_elevenid.Issuance.Planned.{draw_digest_id-new, item_id, ids_used}
use isomdl_elevenid.Issuance.Tracked.{
  Tracked, placed, pushed-Tracked, get-pushed_self, get-pushed_other,
}

used_ne :
    (used : List DigestId) (id other : DigestId)
    → is_member id used ≡ false
    → is_member other used ≡ true
    → id ≢ other
used_ne used id other new old q = absurd (cc (new, old, ap (λ i. is_member i used) q))

module _ {Seed Value : Type 0} (rng : Rng Seed) (encoder : Encoder Value) (draws : ℕ) (sha2 : Sha2)
    (before : List DigestJob) (credential : ℕ) (algorithm : DigestAlgorithm) where
  -- The digest of the encoded item is filed under the ID of the item.
  abbrev pub HasDigest : DigestIds → Tag24 (IssuerSignedItem Value) → Type 0
  HasDigest digest_ids item =
      (input : Bytes) × (encoder.tag24_to_vec item.inner_bytes ≡ some input)
      × (get item.inner.digest_id digest_ids ≡ some (sha2 algorithm input))

  plan_items-keeps :
      (ordinal : ℕ) (items : List (Tag24 (IssuerSignedItem Value))) (st st' : Planning)
      (id : DigestId) (v : Bytes)
      → Tracked (execute_digest_job sha2) before st
      → get id (placed (execute_digest_job sha2) before st) ≡ some v
      → All (λ (i : Tag24 (IssuerSignedItem Value)). i.inner.digest_id ≢ id) items
      → plan_items rng encoder draws credential algorithm ordinal items st ≡ ok st'
      → Tracked (execute_digest_job sha2) before st'
        × (get id (placed (execute_digest_job sha2) before st') ≡ some v)
  unfolding plan_items
  plan_items-keeps ordinal [] st st' id v t g n h = rw (← ok-injective st st' h) (t, g)
  plan_items-keeps ordinal (i ∷ is) st st' id v t g (n, ns) h =
      let (input, _, h₁) =
        >>=-eq-ok (ok_or (encoder.tag24_to_vec i.inner_bytes) unable_to_encode) _ h in
      let (st₁, push, h₂) =
        >>=-eq-ok (push_planned_digest credential i.inner.digest_id ordinal algorithm input st) _
          h₁ in
      let (_, same) =
        push_planned_digest-pushed credential i.inner.digest_id ordinal algorithm input st st₁
          push in
      plan_items-keeps (ordinal + 1) is
        (pushed credential i.inner.digest_id ordinal algorithm input st) st' id v
        (pushed-Tracked (execute_digest_job sha2) before credential i.inner.digest_id ordinal
          algorithm input st t)
        (get-pushed_other (execute_digest_job sha2) before credential i.inner.digest_id ordinal
          algorithm input st id v t n g)
        ns (rw same at h₂)

  plan_items-HasDigest :
      (ordinal : ℕ) (items : List (Tag24 (IssuerSignedItem Value))) (st st' : Planning)
      → Tracked (execute_digest_job sha2) before st
      → DistinctBy (item_id rng encoder draws) items
      → plan_items rng encoder draws credential algorithm ordinal items st ≡ ok st'
      → Tracked (execute_digest_job sha2) before st'
        × All (HasDigest (placed (execute_digest_job sha2) before st')) items
  unfolding plan_items execute_digest_job digest_result
  plan_items-HasDigest ordinal [] st st' t d h = rw (← ok-injective st st' h) (t, tt)
  plan_items-HasDigest ordinal (i ∷ is) st st' t (n, ns) h =
      let (input, encoded, h₁) =
        >>=-eq-ok (ok_or (encoder.tag24_to_vec i.inner_bytes) unable_to_encode) _ h in
      let (st₁, push, h₂) =
        >>=-eq-ok (push_planned_digest credential i.inner.digest_id ordinal algorithm input st) _
          h₁ in
      let (_, same) =
        push_planned_digest-pushed credential i.inner.digest_id ordinal algorithm input st st₁
          push in
      let h₃ = rw same at h₂ in
      let t₁ =
        pushed-Tracked (execute_digest_job sha2) before credential i.inner.digest_id ordinal
          algorithm input st t in
      let here =
        get-pushed_self (execute_digest_job sha2) before credential i.inner.digest_id ordinal
          algorithm input st t in
      let (_, kept) = plan_items-keeps (ordinal + 1) is _ st' i.inner.digest_id _ t₁ here n h₃ in
      let (t', rest) = plan_items-HasDigest (ordinal + 1) is _ st' t₁ ns h₃ in
      (
        t',
        (
          (
            input,
            ok_or-eq-ok (encoder.tag24_to_vec i.inner_bytes) unable_to_encode input encoded,
            kept,
          ),
          rest,
        ),
      )

  plan_decoys-keeps :
      (decoys ordinal : ℕ) (used : List DigestId) (st st' : Planning) (seed seed' : Seed)
      (id : DigestId) (v : Bytes)
      → Tracked (execute_digest_job sha2) before st
      → get id (placed (execute_digest_job sha2) before st) ≡ some v
      → is_member id used ≡ true
      → plan_decoys rng encoder draws credential algorithm decoys ordinal used st seed
        ≡ ok (st', seed')
      → Tracked (execute_digest_job sha2) before st'
        × (get id (placed (execute_digest_job sha2) before st') ≡ some v)
  unfolding plan_decoys generate_digest_id
  plan_decoys-keeps zero ordinal used st st' seed seed' id v t g u h =
      rw (← ap (λ t. t.0) (ok-injective _ _ h)) (t, g)
  plan_decoys-keeps (suc decoys) ordinal used st st' seed seed' id v t g u h =
      let ((new, used', seed₁), drawn, h₁) =
        >>=-eq-ok (draw_digest_id rng encoder draws draws used seed) _ h in
      let (fresh, grown) =
        draw_digest_id-new rng encoder draws draws used used' new seed seed₁ drawn in
      let bytes = (rng.fill decoy_bytes_length seed₁).0 in
      let (st₁, push, h₂) =
        >>=-eq-ok (push_planned_digest credential new ordinal algorithm bytes st) _ h₁ in
      let (_, same) =
        push_planned_digest-pushed credential new ordinal algorithm bytes st st₁ push in
      plan_decoys-keeps decoys (ordinal + 1) (new ∷ used)
        (pushed credential new ordinal algorithm bytes st) st' _ seed' id v
        (pushed-Tracked (execute_digest_job sha2) before credential new ordinal algorithm bytes st
          t)
        (get-pushed_other (execute_digest_job sha2) before credential new ordinal algorithm bytes st
          id v t (used_ne used new id fresh u) g)
        (or-right (new == id) (is_member id used) u) (rw (same, grown) at h₂)

  decoys-HasDigest :
      (decoys ordinal : ℕ) (used : List DigestId) (st st' : Planning) (seed seed' : Seed)
      (items : List (Tag24 (IssuerSignedItem Value)))
      → Tracked (execute_digest_job sha2) before st
      → All (λ (i : Tag24 (IssuerSignedItem Value)). is_member i.inner.digest_id used ≡ true) items
      → All (HasDigest (placed (execute_digest_job sha2) before st)) items
      → plan_decoys rng encoder draws credential algorithm decoys ordinal used st seed
        ≡ ok (st', seed')
      → All (HasDigest (placed (execute_digest_job sha2) before st')) items
  decoys-HasDigest decoys ordinal used st st' seed seed' [] t u g h = tt
  decoys-HasDigest decoys ordinal used st st' seed seed' (i ∷ is) t (u, us)
        ((input, encoded, g), gs) h =
      (
        (
          input,
          encoded,
          (plan_decoys-keeps decoys ordinal used st st' seed seed' i.inner.digest_id _ t g u h).1,
        ),
        decoys-HasDigest decoys ordinal used st st' seed seed' is t us gs h,
      )

  plan_decoys-Tracked :
      (decoys ordinal : ℕ) (used : List DigestId) (st st' : Planning) (seed seed' : Seed)
      → Tracked (execute_digest_job sha2) before st
      → plan_decoys rng encoder draws credential algorithm decoys ordinal used st seed
        ≡ ok (st', seed')
      → Tracked (execute_digest_job sha2) before st'
  unfolding plan_decoys generate_digest_id
  plan_decoys-Tracked zero ordinal used st st' seed seed' t h =
      rw (← ap (λ t. t.0) (ok-injective _ _ h)) t
  plan_decoys-Tracked (suc decoys) ordinal used st st' seed seed' t h =
      let ((new, used', seed₁), drawn, h₁) =
        >>=-eq-ok (draw_digest_id rng encoder draws draws used seed) _ h in
      let bytes = (rng.fill decoy_bytes_length seed₁).0 in
      let (st₁, push, h₂) =
        >>=-eq-ok (push_planned_digest credential new ordinal algorithm bytes st) _ h₁ in
      let (_, same) =
        push_planned_digest-pushed credential new ordinal algorithm bytes st st₁ push in
      plan_decoys-Tracked decoys (ordinal + 1) used'
        (pushed credential new ordinal algorithm bytes st) st' _ seed'
        (pushed-Tracked (execute_digest_job sha2) before credential new ordinal algorithm bytes st
          t)
        (rw same at h₂)

  pub plan_digest_namespace-HasDigest :
      (elements : List (Tag24 (IssuerSignedItem Value))) (enable : Bool) (k : ℕ) (seed seed' : Seed)
      (st' : Planning)
      → DistinctBy (item_id rng encoder draws) elements
      → plan_digest_namespace rng encoder draws credential elements algorithm enable k before seed
        ≡ ok (st', seed')
      → Tracked (execute_digest_job sha2) before st'
        × All (HasDigest (placed (execute_digest_job sha2) before st')) elements
  unfolding plan_digest_namespace
  plan_digest_namespace-HasDigest elements enable k seed seed' st' u h =
      let start : Planning = record { next_job_id = k; jobs = before; planned_digests = [] } in
      let (st, items, h₁) =
        >>=-eq-ok (plan_items rng encoder draws credential algorithm 0 elements start) _ h in
      let (t, placed) =
        plan_items-HasDigest 0 elements start st ([], sym (append-nil before), refl) u items in
      let decoys = (decoy_count rng encoder draws enable seed).0 in
      let used = map (item_id rng encoder draws) elements in
      (
        plan_decoys-Tracked decoys (length elements) used st st' _ seed' t h₁,
        decoys-HasDigest decoys (length elements) used st st' _ seed' elements t
            (ids_used rng encoder draws elements) placed h₁,
      )
