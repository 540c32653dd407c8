-- ===== src/Issuance/Planned.antt =====
-- The plans of `plan_digest_namespaces_for_credential` are sound.
use mathlib.Core.List.{append-nil}
use isomdl_elevenid.Common.{
  ℕ, zero, suc, ◌+◌, ◌^◌, ◌<◌, ◌≡◌, ◌∙◌, refl, sym, ap, ◌≢◌, inl, inr, Bool, true, false, List, [],
  ◌∷◌, ◌++◌, length, length-append, map, arith, All, All-map, All-append, ok, >>=-eq-ok, Bool-cases,
  ok_or, ok-injective,
}
use isomdl_elevenid.Common.Order.{Str, list_ord, nat_ord, ◌==◌, ==_self}
use isomdl_elevenid.Common.Int.{int_ord}
use isomdl_elevenid.Common.Index.{DistinctBy}
use isomdl_elevenid.Session.{Bytes}
use isomdl_elevenid.Digest.{DigestAlgorithm, DigestJob}
use isomdl_elevenid.Issuance.{
  DigestId, digest_id_new, PlannedMdocDigest, PlannedMdocNamespace, MdocDigestPlan,
}
use isomdl_elevenid.Issuance.Assembly.{is_member}
use isomdl_elevenid.Issuance.Aligned.{Aligned, HasDistinctIds, name_of, IsSound}
use isomdl_elevenid.Issuance.Plan.{
  Rng, IssuerSignedItem, Tag24, Encoder, IssuerNamespaces, Planning, push_planned_digest,
  draw_digest_id, generate_digest_id, plan_items, plan_decoys, plan_digest_namespace,
  plan_namespaces, decoy_count, decoy_bytes_length, plan_digest_namespaces_for_credential,
}
use isomdl_elevenid.Issuance.Pushed.{
  append_assoc, IsPlanned, Unused, pushed, Covered, push_planned_digest-pushed, pushed-IsPlanned,
  pushed-Unused, Covered-Unused, or-right, Covered-cons,
}
use isomdl_elevenid.Common.Sorted.{DistinctBy-keys, DistinctBy-of_keys}

module _ {Seed Value : Type 0} (rng : Rng Seed) (encoder : Encoder Value) (draws : ℕ) where
  abbrev pub item_id : Tag24 (IssuerSignedItem Value) → DigestId
  item_id item = item.inner.digest_id

  -- A drawn ID is new, and is used from then on.
  pub draw_digest_id-new :
      (fuel : ℕ) (used used' : List DigestId) (id : DigestId) (seed seed' : Seed)
      → draw_digest_id rng encoder draws fuel used seed ≡ ok (id, used', seed')
      → (is_member id used ≡ false) × (used' ≡ id ∷ used)
  unfolding draw_digest_id
  draw_digest_id-new zero used used' id seed seed' h = absurd cc
  draw_digest_id-new (suc fuel) used used' id seed seed' h =
      elim (Bool-cases (is_member (digest_id_new (rng.gen_i32 seed).0) used)) [
        | inl e ↦ draw_digest_id-new fuel used used' id (rng.gen_i32 seed).1 seed' (rw e at h)
        | inr e ↦
            let q = ok-injective _ _ (rw e at h) in
            (
              ap (λ i. is_member i used) (sym (ap (λ t. t.0) q)) ∙ e,
              sym (ap (λ t. t.1) q) ∙ ap (λ i. i ∷ used) (ap (λ t. t.0) q),
            )
      ]

  plan_items-IsPlanned :
      (credential : ℕ) (before : List DigestJob) (k ordinal : ℕ) (algorithm : DigestAlgorithm)
      (used : List DigestId) (items : List (Tag24 (IssuerSignedItem Value))) (st st' : Planning)
      → IsPlanned credential before k st
      → Covered used st
      → DistinctBy item_id items
      → All (λ i. Unused (item_id i) st) items
      → All (λ i. is_member (item_id i) used ≡ true) items
      → plan_items rng encoder draws credential algorithm ordinal items st ≡ ok st'
      → IsPlanned credential before k st' × Covered used st'
  unfolding plan_items
  plan_items-IsPlanned credential before k ordinal algorithm used [] st st' p c u n m h =
      rw (← ok-injective st st' h) (p, c)
  plan_items-IsPlanned credential before k ordinal algorithm used (i ∷ is) st st' p c (ne, u)
        (n, ns) (m, ms) h =
      let (input, _, h₁) = >>=-eq-ok (ok_or (encoder.tag24_to_vec i.inner_bytes) _) _ h in
      let (st₁, push, h₂) =
        >>=-eq-ok (push_planned_digest credential (item_id i) ordinal algorithm input st) _ h₁ in
      let (b, same) =
        push_planned_digest-pushed credential (item_id i) ordinal algorithm input st st₁ push in
      let p₁ = pushed-IsPlanned credential before k (item_id i) ordinal algorithm input st b p n in
      let c₁ =
        All-append (λ (d : PlannedMdocDigest). is_member d.digest_id used ≡ true) st.planned_digests
          _ c (m, tt) in
      let n₁ = still_unused ordinal input is ne ns in
      plan_items-IsPlanned credential before k (ordinal + 1) algorithm used is _ st' p₁ c₁ u n₁ ms
        (rw same at h₂)
    where
      still_unused :
          (ordinal : ℕ) (input : Bytes) (xs : List (Tag24 (IssuerSignedItem Value)))
          → All (λ y. item_id y ≢ item_id i) xs
          → All (λ y. Unused (item_id y) st) xs
          → All
              (λ y. Unused (item_id y) (pushed credential (item_id i) ordinal algorithm input st))
              xs
      still_unused ordinal input [] ne u = tt
      still_unused ordinal input (y ∷ ys) (ne, nes) (u, us) = (
        pushed-Unused credential (item_id i) (item_id y) ordinal algorithm input st
            (λ q. ne (sym q)) u,
        still_unused ordinal input ys nes us,
      )

  plan_decoys-IsPlanned :
      (credential : ℕ) (before : List DigestJob) (k : ℕ) (algorithm : DigestAlgorithm)
      (decoys ordinal : ℕ) (used : List DigestId) (st st' : Planning) (seed seed' : Seed)
      → IsPlanned credential before k st
      → Covered used st
      → plan_decoys rng encoder draws credential algorithm decoys ordinal used st seed
        ≡ ok (st', seed')
      → IsPlanned credential before k st'
  unfolding plan_decoys generate_digest_id
  plan_decoys-IsPlanned credential before k algorithm zero ordinal used st st' seed seed' p c h =
      rw (← ap (λ t. t.0) (ok-injective _ _ h)) p
  plan_decoys-IsPlanned credential before k algorithm (suc decoys) ordinal used st st' seed seed' p
        c h =
      let ((id, used', seed₁), drawn, h₁) =
        >>=-eq-ok (draw_digest_id rng encoder draws draws used seed) _ h in
      let (new, grown) = draw_digest_id-new draws used used' id seed seed₁ drawn in
      let bytes = (rng.fill decoy_bytes_length seed₁).0 in
      let (st₁, push, h₂) =
        >>=-eq-ok (push_planned_digest credential id ordinal algorithm bytes st) _ h₁ in
      let (b, same) =
        push_planned_digest-pushed credential id ordinal algorithm bytes st st₁ push in
      let p₁ =
        pushed-IsPlanned credential before k id ordinal algorithm bytes st b p
          (Covered-Unused used id st.planned_digests new c) in
      let c₁ =
        All-append (λ (d : PlannedMdocDigest). is_member d.digest_id (id ∷ used) ≡ true)
          st.planned_digests _ (Covered-cons used id st.planned_digests c)
          (rw (==_self id) refl, tt) in
      plan_decoys-IsPlanned credential before k algorithm decoys (ordinal + 1) (id ∷ used) _ st' _
        seed' p₁ c₁ (rw (same, grown) at h₂)

  pub ids_used :
      (items : List (Tag24 (IssuerSignedItem Value)))
      → All (λ i. is_member (item_id i) (map item_id items) ≡ true) items
  ids_used [] = tt
  ids_used (i ∷ is) = (
    rw (==_self (item_id i)) refl,
    All-map (λ y. is_member (item_id y) (map item_id is) ≡ true)
        (λ y. is_member (item_id y) (map item_id (i ∷ is)) ≡ true)
        (λ y h. or-right (item_id i == item_id y) (is_member (item_id y) (map item_id is)) h) is
        (ids_used is),
  )

  nothing_planned :
      (k : ℕ) (jobs : List DigestJob) (xs : List (Tag24 (IssuerSignedItem Value)))
      → All
          (λ i. Unused (item_id i) (record { next_job_id = k; jobs = jobs; planned_digests = [] }))
          xs
  nothing_planned k jobs [] = tt
  nothing_planned k jobs (x ∷ xs) = (tt, nothing_planned k jobs xs)

  plan_digest_namespace-IsPlanned :
      (credential : ℕ) (elements : List (Tag24 (IssuerSignedItem Value)))
      (algorithm : DigestAlgorithm) (enable : Bool) (k : ℕ) (jobs : List DigestJob)
      (seed seed' : Seed) (st' : Planning)
      → k < 2 ^ 64
      → DistinctBy item_id elements
      → plan_digest_namespace rng encoder draws credential elements algorithm enable k jobs seed
        ≡ ok (st', seed')
      → IsPlanned credential jobs k st'
  unfolding plan_digest_namespace
  plan_digest_namespace-IsPlanned credential elements algorithm enable k jobs seed seed' st' b u h =
      let start : Planning = record { next_job_id = k; jobs = jobs; planned_digests = [] } in
      let (st, items, h₁) =
        >>=-eq-ok (plan_items rng encoder draws credential algorithm 0 elements start) _ h in
      let p : IsPlanned credential jobs k start = record {
        js = [];
        jobs_eq = sym (append-nil jobs);
        aligned = tt;
        next_eq = omega arith;
        distinct = tt;
        bounded = b;
      } in
      let (p₁, c₁) =
        plan_items-IsPlanned credential jobs k 0 algorithm (map item_id elements) elements start st
          p tt u (nothing_planned k jobs elements) (ids_used elements) items in
      plan_decoys-IsPlanned credential jobs k algorithm
        (decoy_count rng encoder draws enable seed).0 (length elements) (map item_id elements) st
        st' (decoy_count rng encoder draws enable seed).1 seed' p₁ c₁ h₁

  -- What the loop over the namespaces gives.
  record ArePlanned (credential k : ℕ) (before : List DigestJob)
      (namespaces : IssuerNamespaces Value) (planned : List PlannedMdocNamespace)
      (jobs : List DigestJob) : Type 0 where
    js : List DigestJob
    jobs_eq : jobs ≡ before ++ js
    aligned : Aligned credential k planned js
    distinct_ids : All HasDistinctIds planned
    names : map name_of planned ≡ map (λ e. e.0) namespaces
    bounded : k + length js < 2 ^ 64

  plan_namespaces-ArePlanned :
      (credential : ℕ) (namespaces : IssuerNamespaces Value) (algorithm : DigestAlgorithm)
      (enable : Bool) (k : ℕ) (before jobs : List DigestJob) (seed seed' : Seed)
      (planned : List PlannedMdocNamespace)
      → k < 2 ^ 64
      → All (λ (e : Str × List (Tag24 (IssuerSignedItem Value))). DistinctBy item_id e.1) namespaces
      → plan_namespaces rng encoder draws credential namespaces algorithm enable k before seed
        ≡ ok (planned, jobs, seed')
      → ArePlanned credential k before namespaces planned jobs
  unfolding plan_namespaces
  plan_namespaces-ArePlanned credential [] algorithm enable k before jobs seed seed' planned b u h =
      let q = ok-injective _ _ h in
      rw (← ap (λ t. t.0) q, ← ap (λ t. t.1) q)
        (record {
          js = [];
          jobs_eq = sym (append-nil before);
          aligned = refl;
          distinct_ids = tt;
          names = refl;
          bounded = omega arith;
        })
  plan_namespaces-ArePlanned credential ((name, elements) ∷ ns) algorithm enable k before jobs seed
        seed' planned b (u, us) h =
      let ((st, seed₁), here, h₁) =
        >>=-eq-ok
          (plan_digest_namespace rng encoder draws credential elements algorithm enable k before
            seed)
          _ h in
      let p =
        plan_digest_namespace-IsPlanned credential elements algorithm enable k before seed seed₁ st
          b u here in
      let ((later, jobs', seed₂), there, h₂) =
        >>=-eq-ok
          (plan_namespaces rng encoder draws credential ns algorithm enable st.next_job_id st.jobs
            seed₁)
          _ h₁ in
      let r =
        plan_namespaces-ArePlanned credential ns algorithm enable st.next_job_id st.jobs jobs' seed₁
          seed₂ later p.bounded us there in
      let q = ok-injective _ _ h₂ in
      rw (← ap (λ t. t.0) q, ← ap (λ t. t.1) q)
        (record {
          js = p.js ++ r.js;
          jobs_eq = r.jobs_eq ∙ ap (λ l. l ++ r.js) p.jobs_eq ∙ append_assoc before p.js r.js;
          aligned = (p.js, r.js, refl, p.aligned, rw (← p.next_eq) r.aligned);
          distinct_ids = (p.distinct, r.distinct_ids);
          names = ap (λ l. name ∷ l) r.names;
          bounded = omega (arith, p.next_eq, r.bounded, length-append p.js r.js);
        })

  pub plan-IsSound :
      (credential : ℕ) (namespaces : IssuerNamespaces Value) (algorithm : DigestAlgorithm)
      (enable : Bool) (seed seed' : Seed) (plan : MdocDigestPlan)
      → DistinctBy (λ (e : Str × List (Tag24 (IssuerSignedItem Value))). e.0) namespaces
      → All (λ (e : Str × List (Tag24 (IssuerSignedItem Value))). DistinctBy item_id e.1) namespaces
      → plan_digest_namespaces_for_credential rng encoder draws credential namespaces algorithm
          enable seed
        ≡ ok (plan, seed')
      → IsSound plan × (plan.credential_id ≡ credential)
  unfolding plan_digest_namespaces_for_credential
  plan-IsSound credential namespaces algorithm enable seed seed' plan d u h =
      let ((planned, jobs, seed₁), here, h₁) =
        >>=-eq-ok
          (plan_namespaces rng encoder draws credential namespaces algorithm enable 0 [] seed) _
          h in
      let r =
        plan_namespaces-ArePlanned credential namespaces algorithm enable 0 [] jobs seed seed₁
          planned (omega arith) u here in
      rw (← ap (λ t. t.0) (ok-injective _ _ h₁)) (
        record {
          aligned = rw (r.jobs_eq) r.aligned;
          distinct_ids = r.distinct_ids;
          distinct_names = DistinctBy-of_keys name_of planned (
              rw r.names (
                DistinctBy-keys (λ (e : Str × List (Tag24 (IssuerSignedItem Value))). e.0)
                  namespaces d));
          bounded = omega (arith, r.bounded, ap length r.jobs_eq);
        },
        refl,
      )
