-- ===== src/Issuance/Schedule.antt =====
-- What the executor's schedule does to the assembly: nothing. Any permutation of the results of the
-- planned jobs gives the same namespaces.
use mathlib.Core.List.{Permᴰ, append-nil}
use isomdl_elevenid.Common.{
  ℕ, ◌≡◌, ◌∙◌, refl, ◌≢◌, sym, ap, List, [], ◌∷◌, length, All, All-map, All-append, map, arith, ok,
  true, false, Bool-cases, and-parts, inl, inr,
}
use isomdl_elevenid.Common.Order.{nat_ord, pair_ord, ==-eq-false, eq_of_==, ◌==◌}
use isomdl_elevenid.Common.Index.{DistinctBy, DistinctBy-append, All-pairs, All-perm, index}
use isomdl_elevenid.Digest.{DigestJob, DigestResult}
use isomdl_elevenid.Issuance.{MdocDigestPlan}
use isomdl_elevenid.Issuance.Assembly.{
  job_identity, result_identity, follows, results_follow_plan_order, is_member, assemble_plans,
  assemble_filed, assemble_reordered_digest_batches, assemble_reordered_digest_namespaces,
  assemble_digest_namespaces,
}
use isomdl_elevenid.Issuance.Plan.{batch_jobs}
use isomdl_elevenid.Issuance.Aligned.{IsSound, Keeps, expected}
use isomdl_elevenid.Issuance.Numbered.{Aligned-Numbered, Numbered-credential, Numbered-DistinctBy}
use isomdl_elevenid.Issuance.Ordered.{assemble_ordered_sound}
use isomdl_elevenid.Issuance.Reordered.{run-identity, file_results-perm, filed, assemble_plan_sound}

abbrev pub credential_of : MdocDigestPlan → ℕ
credential_of plan = plan.credential_id

plan-DistinctBy : (plan : MdocDigestPlan) → IsSound plan → DistinctBy job_identity plan.jobs
plan-DistinctBy plan s =
    Numbered-DistinctBy plan.credential_id 0 plan.jobs
      (Aligned-Numbered plan.credential_id 0 plan.namespaces plan.jobs s.aligned)

plan-credential :
    (plan : MdocDigestPlan)
    → IsSound plan
    → All (λ (j : DigestJob). j.credential_id ≡ plan.credential_id) plan.jobs
plan-credential plan s =
    Numbered-credential plan.credential_id 0 plan.jobs
      (Aligned-Numbered plan.credential_id 0 plan.namespaces plan.jobs s.aligned)

batch_jobs-credential_ne :
    (c : ℕ) (plans : List MdocDigestPlan)
    → All IsSound plans
    → All (λ (p : MdocDigestPlan). p.credential_id ≢ c) plans
    → All (λ (j : DigestJob). j.credential_id ≢ c) (batch_jobs plans)
unfolding batch_jobs
batch_jobs-credential_ne c [] s h = tt
batch_jobs-credential_ne c (p ∷ ps) (s, ss) (ne, h) =
    All-append (λ (j : DigestJob). j.credential_id ≢ c) p.jobs (batch_jobs ps)
      (All-map (λ (j : DigestJob). j.credential_id ≡ p.credential_id)
        (λ (j : DigestJob). j.credential_id ≢ c) (λ j e q. ne (sym e ∙ q)) p.jobs
        (plan-credential p s))
      (batch_jobs-credential_ne c ps ss h)

pub batch_jobs-DistinctBy :
    (plans : List MdocDigestPlan)
    → All IsSound plans
    → DistinctBy credential_of plans
    → DistinctBy job_identity (batch_jobs plans)
unfolding batch_jobs
batch_jobs-DistinctBy [] s h = tt
batch_jobs-DistinctBy (p ∷ ps) (s, ss) (ne, h) =
    DistinctBy-append job_identity p.jobs (batch_jobs ps) (plan-DistinctBy p s)
      (batch_jobs-DistinctBy ps ss h)
      (All-map (λ (j : DigestJob). j.credential_id ≡ p.credential_id)
        (λ (j : DigestJob).
          All (λ (y : DigestJob). job_identity y ≢ job_identity j) (batch_jobs ps))
        (λ j e.
          All-map (λ (y : DigestJob). y.credential_id ≢ p.credential_id)
            (λ (y : DigestJob). job_identity y ≢ job_identity j) (λ y n q. n (ap (λ z. z.0) q ∙ e))
            (batch_jobs ps) (batch_jobs-credential_ne p.credential_id ps ss ne))
        p.jobs (plan-credential p s))

IsNew : List ℕ → List MdocDigestPlan → Type 0
IsNew seen = All (λ (p : MdocDigestPlan). is_member p.credential_id seen ≡ false)

IsNew-later :
    (c : ℕ) (seen : List ℕ) (plans : List MdocDigestPlan)
    → All (λ (p : MdocDigestPlan). p.credential_id ≢ c) plans
    → All (λ (p : MdocDigestPlan). is_member p.credential_id seen ≡ false) plans
    → All (λ (p : MdocDigestPlan). is_member p.credential_id (c ∷ seen) ≡ false) plans
IsNew-later c seen [] ne h = tt
IsNew-later c seen (p ∷ ps) (n, ne) (h, hs) =
    (rw (==-eq-false c p.credential_id (λ q. n (sym q))) h, IsNew-later c seen ps ne hs)

nothing_seen :
    (plans : List MdocDigestPlan)
    → All (λ (p : MdocDigestPlan). is_member p.credential_id [] ≡ false) plans
nothing_seen [] = tt
nothing_seen (p ∷ ps) = (refl, nothing_seen ps)

module _ (run : DigestJob → DigestResult) (keeps : Keeps run) where
  assemble_plans_sound :
      (plans : List MdocDigestPlan) (seen : List ℕ)
      → All IsSound plans
      → DistinctBy credential_of plans
      → All (λ (p : MdocDigestPlan). is_member p.credential_id seen ≡ false) plans
      → assemble_plans plans seen (filed run keeps (batch_jobs plans))
        ≡ ok ([], map (expected run) plans)
  unfolding assemble_plans batch_jobs index
  assemble_plans_sound [] seen s h n = refl
  assemble_plans_sound (p ∷ ps) seen (s, ss) (ne, h) (n, ns) =
      let here =
        assemble_plan_sound run keeps p (batch_jobs ps) s (plan-credential p s)
          (plan-DistinctBy p s) (batch_jobs-DistinctBy (p ∷ ps) (s, ss) (ne, h)) in
      rw (
        n,
        here,
        assemble_plans_sound ps (p.credential_id ∷ seen) ss h
            (IsNew-later p.credential_id seen ps ne ns),
      )

  -- The digests of a batch of sound plans of distinct credentials are what is expected, whatever the
  -- order of the results.
  pub assemble_batches-any_order :
      (plans : List MdocDigestPlan) (results : List DigestResult)
      → All IsSound plans
      → DistinctBy credential_of plans
      → Permᴰ (map run (batch_jobs plans)) results
      → assemble_reordered_digest_batches plans results ≡ ok (map (expected run) plans)
  unfolding assemble_reordered_digest_batches assemble_filed
  assemble_batches-any_order plans results s h p = rw (
    file_results-perm run keeps (batch_jobs plans) results p (batch_jobs-DistinctBy plans s h),
    assemble_plans_sound plans [] s h (nothing_seen plans),
  )

  -- Results that follow the jobs, and are a permutation of what the executor gives, are in its order.
  follows-eq-map :
      (jobs : List DigestJob) (results : List DigestResult)
      → length results ≡ length jobs
      → follows jobs results ≡ true
      → All
          (λ (r : DigestResult).
            All (λ (j : DigestJob). result_identity r ≡ job_identity j → r ≡ run j) jobs)
          results
      → results ≡ map run jobs
  unfolding follows
  follows-eq-map [] [] e f h = refl
  follows-eq-map [] (r ∷ rs) e f h = absurd (omega arith)
  follows-eq-map (j ∷ js) [] e f h = absurd (omega arith)
  follows-eq-map (j ∷ js) (r ∷ rs) e f ((h, _), hs) =
      let (here, later) = and-parts _ (follows js rs) f in
      let (same, _) = and-parts (job_identity j == result_identity r) _ here in
      let first = h (sym (eq_of_== (job_identity j) (result_identity r) same)) in
      let rest = follows-eq-map js rs (omega arith) later (drop_first rs hs) in
      λ i. first i ∷ rest i
    where
      drop_first :
          (rs : List DigestResult)
          → All
              (λ (r : DigestResult).
                All (λ (j : DigestJob). result_identity r ≡ job_identity j → r ≡ run j) (j ∷ js))
              rs
          → All
              (λ (r : DigestResult).
                All (λ (j : DigestJob). result_identity r ≡ job_identity j → r ≡ run j) js)
              rs
      drop_first [] h = tt
      drop_first (r ∷ rs) ((_, h), hs) = (h, drop_first rs hs)

  -- Of all results of a permutation: what has the identity of a job is the result of that job.
  results-identified :
      (jobs : List DigestJob) (results : List DigestResult)
      → DistinctBy job_identity jobs
      → Permᴰ (map run jobs) results
      → All
          (λ (r : DigestResult).
            All (λ (j : DigestJob). result_identity r ≡ job_identity j → r ≡ run j) jobs)
          results
  results-identified jobs results h p =
      All-perm
        (λ (r : DigestResult).
          All (λ (j : DigestJob). result_identity r ≡ job_identity j → r ≡ run j) jobs)
        p
        (mapped jobs (
          All-pairs job_identity (λ x j. result_identity (run x) ≡ job_identity j → run x ≡ run j)
            (λ x e. refl) (λ x j n e. absurd (n (sym (run-identity run keeps x) ∙ e))) jobs h))
    where
      mapped :
          (xs : List DigestJob)
          → All
              (λ (x : DigestJob).
                All
                  (λ (j : DigestJob). result_identity (run x) ≡ job_identity j → run x ≡ run j)
                  jobs)
              xs
          → All
              (λ (r : DigestResult).
                All (λ (j : DigestJob). result_identity r ≡ job_identity j → r ≡ run j) jobs)
              (map run xs)
      mapped [] h = tt
      mapped (x ∷ xs) (h, hs) = (h, mapped xs hs)

  -- For a sound plan, and any order of the results of its jobs, the assembly succeeds, and each
  -- planned digest gets the digest of its own job: the fast path and the general one agree.
  pub assemble-any_order :
      (plan : MdocDigestPlan) (results : List DigestResult)
      → IsSound plan
      → Permᴰ (map run plan.jobs) results
      → assemble_digest_namespaces plan results ≡ ok (expected run plan)
  unfolding assemble_digest_namespaces results_follow_plan_order
      assemble_reordered_digest_namespaces batch_jobs
  assemble-any_order plan results s p = elim (Bool-cases (results_follow_plan_order plan results)) [
    | inl e ↦
        let (size, order) =
          and-parts (length results == length plan.jobs) (follows plan.jobs results) e in
        let same =
          follows-eq-map plan.jobs results (eq_of_== (length results) (length plan.jobs) size) order
            (results-identified plan.jobs results (plan-DistinctBy plan s) p) in
        rw (e, same) (assemble_ordered_sound run keeps plan.credential_id plan refl s)
    | inr e ↦
        let one : DistinctBy credential_of (plan ∷ []) = (tt, tt) in
        let batch = assemble_batches-any_order (plan ∷ []) results (s, tt) one (rw append-nil p) in
        rw (e, batch)
  ]
