-- ===== src/Issuance/Reordered.antt =====
-- The assembly by identity: for sound plans of distinct credentials it gives what is expected,
-- in whatever order the results come.
use mathlib.Core.List.{Permᴰ}
use isomdl_elevenid.Common.{
  ℕ, suc, ◌+◌, ◌≡◌, ◌∙◌, refl, ◌≢◌, List, [], ◌∷◌, ◌++◌, length, All, map, arith, ap, ok, none,
  some, sym, false,
}
use isomdl_elevenid.Common.Order.{Str, list_ord, nat_ord, pair_ord, ==-eq-false}
use isomdl_elevenid.Common.Int.{int_ord}
use isomdl_elevenid.Common.Index.{
  DistinctBy, DistinctBy-perm, DistinctBy-append_parts, index, insert_all, insert_all-eq-index,
  index-perm, get-index_head, remove-index_head,
}
use isomdl_elevenid.Common.Map.{Map, get, insert, remove, get-insert}
use isomdl_elevenid.Session.{Bytes}
use isomdl_elevenid.Digest.{DigestJob, DigestResult, digest_length}
use isomdl_elevenid.Issuance.{DigestIds, PlannedMdocDigest, PlannedMdocNamespace, MdocDigestPlan}
use isomdl_elevenid.Issuance.Assembly.{
  Identity, job_identity, result_identity, planned_identity, file_results, is_member, Taken,
  take_job, take_jobs, place_digest, place_digests, place_namespaces, assemble_plan,
}
use isomdl_elevenid.Issuance.Aligned.{
  AlignedDigests, Aligned, HasDistinctIds, name_of, IsSound, Keeps, expected_digests,
  expected_namespaces, expected, expected_digests-append, drop-aligned,
}
use isomdl_elevenid.Issuance.Ordered.{
  AbsentIds, AbsentIds-insert, AbsentIds-nil, AbsentNames, AbsentNames-insert, AbsentNames-nil,
}

-- The results of a list are filed under their identities, and no duplicate is reported.
abbrev AbsentResults : Map Identity DigestResult → List DigestResult → Type 0
AbsentResults m = All (λ (r : DigestResult). get (result_identity r) m ≡ none)

file_results-distinct :
    (rs : List DigestResult) (m : Map Identity DigestResult)
    → DistinctBy result_identity rs
    → All (λ (r : DigestResult). get (result_identity r) m ≡ none) rs
    → file_results rs m false ≡ (insert_all result_identity (λ r. r) rs m, false)
unfolding file_results insert_all
file_results-distinct [] m h a = refl
file_results-distinct (r ∷ rs) m (ne, h) (new, a) =
    rw new (file_results-distinct rs (insert (result_identity r) r m) h (still rs ne a))
  where
    still :
        (rs : List DigestResult)
        → All (λ (y : DigestResult). result_identity y ≢ result_identity r) rs
        → All (λ (r : DigestResult). get (result_identity r) m ≡ none) rs
        → All
            (λ (y : DigestResult). get (result_identity y) (insert (result_identity r) r m) ≡ none)
            rs
    still [] ne a = tt
    still (y ∷ ys) (n, ne) (a, as') = (
      rw
          (
            get-insert (result_identity y) (result_identity r) r m,
            ==-eq-false (result_identity r) (result_identity y) (λ p. n (sym p)),
          )
          a,
      still ys ne as',
    )

AbsentResults-nil : (rs : List DigestResult) → AbsentResults [] rs
unfolding get
AbsentResults-nil [] = tt
AbsentResults-nil (r ∷ rs) = (refl, AbsentResults-nil rs)

All-front : {A : Type 0} (P : A → Type 0) (xs ys : List A) → All P (xs ++ ys) → All P xs
All-front P [] ys h = tt
All-front P (x ∷ xs) ys (p, h) = (p, All-front P xs ys h)

get-nil : (k : Identity) → get {V = DigestResult} k [] ≡ none
unfolding get
get-nil k = refl

get-digest_nil : (k : Identity) → get {V = Bytes} k [] ≡ none
unfolding get
get-digest_nil k = refl

is_member-later :
    (j : DigestJob) (expected : List Identity) (js : List DigestJob)
    → All (λ (y : DigestJob). job_identity y ≢ job_identity j) js
    → All (λ (y : DigestJob). is_member (job_identity y) expected ≡ false) js
    → All (λ (y : DigestJob). is_member (job_identity y) (job_identity j ∷ expected) ≡ false) js
is_member-later j expected [] ne h = tt
is_member-later j expected (y ∷ ys) (n, ne) (h, hs) = (
  rw (==-eq-false (job_identity j) (job_identity y) (λ p. n (sym p))) h,
  is_member-later j expected ys ne hs,
)

module _ (run : DigestJob → DigestResult) (keeps : Keeps run) where
  pub run-identity : (j : DigestJob) → result_identity (run j) ≡ job_identity j
  run-identity j = λ i. (keeps.credential j i, keeps.job j i)

  index-run :
      (js : List DigestJob) (m : Map Identity DigestResult)
      → index result_identity (λ r. r) (map run js) m ≡ index job_identity run js m
  unfolding index
  index-run [] m = refl
  index-run (j ∷ js) m = rw (index-run js m, run-identity j)

  DistinctBy-run :
      (js : List DigestJob) → DistinctBy job_identity js → DistinctBy result_identity (map run js)
  DistinctBy-run [] h = tt
  DistinctBy-run (j ∷ js) (ne, h) = (go js ne, DistinctBy-run js h)
    where
      go :
          (ks : List DigestJob)
          → All (λ (y : DigestJob). job_identity y ≢ job_identity j) ks
          → All (λ (y : DigestResult). result_identity y ≢ result_identity (run j)) (map run ks)
      go [] ne = tt
      go (k ∷ ks) (n, ne) = (λ p. n (sym (run-identity k) ∙ p ∙ run-identity j), go ks ne)

  -- What is filed, after any permutation of the results of some jobs of distinct identities.
  pub file_results-perm :
      (js : List DigestJob) (rs : List DigestResult)
      → Permᴰ (map run js) rs
      → DistinctBy job_identity js
      → file_results rs [] false ≡ (index job_identity run js [], false)
  file_results-perm js rs p h =
      let ran = DistinctBy-run js h in
      let distinct = DistinctBy-perm result_identity p ran in
      let same =
        insert_all-eq-index result_identity (λ r. r) rs [] distinct
        ∙ sym (index-perm result_identity (λ r. r) [] p ran)
        ∙ index-run js [] in
      file_results-distinct rs [] distinct (AbsentResults-nil rs) ∙ ap (λ m. (m, false)) same

  abbrev pub filed : List DigestJob → Map Identity DigestResult
  filed js = index job_identity run js []

  abbrev digests : List DigestJob → Map Identity Bytes
  digests js = index job_identity (λ j. (run j).digest) js []

  take_job-ok :
      (credential : ℕ) (j : DigestJob) (r : DigestResult) (st : Taken)
      → j.credential_id ≡ credential
      → is_member (job_identity j) st.expected ≡ false
      → get (job_identity j) st.results ≡ some r
      → r.ordinal ≡ j.ordinal
      → length r.digest ≡ digest_length j.algorithm
      → take_job credential j st
        ≡ ok (record {
          results = remove (job_identity j) st.results;
          expected = job_identity j ∷ st.expected;
          digests = insert (job_identity j) r.digest st.digests;
        })
  unfolding take_job
  take_job-ok credential j r st h₁ h₂ h₃ h₄ h₅ = ground arith

  take_jobs-ok :
      (credential : ℕ) (js others : List DigestJob) (expected : List Identity)
      (d : Map Identity Bytes)
      → All (λ (j : DigestJob). j.credential_id ≡ credential) js
      → All (λ (j : DigestJob). is_member (job_identity j) expected ≡ false) js
      → DistinctBy job_identity (js ++ others)
      → (seen : List Identity) × (take_jobs credential js
            (record { results = filed (js ++ others); expected = expected; digests = d })
          ≡ ok (record {
            results = filed others;
            expected = seen;
            digests = insert_all job_identity (λ j. (run j).digest) js d;
          }))
  unfolding take_jobs insert_all
  take_jobs-ok credential [] others expected d c e h = (expected, refl)
  take_jobs-ok credential (j ∷ js) others expected d (c, cs) (e, es) (ne, h) =
      let taken =
        take_job-ok credential j (run j)
          (record { results = filed (j ∷ js ++ others); expected = expected; digests = d }) c e
          (get-index_head job_identity run j (js ++ others) []) (keeps.ordinal j)
          (keeps.lengths j) in
      let removed = remove-index_head job_identity run j (js ++ others) [] ne (get-nil _) in
      let (seen, rest) =
        take_jobs-ok credential js others (job_identity j ∷ expected)
          (insert (job_identity j) (run j).digest d) cs
          (is_member-later j expected js (All-front _ js others ne) es) h in
      (seen, rw (taken, removed) rest)

  place_digest-ok :
      (credential : ℕ) (planned : PlannedMdocDigest) (v : Bytes) (ds : Map Identity Bytes)
      (m : DigestIds)
      → planned.credential_id ≡ credential
      → get (planned_identity planned) ds ≡ some v
      → get planned.digest_id m ≡ none
      → place_digest credential planned (ds, m)
        ≡ ok (remove (planned_identity planned) ds, insert planned.digest_id v m)
  unfolding place_digest
  place_digest-ok credential planned v ds m h₁ h₂ h₃ = ground arith

  place_digests-ok :
      (credential k : ℕ) (ds : List PlannedMdocDigest) (js rest : List DigestJob) (m : DigestIds)
      → AlignedDigests credential k ds js
      → DistinctBy (λ (d : PlannedMdocDigest). d.digest_id) ds
      → AbsentIds m ds
      → DistinctBy job_identity (js ++ rest)
      → place_digests credential ds (digests (js ++ rest), m)
        ≡ ok (digests rest, expected_digests run ds js m)
  unfolding place_digests
  place_digests-ok credential k [] [] rest m h u a q = refl
  place_digests-ok credential k [] (j ∷ js) rest m h u a q = absurd h
  place_digests-ok credential k (d ∷ ds) [] rest m h u a q = absurd h
  place_digests-ok credential k (d ∷ ds) (j ∷ js) rest m (h₁, h₂, h₃, h₄, h) (ne, u) (new, a)
        (qe, q) =
      let same : planned_identity d ≡ job_identity j = λ i. ((h₁ ∙ sym h₃) i, (h₂ ∙ sym h₄) i) in
      let v : DigestJob → Bytes = λ j. (run j).digest in
      let placed =
        place_digest-ok credential d (v j) (digests (j ∷ js ++ rest)) m h₁
          (ap (λ i. get i (digests (j ∷ js ++ rest))) same
            ∙ get-index_head job_identity v j (js ++ rest) [])
          new in
      let removed = remove-index_head job_identity v j (js ++ rest) [] qe (get-digest_nil _) in
      rw (placed, same, removed)
        (place_digests-ok credential (suc k) ds js rest (insert d.digest_id (v j) m) h u
          (AbsentIds-insert d (v j) m ds ne a) q)

  place_namespaces-ok :
      (credential k : ℕ) (ns : List PlannedMdocNamespace) (jobs : List DigestJob)
      (m : Map Str DigestIds)
      → Aligned credential k ns jobs
      → All HasDistinctIds ns
      → DistinctBy name_of ns
      → AbsentNames m ns
      → DistinctBy job_identity jobs
      → place_namespaces credential ns (digests jobs) m ≡ ok ([], expected_namespaces run ns jobs m)
  unfolding place_namespaces index
  place_namespaces-ok credential k [] jobs m h ids names a q = rw h
  place_namespaces-ok credential k (n ∷ ns) jobs m (js, rest, split, here, later) (u, ids)
        (ne, names) (new, a) q =
      let q' : DistinctBy job_identity (js ++ rest) = rw (← split) q in
      let placed =
        place_digests-ok credential k n.digests js rest [] here u (AbsentIds-nil n.digests) q' in
      let ids' = expected_digests run n.digests js [] in
      let later' =
        place_namespaces-ok credential (k + length js) ns rest (insert n.name ids' m) later ids
          names (AbsentNames-insert n ids' m ns ne a)
          (DistinctBy-append_parts job_identity js rest q') in
      rw (
        split,
        placed,
        new,
        later',
        expected_digests-append run credential k n.digests js rest [] here,
        drop-aligned credential k n.digests js rest here,
      )

  -- A sound plan takes the results of its own jobs, and leaves those of the others.
  pub assemble_plan_sound :
      (plan : MdocDigestPlan) (others : List DigestJob)
      → IsSound plan
      → All (λ (j : DigestJob). j.credential_id ≡ plan.credential_id) plan.jobs
      → DistinctBy job_identity plan.jobs
      → DistinctBy job_identity (plan.jobs ++ others)
      → assemble_plan plan (filed (plan.jobs ++ others)) ≡ ok (filed others, expected run plan)
  unfolding assemble_plan
  assemble_plan_sound plan others s own q r =
      let (seen, taken) =
        take_jobs-ok plan.credential_id plan.jobs others [] [] own (never plan.jobs) r in
      let same = insert_all-eq-index job_identity (λ j. (run j).digest) plan.jobs [] q in
      let placed =
        place_namespaces-ok plan.credential_id 0 plan.namespaces plan.jobs [] s.aligned
          s.distinct_ids s.distinct_names (AbsentNames-nil plan.namespaces) q in
      rw (taken, same, placed)
    where
      never :
          (js : List DigestJob) → All (λ (j : DigestJob). is_member (job_identity j) [] ≡ false) js
      never [] = tt
      never (j ∷ js) = (refl, never js)
