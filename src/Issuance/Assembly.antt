-- ===== src/Issuance/Assembly.antt =====
-- src/issuance/mdoc.rs: `assemble_digest_namespaces` and what it calls. Each loop of the source is
-- a function over the rest of what it iterates on and the variables that it changes.
use isomdl_elevenid.Common.{
  ℕ, ◌+◌, ◌^◌, Bool, true, false, not, ◌&&◌, ◌||◌, List, [], ◌∷◌, Option, none, some, ltb,
  if◌then◌else◌, length, Result, ok, err, ◌>>=◌, ◌>>◌, fail_if, ok_or,
}
use isomdl_elevenid.Common.Order.{Ord, ◌==◌, nat_ord, pair_ord, list_ord, Str}
use isomdl_elevenid.Common.Int.{int_ord}
use isomdl_elevenid.Common.Map.{Map, get, insert, remove, is_empty, contains_key}
use isomdl_elevenid.Session.{Bytes}
use isomdl_elevenid.Digest.{DigestJob, DigestResult, digest_length}
use isomdl_elevenid.Issuance.{
  IssueError, inconsistent_credential_identity, duplicate_job_identity, unknown_job, omitted_result,
  changed_identity_metadata, invalid_digest_length, duplicate_digest_id, duplicate_namespace,
  unreferenced_job, unexpected_result, duplicate_result_identity, omitted_credential, too_many_jobs,
  duplicate_credential_identity, DigestIds, PlannedMdocDigest, PlannedMdocNamespace, MdocDigestPlan,
}

-- `(credential_id, job_id)`
abbrev pub Identity : Type 0
Identity = ℕ × ℕ

abbrev pub job_identity : DigestJob → Identity
job_identity job = (job.credential_id, job.job_id)

abbrev pub result_identity : DigestResult → Identity
result_identity result = (result.credential_id, result.job_id)

abbrev pub planned_identity : PlannedMdocDigest → Identity
planned_identity planned = (planned.credential_id, planned.job_id)

-- `jobs.iter().zip(results).all(…)`
unfoldable pub follows : List DigestJob → List DigestResult → Bool
follows [] results = true
follows (job ∷ jobs) [] = true
follows (job ∷ jobs) (result ∷ results) =
    (job_identity job == result_identity result && job.ordinal == result.ordinal)
    && follows jobs results

unfoldable pub results_follow_plan_order : MdocDigestPlan → List DigestResult → Bool
unfolding follows
results_follow_plan_order plan results =
    length results == length plan.jobs && follows plan.jobs results

-- The variables of the loops of the ordered assembly.
pub record Ordered : Type 0 where
  pub jobs : List DigestJob
  pub results : List DigestResult
  pub expected_job_id : ℕ

-- One round of the inner loop, behind the calls of `next`.
unfoldable pub place_ordered :
    ℕ → PlannedMdocDigest → DigestJob → DigestResult → ℕ → DigestIds → Result IssueError DigestIds
place_ordered credential planned job result expected_job_id digest_ids = do
  fail_if (not (job.credential_id == credential)) inconsistent_credential_identity
  fail_if (not (job.job_id == expected_job_id)) duplicate_job_identity
  fail_if (not (planned.credential_id == credential)) inconsistent_credential_identity
  fail_if (not (planned_identity planned == job_identity job)) unknown_job
  fail_if (not (result_identity result == job_identity job)) changed_identity_metadata
  fail_if (not (result.ordinal == job.ordinal)) changed_identity_metadata
  fail_if (not (length result.digest == digest_length job.algorithm)) invalid_digest_length
  fail_if (contains_key planned.digest_id digest_ids) duplicate_digest_id
  fail_if (not (ltb (expected_job_id + 1) (2 ^ 64))) too_many_jobs
  ok (insert planned.digest_id result.digest digest_ids)

unfoldable pub ordered_digests :
    ℕ → List PlannedMdocDigest → Ordered → DigestIds → Result IssueError (Ordered × DigestIds)
ordered_digests credential [] st digest_ids = ok (st, digest_ids)
ordered_digests credential (planned ∷ ds) st digest_ids = elim st.jobs [
  | [] ↦ err unknown_job
  | job ∷ jobs ↦ elim st.results [
    | [] ↦ err omitted_result
    | result ∷ results ↦
        place_ordered credential planned job result st.expected_job_id digest_ids
        >>= ordered_digests credential ds
            (record { jobs = jobs; results = results; expected_job_id = st.expected_job_id + 1 })
  ]
]

unfoldable pub ordered_namespaces :
    ℕ
    → List PlannedMdocNamespace
    → Ordered
    → Map Str DigestIds
    → Result IssueError (Ordered × Map Str DigestIds)
ordered_namespaces credential [] st namespaces = ok (st, namespaces)
ordered_namespaces credential (namespace ∷ ns) st namespaces = do
  (st', digest_ids) ← ordered_digests credential namespace.digests st []
  fail_if (contains_key namespace.name namespaces) duplicate_namespace
  ordered_namespaces credential ns st' (insert namespace.name digest_ids namespaces)

unfoldable pub assemble_ordered_digest_namespaces :
    MdocDigestPlan → List DigestResult → Result IssueError (Map Str DigestIds)
assemble_ordered_digest_namespaces plan results = do
  (st, namespaces) ←
      ordered_namespaces plan.credential_id plan.namespaces
        (record { jobs = plan.jobs; results = results; expected_job_id = 0 }) []
  fail_if (not (is_empty st.jobs)) unreferenced_job
  fail_if (not (is_empty st.results)) unexpected_result
  ok namespaces

-- The loop that files the results, with the flag `duplicate_result`.
unfoldable pub file_results :
    List DigestResult → Map Identity DigestResult → Bool → Map Identity DigestResult × Bool
file_results [] filed duplicate = (filed, duplicate)
file_results (result ∷ results) filed duplicate =
    file_results results (insert (result_identity result) result filed)
      (contains_key (result_identity result) filed || duplicate)

-- `HashSet::insert`, which says whether the element is new.
abbrev pub is_member {ℓ} : {A : Type ℓ} ⦃o : Ord A⦄ → A → List A → Bool
is_member a [] = false
is_member a (x ∷ xs) = x == a || is_member a xs

-- The variables of the loop over the jobs of one plan.
pub record Taken : Type 0 where
  pub results : Map Identity DigestResult
  pub expected : List Identity
  pub digests : Map Identity Bytes

unfoldable pub take_job : ℕ → DigestJob → Taken → Result IssueError Taken
take_job credential job st = do
  fail_if (not (job.credential_id == credential)) inconsistent_credential_identity
  fail_if (is_member (job_identity job) st.expected) duplicate_job_identity
  result ← ok_or (get (job_identity job) st.results) omitted_result
  fail_if (not (result.ordinal == job.ordinal)) changed_identity_metadata
  fail_if (not (length result.digest == digest_length job.algorithm)) invalid_digest_length
  ok (record {
    results = remove (job_identity job) st.results;
    expected = job_identity job ∷ st.expected;
    digests = insert (job_identity job) result.digest st.digests;
  })

unfoldable pub take_jobs : ℕ → List DigestJob → Taken → Result IssueError Taken
take_jobs credential [] st = ok st
take_jobs credential (job ∷ jobs) st = take_job credential job st >>= take_jobs credential jobs

unfoldable pub place_digest :
    ℕ
    → PlannedMdocDigest
    → Map Identity Bytes × DigestIds
    → Result IssueError (Map Identity Bytes × DigestIds)
place_digest credential planned (digests, digest_ids) = do
  fail_if (not (planned.credential_id == credential)) inconsistent_credential_identity
  digest ← ok_or (get (planned_identity planned) digests) unknown_job
  fail_if (contains_key planned.digest_id digest_ids) duplicate_digest_id
  ok (remove (planned_identity planned) digests, insert planned.digest_id digest digest_ids)

unfoldable pub place_digests :
    ℕ
    → List PlannedMdocDigest
    → Map Identity Bytes × DigestIds
    → Result IssueError (Map Identity Bytes × DigestIds)
place_digests credential [] st = ok st
place_digests credential (planned ∷ ds) st =
    place_digest credential planned st >>= place_digests credential ds

unfoldable pub place_namespaces :
    ℕ
    → List PlannedMdocNamespace
    → Map Identity Bytes
    → Map Str DigestIds
    → Result IssueError (Map Identity Bytes × Map Str DigestIds)
place_namespaces credential [] digests namespaces = ok (digests, namespaces)
place_namespaces credential (namespace ∷ ns) digests namespaces = do
  (digests', digest_ids) ← place_digests credential namespace.digests (digests, [])
  fail_if (contains_key namespace.name namespaces) duplicate_namespace
  place_namespaces credential ns digests' (insert namespace.name digest_ids namespaces)

-- One round of the loop over the plans: the results that are left, and the namespaces.
unfoldable pub assemble_plan :
    MdocDigestPlan
    → Map Identity DigestResult
    → Result IssueError (Map Identity DigestResult × Map Str DigestIds)
assemble_plan plan results = do
  taken ←
      take_jobs plan.credential_id plan.jobs
        (record { results = results; expected = []; digests = [] })
  (digests, namespaces) ← place_namespaces plan.credential_id plan.namespaces taken.digests []
  fail_if (not (is_empty digests)) unreferenced_job
  ok (taken.results, namespaces)

unfoldable pub assemble_plans :
    List MdocDigestPlan
    → List ℕ
    → Map Identity DigestResult
    → Result IssueError (Map Identity DigestResult × List (Map Str DigestIds))
assemble_plans [] credential_ids results = ok (results, [])
assemble_plans (plan ∷ plans) credential_ids results = do
  fail_if (is_member plan.credential_id credential_ids) duplicate_credential_identity
  (results', namespaces) ← assemble_plan plan results
  (results'', batches) ← assemble_plans plans (plan.credential_id ∷ credential_ids) results'
  ok (results'', namespaces ∷ batches)

unfoldable pub assemble_filed :
    List MdocDigestPlan
    → Map Identity DigestResult × Bool
    → Result IssueError (List (Map Str DigestIds))
assemble_filed plans (filed, duplicate) = do
  fail_if duplicate duplicate_result_identity
  (results, batches) ← assemble_plans plans [] filed
  fail_if (not (is_empty results)) unexpected_result
  ok batches

unfoldable pub assemble_reordered_digest_batches :
    List MdocDigestPlan → List DigestResult → Result IssueError (List (Map Str DigestIds))
assemble_reordered_digest_batches plans results =
    assemble_filed plans (file_results results [] false)

-- `batches.pop()`
abbrev pub pop_last {ℓ} : {A : Type ℓ} → List A → Option A
pop_last [] = none
pop_last (x ∷ []) = some x
pop_last (x ∷ y ∷ ys) = pop_last (y ∷ ys)

unfoldable pub assemble_reordered_digest_namespaces :
    MdocDigestPlan → List DigestResult → Result IssueError (Map Str DigestIds)
assemble_reordered_digest_namespaces plan results = do
  batches ← assemble_reordered_digest_batches (plan ∷ []) results
  ok_or (pop_last batches) omitted_credential

unfoldable pub assemble_digest_namespaces :
    MdocDigestPlan → List DigestResult → Result IssueError (Map Str DigestIds)
assemble_digest_namespaces plan results =
    if results_follow_plan_order plan results
    then assemble_ordered_digest_namespaces plan results
    else assemble_reordered_digest_namespaces plan results
