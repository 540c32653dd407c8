-- ===== src/Issuance/Aligned.antt =====
-- Which plans are sound, and what their assembly is to be: each planned digest gets the digest of
-- the job at its own position.
use isomdl_elevenid.Common.{
  ℕ, suc, ◌+◌, ◌^◌, ◌<◌, ◌≡◌, refl, List, [], ◌∷◌, ◌++◌, length, drop, All, ap,
}
use isomdl_elevenid.Common.Order.{Str, list_ord, nat_ord}
use isomdl_elevenid.Common.Int.{int_ord}
use isomdl_elevenid.Common.Index.{DistinctBy}
use isomdl_elevenid.Common.Map.{Map, insert}
use isomdl_elevenid.Digest.{DigestJob, DigestResult, digest_length}
use isomdl_elevenid.Issuance.{DigestIds, PlannedMdocDigest, PlannedMdocNamespace, MdocDigestPlan}

-- The planned digests stand for the jobs one by one, and both are numbered from `k`.
abbrev pub AlignedDigests : ℕ → ℕ → List PlannedMdocDigest → List DigestJob → Type 0
AlignedDigests credential k [] [] = Unit
AlignedDigests credential k (d ∷ ds) (j ∷ js) =
    (d.credential_id ≡ credential)
    × (d.job_id ≡ k)
    × (j.credential_id ≡ credential)
    × (j.job_id ≡ k)
    × AlignedDigests credential (suc k) ds js
AlignedDigests credential k _ _ = ⊥

abbrev pub Aligned : ℕ → ℕ → List PlannedMdocNamespace → List DigestJob → Type 0
Aligned credential k [] jobs = jobs ≡ []
Aligned credential k (n ∷ ns) jobs =
    (js : List DigestJob) × (rest : List DigestJob) × (jobs ≡ js ++ rest)
    × AlignedDigests credential k n.digests js
    × Aligned credential (k + length js) ns rest

abbrev pub HasDistinctIds : PlannedMdocNamespace → Type 0
HasDistinctIds n = DistinctBy (λ (d : PlannedMdocDigest). d.digest_id) n.digests

abbrev pub name_of : PlannedMdocNamespace → Str
name_of n = n.name

pub record IsSound (plan : MdocDigestPlan) : Type 0 where
  pub aligned : Aligned plan.credential_id 0 plan.namespaces plan.jobs
  pub distinct_ids : All HasDistinctIds plan.namespaces
  pub distinct_names : DistinctBy name_of plan.namespaces
  pub bounded : length plan.jobs < 2 ^ 64

-- The contract of a `DigestExecutor`: the metadata of the job, and a digest of the right length.
pub record Keeps (run : DigestJob → DigestResult) : Type 0 where
  pub credential : (j : DigestJob) → (run j).credential_id ≡ j.credential_id
  pub job : (j : DigestJob) → (run j).job_id ≡ j.job_id
  pub ordinal : (j : DigestJob) → (run j).ordinal ≡ j.ordinal
  pub lengths : (j : DigestJob) → length (run j).digest ≡ digest_length j.algorithm

module _ (run : DigestJob → DigestResult) where
  abbrev pub expected_digests : List PlannedMdocDigest → List DigestJob → DigestIds → DigestIds
  expected_digests (d ∷ ds) (j ∷ js) m =
      expected_digests ds js (insert d.digest_id (run j).digest m)
  expected_digests _ _ m = m

  abbrev pub expected_namespaces :
      List PlannedMdocNamespace → List DigestJob → Map Str DigestIds → Map Str DigestIds
  expected_namespaces [] jobs m = m
  expected_namespaces (n ∷ ns) jobs m =
      expected_namespaces ns (drop (length n.digests) jobs)
        (insert n.name (expected_digests n.digests jobs []) m)

  abbrev pub expected : MdocDigestPlan → Map Str DigestIds
  expected plan = expected_namespaces plan.namespaces plan.jobs []

  pub expected_digests-append :
      (credential k : ℕ) (ds : List PlannedMdocDigest) (js rest : List DigestJob) (m : DigestIds)
      → AlignedDigests credential k ds js
      → expected_digests ds (js ++ rest) m ≡ expected_digests ds js m
  expected_digests-append credential k [] [] rest m h = refl
  expected_digests-append credential k [] (j ∷ js) rest m h = absurd h
  expected_digests-append credential k (d ∷ ds) [] rest m h = absurd h
  expected_digests-append credential k (d ∷ ds) (j ∷ js) rest m h =
      expected_digests-append credential (suc k) ds js rest _ h.4

-- The jobs of the first namespace are those in front.
pub drop-aligned :
    (credential k : ℕ) (ds : List PlannedMdocDigest) (js rest : List DigestJob)
    → AlignedDigests credential k ds js
    → drop (length ds) (js ++ rest) ≡ rest
drop-aligned credential k [] [] rest h = refl
drop-aligned credential k [] (j ∷ js) rest h = absurd h
drop-aligned credential k (d ∷ ds) [] rest h = absurd h
drop-aligned credential k (d ∷ ds) (j ∷ js) rest h = drop-aligned credential (suc k) ds js rest h.4

pub length-aligned :
    (credential k : ℕ) (ds : List PlannedMdocDigest) (js : List DigestJob)
    → AlignedDigests credential k ds js
    → length ds ≡ length js
length-aligned credential k [] [] h = refl
length-aligned credential k [] (j ∷ js) h = absurd h
length-aligned credential k (d ∷ ds) [] h = absurd h
length-aligned credential k (d ∷ ds) (j ∷ js) h =
    ap suc (length-aligned credential (suc k) ds js h.4)
