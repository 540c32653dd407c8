-- ===== src/Issuance/Ordered.antt =====
-- The ordered assembly of a sound plan: with the results in the order of the jobs it gives what
-- is expected.
use native.Mathlib.Nat.{add-zero, add_assoc}
use native.Mathlib.Numerals.{add-one}
use isomdl_elevenid.Common.{
  ℕ, suc, ◌+◌, ◌^◌, ◌<◌, ◌≡◌, refl, ◌≢◌, List, [], ◌∷◌, ◌++◌, length, All, map, arith, ap, ok, none,
  length-append, sym,
}
use isomdl_elevenid.Common.Order.{Str, list_ord, nat_ord, pair_ord, ==-eq-false}
use isomdl_elevenid.Common.Int.{int_ord}
use isomdl_elevenid.Common.Index.{DistinctBy}
use isomdl_elevenid.Common.Map.{Map, get, insert, get-insert}
use isomdl_elevenid.Digest.{DigestJob, DigestResult, digest_length}
use isomdl_elevenid.Issuance.{DigestIds, PlannedMdocDigest, PlannedMdocNamespace, MdocDigestPlan}
use isomdl_elevenid.Issuance.Assembly.{
  Ordered, place_ordered, ordered_digests, ordered_namespaces, assemble_ordered_digest_namespaces,
}
use isomdl_elevenid.Issuance.Aligned.{
  AlignedDigests, Aligned, HasDistinctIds, name_of, IsSound, Keeps, expected_digests,
  expected_namespaces, expected, expected_digests-append, drop-aligned,
}

-- Every check of a round passes on consistent data.
place_ordered-ok :
    (credential k : ℕ) (d : PlannedMdocDigest) (j : DigestJob) (r : DigestResult) (m : DigestIds)
    → d.credential_id ≡ credential
    → d.job_id ≡ k
    → j.credential_id ≡ credential
    → j.job_id ≡ k
    → r.credential_id ≡ j.credential_id
    → r.job_id ≡ j.job_id
    → r.ordinal ≡ j.ordinal
    → length r.digest ≡ digest_length j.algorithm
    → k + 1 < 2 ^ 64
    → get d.digest_id m ≡ none
    → place_ordered credential d j r k m ≡ ok (insert d.digest_id r.digest m)
unfolding place_ordered
place_ordered-ok credential k d j r m h₁ h₂ h₃ h₄ h₅ h₆ h₇ h₈ b new = ground arith

-- A name or ID that differs from one just filed, and was not there before, is not there.
pub get-insert_ne :
    (d e : PlannedMdocDigest) (v : List ℕ) (m : DigestIds)
    → e.digest_id ≢ d.digest_id
    → get e.digest_id m ≡ none
    → get e.digest_id (insert d.digest_id v m) ≡ none
get-insert_ne d e v m ne h =
    rw
      (
        get-insert e.digest_id d.digest_id v m,
        ==-eq-false d.digest_id e.digest_id (λ p. ne (sym p)),
      )
      h

abbrev pub AbsentIds : DigestIds → List PlannedMdocDigest → Type 0
AbsentIds m = All (λ (d : PlannedMdocDigest). get d.digest_id m ≡ none)

pub AbsentIds-insert :
    (d : PlannedMdocDigest) (v : List ℕ) (m : DigestIds) (ds : List PlannedMdocDigest)
    → All (λ (e : PlannedMdocDigest). e.digest_id ≢ d.digest_id) ds
    → AbsentIds m ds
    → AbsentIds (insert d.digest_id v m) ds
AbsentIds-insert d v m [] ne h = tt
AbsentIds-insert d v m (e ∷ ds) (n, ne) (a, h) =
    (get-insert_ne d e v m n a, AbsentIds-insert d v m ds ne h)

pub AbsentIds-nil : (ds : List PlannedMdocDigest) → AbsentIds [] ds
unfolding get
AbsentIds-nil [] = tt
AbsentIds-nil (d ∷ ds) = (refl, AbsentIds-nil ds)

abbrev pub AbsentNames : Map Str DigestIds → List PlannedMdocNamespace → Type 0
AbsentNames m = All (λ (n : PlannedMdocNamespace). get n.name m ≡ none)

pub AbsentNames-insert :
    (n : PlannedMdocNamespace) (v : DigestIds) (m : Map Str DigestIds)
    (ns : List PlannedMdocNamespace)
    → All (λ (e : PlannedMdocNamespace). e.name ≢ n.name) ns
    → AbsentNames m ns
    → AbsentNames (insert n.name v m) ns
AbsentNames-insert n v m [] ne h = tt
AbsentNames-insert n v m (e ∷ ns) (ne, nes) (a, h) = (
  rw (get-insert e.name n.name v m, ==-eq-false n.name e.name (λ p. ne (sym p))) a,
  AbsentNames-insert n v m ns nes h,
)

pub AbsentNames-nil : (ns : List PlannedMdocNamespace) → AbsentNames [] ns
unfolding get
AbsentNames-nil [] = tt
AbsentNames-nil (n ∷ ns) = (refl, AbsentNames-nil ns)

pub count_suc : (k n : ℕ) → k + suc n ≡ suc k + n
count_suc k n = omega arith

module _ (run : DigestJob → DigestResult) (keeps : Keeps run) (credential : ℕ) where
  abbrev at : List DigestJob → ℕ → Ordered
  at jobs k = record { jobs = jobs; results = map run jobs; expected_job_id = k }

  ordered_digests-aligned :
      (k : ℕ) (ds : List PlannedMdocDigest) (js rest : List DigestJob) (m : DigestIds)
      → AlignedDigests credential k ds js
      → DistinctBy (λ (d : PlannedMdocDigest). d.digest_id) ds
      → AbsentIds m ds
      → k + length js < 2 ^ 64
      → ordered_digests credential ds (at (js ++ rest) k) m
        ≡ ok (at rest (k + length js), expected_digests run ds js m)
  unfolding ordered_digests
  ordered_digests-aligned k [] [] rest m h u a b = rw add-zero
  ordered_digests-aligned k [] (j ∷ js) rest m h u a b = absurd h
  ordered_digests-aligned k (d ∷ ds) [] rest m h u a b = absurd h
  ordered_digests-aligned k (d ∷ ds) (j ∷ js) rest m (h₁, h₂, h₃, h₄, h) (ne, u) (new, a) b =
      let placed =
        place_ordered-ok credential k d j (run j) m h₁ h₂ h₃ h₄ (keeps.credential j) (keeps.job j)
          (keeps.ordinal j) (keeps.lengths j) (omega arith) new in
      rw (placed, add-one, count_suc k (length js))
        (ordered_digests-aligned (suc k) ds js rest (insert d.digest_id (run j).digest m) h u
          (AbsentIds-insert d (run j).digest m ds ne a) (omega arith))

  ordered_namespaces-Aligned :
      (k : ℕ) (ns : List PlannedMdocNamespace) (jobs : List DigestJob) (m : Map Str DigestIds)
      → Aligned credential k ns jobs
      → All HasDistinctIds ns
      → DistinctBy name_of ns
      → AbsentNames m ns
      → k + length jobs < 2 ^ 64
      → ordered_namespaces credential ns (at jobs k) m
        ≡ ok (at [] (k + length jobs), expected_namespaces run ns jobs m)
  unfolding ordered_namespaces
  ordered_namespaces-Aligned k [] jobs m h ids names a b = rw (h, add-zero)
  ordered_namespaces-Aligned k (n ∷ ns) jobs m (js, rest, split, here, later) (u, ids) (ne, names)
        (new, a) b =
      let bound : k + length js + length rest < 2 ^ 64 =
        omega (arith, length-append js rest, ap length split) in
      let digests =
        ordered_digests-aligned k n.digests js rest [] here u (AbsentIds-nil n.digests)
          (omega arith) in
      let ids' = expected_digests run n.digests js [] in
      let names' =
        ordered_namespaces-Aligned (k + length js) ns rest (insert n.name ids' m) later ids names
          (AbsentNames-insert n ids' m ns ne a) bound in
      rw (
        split,
        digests,
        new,
        names',
        expected_digests-append run credential k n.digests js rest [] here,
        drop-aligned credential k n.digests js rest here,
        length-append js rest,
        add_assoc k (length js) (length rest),
      )

  pub assemble_ordered_sound :
      (plan : MdocDigestPlan)
      → plan.credential_id ≡ credential
      → IsSound plan
      → assemble_ordered_digest_namespaces plan (map run plan.jobs) ≡ ok (expected run plan)
  unfolding assemble_ordered_digest_namespaces
  assemble_ordered_sound plan same s =
      let placed =
        ordered_namespaces-Aligned 0 plan.namespaces plan.jobs [] (rw same at s.aligned)
          s.distinct_ids s.distinct_names (AbsentNames-nil plan.namespaces) (omega arith) in
      rw (same, placed)
