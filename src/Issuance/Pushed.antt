-- ===== src/Issuance/Pushed.antt =====
-- What one call of `push_planned_digest` does to the planning of a namespace.
use isomdl_elevenid.Common.{
  ℕ, suc, ◌+◌, ◌^◌, ◌<◌, ◌≡◌, refl, sym, ap, ◌≢◌, inl, inr, Bool, true, false, List, [], ◌∷◌, ◌++◌,
  length, length-append, arith, All, All-map, All-append, ok, Bool-cases, ltb, ltb→lt, ◌||◌,
}
use isomdl_elevenid.Common.Order.{list_ord, nat_ord, ◌==◌}
use isomdl_elevenid.Common.Int.{int_ord}
use isomdl_elevenid.Common.Index.{DistinctBy, DistinctBy-append}
use isomdl_elevenid.Session.{Bytes}
use isomdl_elevenid.Digest.{DigestAlgorithm, DigestJob}
use isomdl_elevenid.Issuance.{DigestId, PlannedMdocDigest}
use isomdl_elevenid.Issuance.Assembly.{is_member}
use isomdl_elevenid.Issuance.Aligned.{AlignedDigests}
use isomdl_elevenid.Issuance.Plan.{Planning, push_planned_digest}

-- One more planned digest and its job keep the lists aligned.
pub AlignedDigests-snoc :
    (credential k : ℕ) (ds : List PlannedMdocDigest) (js : List DigestJob) (d : PlannedMdocDigest)
    (j : DigestJob)
    → AlignedDigests credential k ds js
    → d.credential_id ≡ credential
    → d.job_id ≡ k + length js
    → j.credential_id ≡ credential
    → j.job_id ≡ k + length js
    → AlignedDigests credential k (ds ++ (d ∷ [])) (js ++ (j ∷ []))
AlignedDigests-snoc credential k [] [] d j h h₁ h₂ h₃ h₄ = (h₁, omega arith, h₃, omega arith, tt)
AlignedDigests-snoc credential k [] (_ ∷ _) d j h h₁ h₂ h₃ h₄ = absurd h
AlignedDigests-snoc credential k (_ ∷ _) [] d j h h₁ h₂ h₃ h₄ = absurd h
AlignedDigests-snoc credential k (e ∷ ds) (i ∷ js) d j (p₁, p₂, p₃, p₄, h) h₁ h₂ h₃ h₄ = (
  p₁,
  p₂,
  p₃,
  p₄,
  AlignedDigests-snoc credential (suc k) ds js d j h h₁ (omega arith) h₃ (omega arith),
)

pub append_assoc : {A : Type 0} (xs ys zs : List A) → (xs ++ ys) ++ zs ≡ xs ++ (ys ++ zs)
append_assoc [] ys zs = refl
append_assoc (x ∷ xs) ys zs = ap (λ l. x ∷ l) (append_assoc xs ys zs)

-- The state of the planning of one namespace that started with the jobs `before`, numbered from `k`.
pub record IsPlanned (credential : ℕ) (before : List DigestJob) (k : ℕ) (st : Planning)
    : Type 0 where
  pub js : List DigestJob
  pub jobs_eq : st.jobs ≡ before ++ js
  pub aligned : AlignedDigests credential k st.planned_digests js
  pub next_eq : st.next_job_id ≡ k + length js
  pub distinct : DistinctBy (λ (d : PlannedMdocDigest). d.digest_id) st.planned_digests
  pub bounded : st.next_job_id < 2 ^ 64

abbrev pub Unused : DigestId → Planning → Type 0
Unused id st = All (λ (d : PlannedMdocDigest). d.digest_id ≢ id) st.planned_digests

-- What one push adds.
abbrev pub new_planned : ℕ → DigestId → Planning → PlannedMdocDigest
new_planned credential id st = record {
  credential_id = credential;
  job_id = st.next_job_id;
  digest_id = id;
}

abbrev pub new_job : ℕ → ℕ → DigestAlgorithm → Bytes → Planning → DigestJob
new_job credential ordinal algorithm input st = record {
  credential_id = credential;
  job_id = st.next_job_id;
  ordinal = ordinal;
  algorithm = algorithm;
  input = input;
}

abbrev pub pushed : ℕ → DigestId → ℕ → DigestAlgorithm → Bytes → Planning → Planning
pushed credential id ordinal algorithm input st = record {
  next_job_id = st.next_job_id + 1;
  jobs = st.jobs ++ (new_job credential ordinal algorithm input st ∷ []);
  planned_digests = st.planned_digests ++ (new_planned credential id st ∷ []);
}

pub push_planned_digest-pushed :
    (credential : ℕ) (id : DigestId) (ordinal : ℕ) (algorithm : DigestAlgorithm) (input : Bytes)
    (st st' : Planning)
    → push_planned_digest credential id ordinal algorithm input st ≡ ok st'
    → (st.next_job_id + 1 < 2 ^ 64) × (st' ≡ pushed credential id ordinal algorithm input st)
unfolding push_planned_digest
push_planned_digest-pushed credential id ordinal algorithm input st st' h =
    elim (Bool-cases (ltb (st.next_job_id + 1) (2 ^ 64))) [
      | inl e ↦ (ltb→lt _ _ e, cc)
      | inr e ↦ absurd cc
    ]

pub pushed-IsPlanned :
    (credential : ℕ) (before : List DigestJob) (k : ℕ) (id : DigestId) (ordinal : ℕ)
    (algorithm : DigestAlgorithm) (input : Bytes) (st : Planning)
    → st.next_job_id + 1 < 2 ^ 64
    → IsPlanned credential before k st
    → Unused id st
    → IsPlanned credential before k (pushed credential id ordinal algorithm input st)
pushed-IsPlanned credential before k id ordinal algorithm input st b p u =
    let j = new_job credential ordinal algorithm input st in
    let d = new_planned credential id st in
    record {
      js = p.js ++ (j ∷ []);
      jobs_eq = rw p.jobs_eq (append_assoc before p.js (j ∷ []));
      aligned =
          AlignedDigests-snoc credential k st.planned_digests p.js d j p.aligned refl p.next_eq refl
            p.next_eq;
      next_eq = omega (arith, p.next_eq, length-append p.js (j ∷ []));
      distinct =
          DistinctBy-append (λ (d : PlannedMdocDigest). d.digest_id) st.planned_digests (d ∷ [])
            p.distinct (tt, tt)
            (All-map (λ (e : PlannedMdocDigest). e.digest_id ≢ id)
              (λ (e : PlannedMdocDigest).
                All (λ (y : PlannedMdocDigest). y.digest_id ≢ e.digest_id) (d ∷ []))
              (λ e n. (λ q. n (sym q), tt)) st.planned_digests u);
      bounded = b;
    }

pub pushed-Unused :
    (credential : ℕ) (id other : DigestId) (ordinal : ℕ) (algorithm : DigestAlgorithm)
    (input : Bytes) (st : Planning)
    → id ≢ other
    → Unused other st
    → Unused other (pushed credential id ordinal algorithm input st)
pushed-Unused credential id other ordinal algorithm input st n u =
    All-append (λ (d : PlannedMdocDigest). d.digest_id ≢ other) st.planned_digests _ u (n, tt)

-- All planned IDs are among those used.
abbrev pub Covered : List DigestId → Planning → Type 0
Covered used st =
    All (λ (d : PlannedMdocDigest). is_member d.digest_id used ≡ true) st.planned_digests

pub Covered-Unused :
    (used : List DigestId) (id : DigestId) (ds : List PlannedMdocDigest)
    → is_member id used ≡ false
    → All (λ (d : PlannedMdocDigest). is_member d.digest_id used ≡ true) ds
    → All (λ (d : PlannedMdocDigest). d.digest_id ≢ id) ds
Covered-Unused used id ds new =
    All-map (λ (d : PlannedMdocDigest). is_member d.digest_id used ≡ true)
      (λ (d : PlannedMdocDigest). d.digest_id ≢ id)
      (λ d h q. absurd (cc (new, h, ap (λ i. is_member i used) q))) ds

pub or-right : (a b : Bool) → b ≡ true → (a || b) ≡ true
or-right true b h = refl
or-right false b h = h

pub Covered-cons :
    (used : List DigestId) (id : DigestId) (ds : List PlannedMdocDigest)
    → All (λ (d : PlannedMdocDigest). is_member d.digest_id used ≡ true) ds
    → All (λ (d : PlannedMdocDigest). is_member d.digest_id (id ∷ used) ≡ true) ds
Covered-cons used id ds =
    All-map (λ (d : PlannedMdocDigest). is_member d.digest_id used ≡ true)
      (λ (d : PlannedMdocDigest). is_member d.digest_id (id ∷ used) ≡ true)
      (λ d h. or-right (id == d.digest_id) (is_member d.digest_id used) h) ds
