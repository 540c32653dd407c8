-- ===== src/Issuance/Numbered.antt =====
-- The jobs of a sound plan are numbered from 0, so their identities are distinct.
use native.Mathlib.Nat.{add-zero}
use isomdl_elevenid.Common.{ℕ, suc, ◌+◌, ◌<◌, ◌≡◌, ◌≢◌, ap, List, [], ◌∷◌, ◌++◌, length, All, arith}
use isomdl_elevenid.Common.Index.{DistinctBy}
use isomdl_elevenid.Digest.{DigestJob}
use isomdl_elevenid.Issuance.{PlannedMdocDigest, PlannedMdocNamespace}
use isomdl_elevenid.Issuance.Assembly.{job_identity}
use isomdl_elevenid.Issuance.Ordered.{count_suc}
use isomdl_elevenid.Issuance.Aligned.{AlignedDigests, Aligned}

abbrev pub Numbered : ℕ → ℕ → List DigestJob → Type 0
Numbered credential k [] = Unit
Numbered credential k (j ∷ js) =
    (j.credential_id ≡ credential) × (j.job_id ≡ k) × Numbered credential (suc k) js

Numbered-append :
    (credential k : ℕ) (ds : List PlannedMdocDigest) (js rest : List DigestJob)
    → AlignedDigests credential k ds js
    → Numbered credential (k + length js) rest
    → Numbered credential k (js ++ rest)
Numbered-append credential k [] [] rest h n = rw add-zero at n
Numbered-append credential k [] (j ∷ js) rest h n = absurd h
Numbered-append credential k (d ∷ ds) [] rest h n = absurd h
Numbered-append credential k (d ∷ ds) (j ∷ js) rest (h₁, h₂, h₃, h₄, h) n =
    (h₃, h₄, Numbered-append credential (suc k) ds js rest h (rw (count_suc k (length js)) at n))

pub Aligned-Numbered :
    (credential k : ℕ) (ns : List PlannedMdocNamespace) (jobs : List DigestJob)
    → Aligned credential k ns jobs
    → Numbered credential k jobs
Aligned-Numbered credential k [] jobs h = rw h tt
Aligned-Numbered credential k (n ∷ ns) jobs (js, rest, split, here, later) = rw split (
    Numbered-append credential k n.digests js rest here
      (Aligned-Numbered credential (k + length js) ns rest later))

pub Numbered-credential :
    (credential k : ℕ) (js : List DigestJob)
    → Numbered credential k js
    → All (λ (j : DigestJob). j.credential_id ≡ credential) js
Numbered-credential credential k [] h = tt
Numbered-credential credential k (j ∷ js) (h, _, hs) =
    (h, Numbered-credential credential (suc k) js hs)

Numbered-later :
    (credential k i : ℕ) (js : List DigestJob)
    → i < k
    → Numbered credential k js
    → (j : DigestJob) → j.job_id ≡ i
    → All (λ (y : DigestJob). job_identity y ≢ job_identity j) js
Numbered-later credential k i [] b h j e = tt
Numbered-later credential k i (y ∷ ys) b (_, h, hs) j e = (
  λ p. let q = ap (λ z. z.1) p in omega arith,
  Numbered-later credential (suc k) i ys (omega arith) hs j e,
)

pub Numbered-DistinctBy :
    (credential k : ℕ) (js : List DigestJob) → Numbered credential k js → DistinctBy job_identity js
Numbered-DistinctBy credential k [] h = tt
Numbered-DistinctBy credential k (j ∷ js) (_, h, hs) = (
  Numbered-later credential (suc k) k js (omega arith) hs j h,
  Numbered-DistinctBy credential (suc k) js hs,
)
