-- ===== src/Digest/Tests.antt =====
-- Runs of the executors, and their theorems at inputs.
use isomdl_elevenid.Common.{ℕ, ◌+◌, ◌≡◌, refl, List, [], ◌∷◌, some, length, replicate}
use isomdl_elevenid.Digest.{sha256, DigestJob, digest_length, Sha2, serial_execute}
use isomdl_elevenid.Digest.Budget.{
  Budget, new, try_acquire, release, Steps, stay, step, acquire, drop_lease, sum, Steps-balanced,
}
use isomdl_elevenid.Digest.Parallel.{
  Pool, native_execute, adaptive_execute, chunks, chunks_within, static_chunk_size,
}
use isomdl_elevenid.Digest.Agrees.{native_execute-serial, adaptive_execute-serial}

abbrev toy_sha2 : Sha2
toy_sha2 algorithm input = replicate (digest_length algorithm) (length input)

abbrev job_of : ℕ → DigestJob
job_of n = record {
  credential_id = 0;
  job_id = n;
  ordinal = n;
  algorithm = sha256;
  input = n ∷ n ∷ [];
}

abbrev five_jobs : List DigestJob
five_jobs = job_of 0 ∷ job_of 1 ∷ job_of 2 ∷ job_of 3 ∷ job_of 4 ∷ []

abbrev pool : Pool
pool = record { threads = 4; budget = record { available = 3; capacity = 4 } }

native_execute-serial_example :
    native_execute toy_sha2 2 (some pool) five_jobs ≡ serial_execute toy_sha2 five_jobs
native_execute-serial_example = native_execute-serial toy_sha2 2 pool five_jobs

adaptive_execute-serial_example :
    adaptive_execute toy_sha2 8 (some pool) five_jobs ≡ serial_execute toy_sha2 five_jobs
adaptive_execute-serial_example = adaptive_execute-serial toy_sha2 8 pool five_jobs

chunks_two :
    chunks (static_chunk_size 5 2) five_jobs
    ≡ (job_of 0 ∷ job_of 1 ∷ job_of 2 ∷ []) ∷ (job_of 3 ∷ job_of 4 ∷ []) ∷ []
unfolding chunks chunks_within static_chunk_size
chunks_two = refl

-- Two leases are taken from a pool of eight, and the first is dropped.
abbrev budget_of : ℕ → Budget
budget_of available = record { available = available; capacity = 8 }

two_leases : Steps (new 8, []) (budget_of 6, 2 ∷ [])
unfolding new try_acquire release
two_leases =
    step (step (step stay (acquire 4 refl)) (acquire 2 refl))
      (drop_lease {budget = budget_of 2} (2 ∷ []) 4 [])

Steps-balanced_example : ((budget_of 6).capacity ≡ 8) × ((budget_of 6).available + sum (2 ∷ []) ≡ 8)
Steps-balanced_example = Steps-balanced 8 (budget_of 6) (2 ∷ []) two_leases
