-- ===== src/Digest/Agrees.antt =====
-- The native and the adaptive executor return exactly what the scalar executor returns.
use native.Mathlib.Nat.{div-add-mod', zero-mul}
use isomdl_elevenid.Common.{
  ℕ, zero, suc, ◌+◌, ◌*◌, ◌/◌, ◌%◌, ◌≤◌, ◌<◌, ◌≡◌, ◌∙◌, refl, sym, ap, false, ◌||◌, inl, inr, List,
  [], ◌∷◌, ◌++◌, Option, none, some, Bool-cases, ltb, length, take, drop, map, min, arith,
  length-map, if◌then◌else◌,
}
use isomdl_elevenid.Common.Order.{nat_ord, ◌==◌, ==_self}
use isomdl_elevenid.Digest.{DigestJob, DigestResult, Sha2, execute_digest_job, serial_execute}
use isomdl_elevenid.Digest.Budget.{try_acquire, try_acquire-granted, Budget}
use isomdl_elevenid.Digest.Parallel.{
  static_chunk_size, chunks_within, chunks, collect_chunks, Pool, execute_chunks, execute_with_pool,
  native_execute, adaptive_execute, select_adaptive_digest_execution_mode, serial, native_parallel,
  is_unbalanced, AdaptiveDigestExecutionMode, input_bytes, largest, max_parallel_digest_workers,
}

map-append :
    (f : DigestJob → DigestResult) (xs ys : List DigestJob)
    → map f (xs ++ ys) ≡ map f xs ++ map f ys
map-append f [] ys = refl
map-append f (x ∷ xs) ys = ap (λ l. f x ∷ l) (map-append f xs ys)

take-drop : {A : Type 0} (n : ℕ) (xs : List A) → take n xs ++ drop n xs ≡ xs
take-drop zero xs = refl
take-drop (suc n) [] = refl
take-drop (suc n) (x ∷ xs) = ap (λ l. x ∷ l) (take-drop n xs)

length-drop_le : {A : Type 0} (n : ℕ) (xs : List A) → length (drop n xs) ≤ length xs
length-drop_le zero xs = omega arith
length-drop_le (suc n) [] = omega arith
length-drop_le (suc n) (x ∷ xs) = omega (arith, length-drop_le n xs)

-- The results of all chunks are those of all jobs, in order.
collect-chunks_within :
    (f : DigestJob → DigestResult) (count size : ℕ) (xs : List DigestJob)
    → length xs ≤ count
    → collect_chunks f (chunks_within count (suc size) xs) ≡ map f xs
unfolding chunks_within
collect-chunks_within f zero size [] h = refl
collect-chunks_within f zero size (x ∷ xs) h = absurd (omega arith)
collect-chunks_within f (suc count) size [] h = refl
collect-chunks_within f (suc count) size (x ∷ xs) h =
    ap (λ l. map f (take (suc size) (x ∷ xs)) ++ l)
      (collect-chunks_within f count size (drop size xs) (omega (arith, length-drop_le size xs)))
    ∙ sym (map-append f (take (suc size) (x ∷ xs)) (drop size xs))
    ∙ ap (map f) (take-drop (suc size) (x ∷ xs))

static_chunk_size-pos : (n w : ℕ) → 0 < n → 0 < w → 0 < static_chunk_size n w
unfolding static_chunk_size
static_chunk_size-pos n w h k = go (n / w) (n % w) (div-add-mod' n w)
  where
    go : (q r : ℕ) → q * w + r ≡ n → 0 < q + (if r == 0 then 0 else 1)
    go zero r e = rest r (omega (arith, zero-mul w, e))
      where
        rest : (r : ℕ) → r ≡ n → 0 < 0 + (if r == 0 then 0 else 1)
        rest zero e = absurd (omega arith)
        rest (suc r) e = ground arith
    go (suc q) r e = ground arith

module _ (sha2 : Sha2) where
  execute_chunks-serial :
      (jobs : List DigestJob) (workers : ℕ)
      → 0 < length jobs
      → 0 < workers
      → execute_chunks sha2 jobs workers ≡ serial_execute sha2 jobs
  unfolding execute_chunks serial_execute chunks
  execute_chunks-serial jobs workers h k = go (static_chunk_size (length jobs) workers) refl
    where
      go :
          (size : ℕ)
          → static_chunk_size (length jobs) workers ≡ size
          → execute_chunks sha2 jobs workers ≡ serial_execute sha2 jobs
      go zero e = absurd (omega (arith, static_chunk_size-pos (length jobs) workers h k))
      go (suc size) e =
          rw
            (
              e,
              collect-chunks_within (execute_digest_job sha2) (length jobs) size jobs (omega arith),
              length-map (execute_digest_job sha2) jobs,
              ==_self (length jobs),
            )
            refl

  execute_with_pool-serial :
      (worker_count : ℕ) (pool : Pool) (jobs : List DigestJob)
      → 0 < length jobs
      → execute_with_pool sha2 worker_count pool jobs ≡ serial_execute sha2 jobs
  unfolding execute_with_pool serial_execute
  execute_with_pool-serial worker_count pool jobs h =
      go (try_acquire (min (min worker_count pool.threads) (length jobs)) pool.budget) refl
    where
      go :
          (o : Option Budget)
          → try_acquire (min (min worker_count pool.threads) (length jobs)) pool.budget ≡ o
          → execute_with_pool sha2 worker_count pool jobs ≡ serial_execute sha2 jobs
      go none e = rw (execute_with_pool, e) refl
      go (some b) e =
          let (two, _, _, _) = try_acquire-granted _ pool.budget b e in
          rw (execute_with_pool, e)
            (execute_chunks-serial jobs (min (min worker_count pool.threads) (length jobs)) h
              (omega arith))

  -- Whatever the number of workers and the state of the budget: the native executor gives the results
  -- of the scalar one, in the order of the jobs.
  pub native_execute-serial :
      (worker_count : ℕ) (pool : Pool) (jobs : List DigestJob)
      → native_execute sha2 worker_count (some pool) jobs ≡ serial_execute sha2 jobs
  unfolding native_execute serial_execute
  native_execute-serial worker_count pool jobs =
      elim (Bool-cases (ltb (length jobs) 2 || ltb worker_count 2)) [
        | inl e ↦ rw e
        | inr e ↦ rw e (execute_with_pool-serial worker_count pool jobs (many e))
      ]
    where
      many : (ltb (length jobs) 2 || ltb worker_count 2) ≡ false → 0 < length jobs
      many e = ground arith

  -- Whatever the adaptive executor chooses, its results are those of the scalar executor.
  pub adaptive_execute-serial :
      (available_parallelism : ℕ) (pool : Pool) (jobs : List DigestJob)
      → adaptive_execute sha2 available_parallelism (some pool) jobs ≡ serial_execute sha2 jobs
  unfolding adaptive_execute
  adaptive_execute-serial available_parallelism pool jobs =
      go (select_adaptive_digest_execution_mode jobs available_parallelism) refl
    where
      go :
          (mode : AdaptiveDigestExecutionMode)
          → select_adaptive_digest_execution_mode jobs available_parallelism ≡ mode
          → adaptive_execute sha2 available_parallelism (some pool) jobs ≡ serial_execute sha2 jobs
      go serial e = rw (adaptive_execute, e) refl
      go (native_parallel w) e =
          rw (adaptive_execute, e)
            (native_execute-serial (min w max_parallel_digest_workers) pool jobs)

-- Native execution is chosen only for at least 512 jobs of at least 2 MiB together, with two to four
-- workers, where no chunk holds more than half of the bytes, rounded up.
select_adaptive-qualified :
    (jobs : List DigestJob) (available_parallelism w : ℕ)
    → select_adaptive_digest_execution_mode jobs available_parallelism ≡ native_parallel w
    → (512 ≤ length jobs)
      × (2097152 ≤ input_bytes jobs)
      × (2 ≤ w)
      × (w ≤ 4)
      × (w ≤ available_parallelism)
      × (largest (chunks (static_chunk_size (length jobs) w) jobs)
          ≤ input_bytes jobs / 2 + input_bytes jobs % 2)
unfolding select_adaptive_digest_execution_mode is_unbalanced
select_adaptive-qualified jobs available_parallelism w h = ground arith
