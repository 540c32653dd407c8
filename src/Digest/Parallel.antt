-- ===== src/Digest/Parallel.antt =====
-- src/digest_executor.rs: the native executor and the adaptive choice. The thread pool is a parameter:
-- how many workers it has, and that its parallel iteration collects the chunks in their order, as
-- `rayon` documents. A panic of a worker is not modelled.
use isomdl_elevenid.Common.{
  ℕ, zero, suc, ◌+◌, ◌/◌, ◌%◌, Bool, ◌||◌, List, [], ◌∷◌, ◌++◌, Option, none, some, ltb,
  if◌then◌else◌, length, take, drop, map, min, Result, ok, err,
}
use isomdl_elevenid.Common.Order.{nat_ord, ◌==◌}
use isomdl_elevenid.Digest.{
  DigestJob, DigestResult, DigestExecutionError, digest_execution_error, Executor, Sha2,
  execute_digest_job, serial_execute,
}
use isomdl_elevenid.Digest.Budget.{Budget, try_acquire}

abbrev pub max_parallel_digest_workers : ℕ
max_parallel_digest_workers = 8

abbrev pub adaptive_parallel_min_digest_jobs : ℕ
adaptive_parallel_min_digest_jobs = 512

abbrev pub adaptive_parallel_min_input_bytes : ℕ
adaptive_parallel_min_input_bytes = 2097152

abbrev pub adaptive_parallel_max_workers : ℕ
adaptive_parallel_max_workers = 4

-- `job_count.div_ceil(worker_count)`, written out as in the source.
unfoldable pub static_chunk_size : ℕ → ℕ → ℕ
static_chunk_size job_count worker_count =
    job_count / worker_count + (if job_count % worker_count == 0 then 0 else 1)

-- `jobs.chunks(size)`, for at most `count` chunks: as many as there are jobs always suffice.
unfoldable pub chunks_within {ℓ} : {A : Type ℓ} → ℕ → ℕ → List A → List (List A)
chunks_within zero size xs = []
chunks_within (suc count) size [] = []
chunks_within (suc count) size (x ∷ xs) =
    take size (x ∷ xs) ∷ chunks_within count size (drop size (x ∷ xs))

unfoldable pub chunks {ℓ} : {A : Type ℓ} → ℕ → List A → List (List A)
unfolding chunks_within
chunks size xs = chunks_within (length xs) size xs

-- `flat_map_iter(…).collect()`, in the order of the chunks.
abbrev pub collect_chunks : (DigestJob → DigestResult) → List (List DigestJob) → List DigestResult
collect_chunks worker [] = []
collect_chunks worker (c ∷ cs) = map worker c ++ collect_chunks worker cs

-- `NativeDigestPool`
pub record Pool : Type 0 where
  pub threads : ℕ
  pub budget : Budget

abbrev pub input_bytes : List DigestJob → ℕ
input_bytes [] = 0
input_bytes (job ∷ jobs) = length job.input + input_bytes jobs

-- `.max().unwrap_or(0)`
abbrev pub largest : List (List DigestJob) → ℕ
largest [] = 0
largest (c ∷ cs) = if ltb (largest cs) (input_bytes c) then input_bytes c else largest cs

pub data AdaptiveDigestExecutionMode : Type 0 where
  serial : AdaptiveDigestExecutionMode
  native_parallel : ℕ → AdaptiveDigestExecutionMode

-- The chunk test: no chunk holds more than half of the bytes, rounded up.
unfoldable pub is_unbalanced : List DigestJob → ℕ → Bool
is_unbalanced jobs worker_count =
    ltb (input_bytes jobs / 2 + input_bytes jobs % 2)
      (largest (chunks (static_chunk_size (length jobs) worker_count) jobs))

unfoldable pub select_adaptive_digest_execution_mode :
    List DigestJob → ℕ → AdaptiveDigestExecutionMode
select_adaptive_digest_execution_mode jobs available_parallelism =
    let worker_count =
      min (min available_parallelism adaptive_parallel_max_workers) (length jobs) in
    if ltb (length jobs) adaptive_parallel_min_digest_jobs
    then serial
    else if ltb (input_bytes jobs) adaptive_parallel_min_input_bytes
    then serial
    else if ltb worker_count 2
    then serial
    else if is_unbalanced jobs worker_count
    then serial
    else native_parallel worker_count

module _ (sha2 : Sha2) where
  unfoldable pub execute_chunks :
      List DigestJob → ℕ → Result DigestExecutionError (List DigestResult)
  execute_chunks jobs worker_count =
      let results =
        collect_chunks (execute_digest_job sha2)
          (chunks (static_chunk_size (length jobs) worker_count) jobs) in
      if length results == length jobs then ok results else err digest_execution_error

  -- `execute_with_pool`, on an executor of `worker_count` workers.
  unfoldable pub execute_with_pool : ℕ → Pool → Executor
  execute_with_pool worker_count pool jobs =
      let workers = min (min worker_count pool.threads) (length jobs) in
      elim (try_acquire workers pool.budget) [
        | none ↦ ok (map (execute_digest_job sha2) jobs)
        | some _ ↦ execute_chunks jobs workers
      ]

  -- `NativeParallelDigestExecutor::execute`; there is no pool where its initialization fails.
  unfoldable pub native_execute : ℕ → Option Pool → Executor
  native_execute worker_count pool jobs =
      if ltb (length jobs) 2 || ltb worker_count 2
      then ok (map (execute_digest_job sha2) jobs)
      else elim pool [
        | none ↦ err digest_execution_error
        | some pool ↦ execute_with_pool worker_count pool jobs
      ]

  -- `NativeParallelDigestExecutor::new` caps the number of workers.
  unfoldable pub adaptive_execute : ℕ → Option Pool → Executor
  adaptive_execute available_parallelism pool jobs =
      elim (select_adaptive_digest_execution_mode jobs available_parallelism) [
        | serial ↦ serial_execute sha2 jobs
        | native_parallel worker_count ↦
            native_execute (min worker_count max_parallel_digest_workers) pool jobs
      ]
