-- ===== src/Digest.antt =====
-- src/digest_executor.rs: digest jobs, their results, and the scalar executor. The SHA-2 digests
-- of the crate `sha2` are a parameter.
pub mod Parallel
pub mod Budget
pub mod Agrees
mod Tests
use isomdl_elevenid.Common.{ℕ, ◌≡◌, List, map, Result, ok, length}
use isomdl_elevenid.Session.{Bytes}

pub data DigestAlgorithm : Type 0 where
  sha256 sha384 sha512 : DigestAlgorithm

pub record DigestJob : Type 0 where
  pub credential_id : ℕ
  pub job_id : ℕ
  pub ordinal : ℕ
  pub algorithm : DigestAlgorithm
  pub input : Bytes

pub record DigestResult : Type 0 where
  pub credential_id : ℕ
  pub job_id : ℕ
  pub ordinal : ℕ
  pub digest : Bytes

pub data DigestExecutionError : Type 0 where
  digest_execution_error : DigestExecutionError

unfoldable pub digest_length : DigestAlgorithm → ℕ
digest_length sha256 = 32
digest_length sha384 = 48
digest_length sha512 = 64

-- `Sha256::digest`, `Sha384::digest` and `Sha512::digest`, chosen by the algorithm.
abbrev pub Sha2 : Type 0
Sha2 = DigestAlgorithm → Bytes → Bytes

-- Each digest has the length of its algorithm.
abbrev pub HasLengths : Sha2 → Type 0
HasLengths digest =
    (a : DigestAlgorithm) (input : Bytes) → length (digest a input) ≡ digest_length a

unfoldable pub digest_result : DigestJob → Bytes → DigestResult
digest_result job digest = record {
  credential_id = job.credential_id;
  job_id = job.job_id;
  ordinal = job.ordinal;
  digest = digest;
}

-- `DigestExecutor::execute`
abbrev pub Executor : Type 0
Executor = List DigestJob → Result DigestExecutionError (List DigestResult)

module _ (digest : Sha2) where
  unfoldable pub execute_digest_job : DigestJob → DigestResult
  unfolding digest_result
  execute_digest_job job = digest_result job (digest job.algorithm job.input)

  unfoldable pub serial_execute : Executor
  serial_execute jobs = ok (map execute_digest_job jobs)
