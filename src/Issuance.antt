-- ===== src/Issuance.antt =====
-- src/issuance/mdoc.rs: the preparation of an mdoc. Digests are planned for every element, run by
-- an executor, and assembled again by the identity of their jobs.
pub mod Plan
pub mod Pushed
pub mod Planned
pub mod Items
pub mod Draws
pub mod Tracked
pub mod Filed
pub mod Assembly
pub mod Aligned
pub mod Ordered
pub mod Reordered
pub mod Numbered
pub mod Schedule
pub mod Prepare
pub mod Executors
pub mod Signed
mod Tests
use isomdl_elevenid.Common.{ℕ, ◌+◌, ◌-◌, ◌^◌, ◌≡◌, List, Bool, true, false, if◌then◌else◌}
use isomdl_elevenid.Common.Order.{Str, ◌==◌, nat_ord}
use isomdl_elevenid.Common.Map.{Map}
use isomdl_elevenid.Common.Int.{ℤ, pos, negsuc}
use isomdl_elevenid.Session.{Bytes}
use isomdl_elevenid.Digest.{DigestJob}
use isomdl_elevenid.DeviceKey.{KeyAuthorizationsError}

-- The errors of the preparation, one for each message.
pub data IssueError : Type 0 where
  missing_doc_type missing_namespaces missing_validity_info : IssueError
  missing_digest_algorithm missing_device_key_info : IssueError
  duplicate_credential_identity : IssueError
  key_authorizations : KeyAuthorizationsError → IssueError
  missing_signature_algorithm unauthentic_signature : IssueError
  no_namespace empty_namespace : IssueError
  unable_to_encode : IssueError
  too_many_jobs : IssueError
  inconsistent_credential_identity : IssueError
  duplicate_job_identity : IssueError
  unknown_job : IssueError
  omitted_result : IssueError
  changed_identity_metadata : IssueError
  invalid_digest_length : IssueError
  duplicate_digest_id : IssueError
  duplicate_namespace : IssueError
  unreferenced_job : IssueError
  unexpected_result : IssueError
  duplicate_result_identity : IssueError
  omitted_credential : IssueError
  execution_failed : IssueError
  -- Not in the source: the model's fuel for the drawing of digest IDs ran out.
  out_of_draws : IssueError

-- `DigestId(i32)`
abbrev pub DigestId : Type 0
DigestId = ℤ

-- `DigestId::new`: `-i` wraps at the least `i32`, as in a build without overflow checks.
unfoldable pub digest_id_new : ℤ → DigestId
digest_id_new (pos n) = pos n
digest_id_new (negsuc n) = if n == 2 ^ 31 - 1 then negsuc n else pos (n + 1)

-- `DigestIds`: a digest for each ID of a namespace.
abbrev pub DigestIds : Type 0
DigestIds = Map DigestId Bytes

pub record PlannedMdocDigest : Type 0 where
  pub credential_id : ℕ
  pub job_id : ℕ
  pub digest_id : DigestId

pub record PlannedMdocNamespace : Type 0 where
  pub name : Str
  pub digests : List PlannedMdocDigest

pub record MdocDigestPlan : Type 0 where
  pub credential_id : ℕ
  pub namespaces : List PlannedMdocNamespace
  pub jobs : List DigestJob
