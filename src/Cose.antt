-- ===== src/Cose.antt =====
-- src/cose: the structures of COSE that are signed or authenticated, and their verification. The
-- encodings of coset and the algorithms are parameters; an algorithm is its number at IANA.
pub mod Sign1
pub mod Mac0
pub mod Verified
mod Tests
use isomdl_elevenid.Common.{
  ℕ, Bool, false, not, List, [], Option, none, some, Result, ok, err, if◌then◌else◌,
}
use isomdl_elevenid.Common.Order.{Str, ◌==◌}
use isomdl_elevenid.Common.Int.{ℤ, pos, negsuc, int_ord}

abbrev pub Algorithm : Type 0
Algorithm = ℤ

abbrev pub es256 : Algorithm
es256 = negsuc 6

abbrev pub es384 : Algorithm
es384 = negsuc 34

abbrev pub es512 : Algorithm
es512 = negsuc 35

abbrev pub eddsa : Algorithm
eddsa = negsuc 7

-- HMAC 256/256
abbrev pub hmac_256_256 : Algorithm
hmac_256_256 = pos 5

-- `RegisteredLabelWithPrivate<Algorithm>`
pub data AlgorithmLabel : Type 0 where
  private_use : ℤ → AlgorithmLabel
  assigned : Algorithm → AlgorithmLabel
  text : Str → AlgorithmLabel

pub record MaybeTagged (T : Type 0) : Type 0 where
  pub tagged : Bool
  pub inner : T

pub data CoseError : Type 0 where
  double_payload no_payload malformed_signature : CoseError

-- The messages of `VerificationResult::Failure`.
pub data Reason : Type 0 where
  algorithm_mismatch not_authentic : Reason

pub data VerificationResult : Type 0 where
  success : VerificationResult
  failure : Reason → VerificationResult
  error : CoseError → VerificationResult

abbrev pub checked : Bool → VerificationResult
checked verified = if verified then success else failure not_authentic

-- A payload is either attached or detached.
unfoldable pub exclusive_payload : Option (List ℕ) → Option (List ℕ) → Result CoseError (List ℕ)
exclusive_payload none none = err no_payload
exclusive_payload none (some detached) = ok detached
exclusive_payload (some attached) none = ok attached
exclusive_payload (some attached) (some detached) = err double_payload

-- `unwrap_or_default`
abbrev pub or_empty : Option (List ℕ) → List ℕ
or_empty none = []
or_empty (some bytes) = bytes

-- Whether the algorithm of a protected header, where it is an assigned one, is another one.
unfoldable pub is_mismatch : Option AlgorithmLabel → Algorithm → Bool
is_mismatch none algorithm = false
is_mismatch (some (private_use n)) algorithm = false
is_mismatch (some (text name)) algorithm = false
is_mismatch (some (assigned alg)) algorithm = not (algorithm == alg)
