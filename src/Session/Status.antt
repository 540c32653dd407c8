-- ===== src/Session/Status.antt =====
-- The status codes of src/definitions/session.rs (`Status` of a session message) and of
-- src/definitions/device_response.rs (`Status` of a response and `DocumentErrorCode`).
use isomdl_elevenid.Common.{ℕ, ◌<◌, ◌≡◌, ◌↔◌, arith, if◌then◌else◌, Result, ok, err}
use isomdl_elevenid.Common.Order.{◌==◌, nat_ord}
use isomdl_elevenid.Common.Int.{ℤ, pos, negsuc}

-- `unrecognised error code: {n}`
pub data StatusError {ℓ} (N : Type ℓ) : Type ℓ where
  unrecognised : N → StatusError N

pub data SessionStatus : Type 0 where
  session_encryption_error cbor_decoding_error session_termination : SessionStatus

unfoldable pub session_status_code : SessionStatus → ℕ
session_status_code session_encryption_error = 10
session_status_code cbor_decoding_error = 11
session_status_code session_termination = 20

unfoldable pub session_status_of_code : ℕ → Result (StatusError ℕ) SessionStatus
session_status_of_code n =
    if n == 10
    then ok session_encryption_error
    else if n == 11
    then ok cbor_decoding_error
    else if n == 20
    then ok session_termination
    else err (unrecognised n)

pub data ResponseStatus : Type 0 where
  status_ok general_error cbor_decoding cbor_validation : ResponseStatus

unfoldable pub response_status_code : ResponseStatus → ℕ
response_status_code status_ok = 0
response_status_code general_error = 10
response_status_code cbor_decoding = 11
response_status_code cbor_validation = 12

unfoldable pub response_status_of_code : ℕ → Result (StatusError ℕ) ResponseStatus
response_status_of_code n =
    if n == 0
    then ok status_ok
    else if n == 10
    then ok general_error
    else if n == 11
    then ok cbor_decoding
    else if n == 12
    then ok cbor_validation
    else err (unrecognised n)

pub data DocumentErrorCode : Type 0 where
  data_not_returned : DocumentErrorCode
  application_specific : ℤ → DocumentErrorCode

unfoldable pub document_error_code : DocumentErrorCode → ℤ
document_error_code data_not_returned = pos 0
document_error_code (application_specific i) = i

unfoldable pub document_error_of_code : ℤ → Result (StatusError ℤ) DocumentErrorCode
document_error_of_code (pos n) = if n == 0 then ok data_not_returned else err (unrecognised (pos n))
document_error_of_code (negsuc n) = ok (application_specific (negsuc n))

-- Decoding a code gives a status exactly when the status encodes to that code, for session and
-- response statuses alike; so every other code is refused.
pub status_of_code_iff :
    (n : ℕ) (s : SessionStatus) (r : ResponseStatus)
    → ((session_status_of_code n ≡ ok s) ↔ (session_status_code s ≡ n))
      × ((response_status_of_code n ≡ ok r) ↔ (response_status_code r ≡ n))
unfolding session_status_of_code session_status_code response_status_of_code response_status_code
status_of_code_iff n s r = ((session n s, session_back n s), (response n r, response_back n r))
  where
    session :
        (n : ℕ) (s : SessionStatus) → session_status_of_code n ≡ ok s → session_status_code s ≡ n
    session n s h = ground arith

    session_back :
        (n : ℕ) (s : SessionStatus) → session_status_code s ≡ n → session_status_of_code n ≡ ok s
    session_back n s h = ground arith

    response :
        (n : ℕ) (r : ResponseStatus) → response_status_of_code n ≡ ok r → response_status_code r ≡ n
    response n r h = ground arith

    response_back :
        (n : ℕ) (r : ResponseStatus) → response_status_code r ≡ n → response_status_of_code n ≡ ok r
    response_back n r h = ground arith

-- An error code read from an integer encodes back to it, and a positive integer is refused.
pub document_error_code-of_code :
    (i : ℤ)
    → ((c : DocumentErrorCode) → document_error_of_code i ≡ ok c → document_error_code c ≡ i)
      × ((n : ℕ) → i ≡ pos n → 0 < n → document_error_of_code i ≡ err (unrecognised i))
unfolding document_error_of_code document_error_code
document_error_code-of_code (pos n) = (λ c h. ground arith, λ m e h. ground arith)
document_error_code-of_code (negsuc n) = (λ c h. ground arith, λ m e h. ground arith)
