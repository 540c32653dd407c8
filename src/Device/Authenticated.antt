-- ===== src/Device/Authenticated.antt =====
-- What it means that a request is reported as authenticated.
use isomdl_elevenid.Common.{
  ok_or-eq-ok, ◌≡◌, ◌∙◌, refl, sym, ap, Bool, true, false, List, [], ◌∷◌, ◌++◌, map, some, Result,
  ok, err, >>=-eq-ok, ok-injective, ok_or, if◌then◌else◌,
}
use isomdl_elevenid.Common.Order.{Str}
use isomdl_elevenid.Common.Map.{is_empty}
use isomdl_elevenid.Session.{Bytes}
use isomdl_elevenid.Device.ReaderAuth.{
  DocRequest, DeviceRequest, ReaderAuthError, invalid_x5chain, ReaderCrypto, valid, invalid,
  unverified, check_signature, errors_of, find_x5chain, authenticate, reader_authentication,
  validate_request,
}

module _ {ReaderAuth Chain Verifier Payload : Type 0}
    (crypto : ReaderCrypto ReaderAuth Chain Verifier Payload) where
  -- The first document request carries a signature by the key of a certificate chain, the chain passes
  -- its validation, and the signature is verified over the items that this request asks for.
  abbrev pub IsAuthenticated : DocRequest ReaderAuth → Type 0
  IsAuthenticated doc_request =
      (reader_auth : ReaderAuth) × (header : Bytes) × (chain : Chain) × (verifier : Verifier)
      × (payload : Payload) × (bytes : Bytes) × (doc_request.reader_auth ≡ some reader_auth)
      × (crypto.x5chain_header reader_auth ≡ some header)
      × (crypto.x5chain_from_cbor header ≡ some chain)
      × (crypto.validate chain ≡ [])
      × (crypto.end_entity_public_key chain ≡ some verifier)
      × (crypto.payload doc_request.items_request ≡ some payload)
      × (crypto.payload_to_vec payload ≡ some bytes)
      × (crypto.verify reader_auth verifier bytes ≡ true)

  no_errors :
      (xs : List Str) (r : Result ReaderAuthError (Unit {0}))
      → is_empty (map invalid_x5chain xs ++ errors_of crypto r) ≡ true
      → (xs ≡ []) × (r ≡ ok tt)
  no_errors [] (ok tt) h = (refl, refl)
  no_errors [] (err e) h = absurd cc
  no_errors (x ∷ xs) r h = absurd cc

  verified :
      (b : Bool)
      → ◌≡◌ {A = Result ReaderAuthError (Unit {0})} (if b then ok tt else err unverified) (ok tt)
      → b ≡ true
  verified true h = refl
  verified false h = absurd cc

  is_valid : (b : Bool) → (if b then valid else invalid) ≡ valid → b ≡ true
  is_valid true h = refl
  is_valid false h = absurd cc

  authenticated :
      (doc_request : DocRequest ReaderAuth) (r : Result ReaderAuthError (ReaderAuth × Chain))
      → find_x5chain crypto doc_request ≡ r
      → is_empty (authenticate crypto doc_request.items_request r).errors ≡ true
      → IsAuthenticated doc_request
  unfolding find_x5chain check_signature
  authenticated doc_request (err e) found h = absurd cc
  authenticated doc_request (ok (reader_auth, chain)) found h =
      let (validated, signed) =
        no_errors (crypto.validate chain)
          (check_signature crypto reader_auth doc_request.items_request chain) h in
      let (auth, present, h₁) = >>=-eq-ok (ok_or doc_request.reader_auth _) _ found in
      let (header, headed, h₂) = >>=-eq-ok (ok_or (crypto.x5chain_header auth) _) _ h₁ in
      let (x5chain, decoded, h₃) = >>=-eq-ok (ok_or (crypto.x5chain_from_cbor header) _) _ h₂ in
      let same = ok-injective _ _ h₃ in
      let (verifier, keyed, k₁) =
        >>=-eq-ok (ok_or (crypto.end_entity_public_key chain) _) _ signed in
      let (payload, built, k₂) =
        >>=-eq-ok (ok_or (crypto.payload doc_request.items_request) _) _ k₁ in
      let (bytes, encoded, k₃) = >>=-eq-ok (ok_or (crypto.payload_to_vec payload) _) _ k₂ in
      let auth_same : auth ≡ reader_auth = ap (λ t. t.0) same in
      let chain_same : x5chain ≡ chain = ap (λ t. t.1) same in
      (
        reader_auth,
        header,
        chain,
        verifier,
        payload,
        bytes,
        ok_or-eq-ok doc_request.reader_auth _ auth present ∙ ap some auth_same,
        ap (λ a. crypto.x5chain_header a) (sym auth_same)
            ∙ ok_or-eq-ok (crypto.x5chain_header auth) _ header headed,
        ok_or-eq-ok (crypto.x5chain_from_cbor header) _ x5chain decoded ∙ ap some chain_same,
        validated,
        ok_or-eq-ok (crypto.end_entity_public_key chain) _ verifier keyed,
        ok_or-eq-ok (crypto.payload doc_request.items_request) _ payload built,
        ok_or-eq-ok (crypto.payload_to_vec payload) _ bytes encoded,
        verified (crypto.verify reader_auth verifier bytes) k₃,
      )

  -- Where the reader authentication of a request is reported as valid, its first document request is
  -- authenticated: a chain that passes the validation, and a signature verified with its key over the
  -- items of that document request. Of the other document requests nothing is checked.
  pub validate_request-IsAuthenticated :
      (request : DeviceRequest ReaderAuth)
      → (validate_request crypto request).reader_authentication ≡ valid
      → IsAuthenticated request.doc_request
  unfolding validate_request reader_authentication
  validate_request-IsAuthenticated request h =
      authenticated request.doc_request (find_x5chain crypto request.doc_request) refl (
        is_valid
          (is_empty
            (authenticate crypto request.doc_request.items_request
              (find_x5chain crypto request.doc_request)).errors)
          h)
