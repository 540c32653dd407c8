-- ===== src/Device/Signing.antt =====
-- The signing of a prepared response: one signature for each document, the last document first; with
-- the last signature the session manager holds the response, which is retrieved once.
use isomdl_elevenid.Common.{
  ◌≡◌, ◌∙◌, refl, ap, Bool, true, false, List, [], ◌∷◌, ◌++◌, Option, none, some, length, Result,
  ok, err, arith,
}
use isomdl_elevenid.Common.Map.{is_empty, is_some}
use isomdl_elevenid.Session.{Bytes, Aead, encrypt_device_data}
use isomdl_elevenid.Device.{
  PreparedDocument, ResponseDocument, PreparedDeviceResponse, DeviceResponse, State,
  awaiting_request, signing, ready_to_respond, non_empty,
}
use isomdl_elevenid.Device.Response.{
  DeviceCose, pop, finalize_document, submit_next_signature, get_next_signature_payload,
  is_complete, finalize_response, device_response_version,
}
use isomdl_elevenid.Device.ReaderAuth.{ReaderCrypto}
use isomdl_elevenid.Device.Manager.{
  SessionCbor, SessionManager, SubmitError, with_state, respond, response_bytes,
  manager_submit_next_signature, manager_next_signature_payload, retrieve_response, response_ready,
  submitted, submit_in, is_ready, retrieve_in, store_response, session_data_of, with_device_counter,
}

abbrev pub reverse : {A : Type 0} → List A → List A
reverse [] = []
reverse (x ∷ xs) = reverse xs ++ (x ∷ [])

pop-append : {A : Type 0} (xs : List A) (x : A) → pop (xs ++ (x ∷ [])) ≡ some (xs, x)
unfolding pop
pop-append [] x = refl
pop-append (y ∷ []) x = refl
pop-append (y ∷ z ∷ zs) x = rw (pop-append (z ∷ zs) x)

is_empty-append : {A : Type 0} (xs : List A) (x : A) → is_empty (xs ++ (x ∷ [])) ≡ false
is_empty-append [] x = refl
is_empty-append (y ∷ ys) x = refl

module _ {Item Auth Key Algorithm Cose DeviceAuth : Type 0}
    (cose : DeviceCose Key Algorithm Cose DeviceAuth) where
  -- The documents with their signatures.
  abbrev pub signed_with :
      List (PreparedDocument Item Auth Cose)
      → List Bytes
      → List (ResponseDocument Item Auth DeviceAuth)
  signed_with [] signatures = []
  signed_with (d ∷ ds) [] = []
  signed_with (d ∷ ds) (s ∷ ss) = finalize_document cose d s ∷ signed_with ds ss

  -- The documents that wait for a signature, the next one first, and those that are signed.
  abbrev pub waiting :
      PreparedDeviceResponse Item Auth Cose DeviceAuth
      → List (PreparedDocument Item Auth Cose)
      → List (ResponseDocument Item Auth DeviceAuth)
      → PreparedDeviceResponse Item Auth Cose DeviceAuth
  waiting p ds signed = record {
    prepared_documents = reverse ds;
    signed_documents = signed;
    document_errors = p.document_errors;
    status = p.status;
  }

  submit-waiting :
      (p : PreparedDeviceResponse Item Auth Cose DeviceAuth) (d : PreparedDocument Item Auth Cose)
      (ds : List (PreparedDocument Item Auth Cose))
      (signed : List (ResponseDocument Item Auth DeviceAuth)) (signature : Bytes)
      → submit_next_signature cose signature (waiting p (d ∷ ds) signed)
        ≡ waiting p ds (signed ++ (finalize_document cose d signature ∷ []))
  unfolding submit_next_signature
  submit-waiting p d ds signed signature = rw (pop-append (reverse ds) d)

  -- What the reader is sent once all documents are signed.
  abbrev pub signed_response :
      PreparedDeviceResponse Item Auth Cose DeviceAuth
      → List (ResponseDocument Item Auth DeviceAuth)
      → DeviceResponse Item Auth DeviceAuth
  signed_response p signed = record {
    version = device_response_version;
    documents = non_empty signed;
    document_errors = p.document_errors;
    status = p.status;
  }

module _
    {Item Auth Key Algorithm Cose DeviceAuth ReaderAuth Chain Verifier Payload Value
      AeadKey : Type 0}
    (cose : DeviceCose Key Algorithm Cose DeviceAuth)
    (crypto : ReaderCrypto ReaderAuth Chain Verifier Payload)
    (cbor : SessionCbor ReaderAuth Value (DeviceResponse Item Auth DeviceAuth))
    (lib : Aead AeadKey) where
  -- The loop of a caller that submits one signature after the other.
  abbrev pub submit_signatures :
      List Bytes
      → SessionManager Item Auth Key Cose DeviceAuth
      → SessionManager Item Auth Key Cose DeviceAuth
  submit_signatures [] manager = manager
  submit_signatures (s ∷ ss) manager =
      submit_signatures ss (manager_submit_next_signature cose crypto cbor lib s manager).1

  append_assoc : {A : Type 0} (xs ys zs : List A) → (xs ++ ys) ++ zs ≡ xs ++ (ys ++ zs)
  append_assoc [] ys zs = refl
  append_assoc (x ∷ xs) ys zs = ap (λ l. x ∷ l) (append_assoc xs ys zs)

  submit-last :
      (manager : SessionManager Item Auth Key Cose DeviceAuth)
      (p : PreparedDeviceResponse Item Auth Cose DeviceAuth) (d : PreparedDocument Item Auth Cose)
      (signed : List (ResponseDocument Item Auth DeviceAuth)) (s : Bytes)
      → manager_submit_next_signature cose crypto cbor lib s
          (with_state cose crypto cbor lib manager (signing (waiting cose p (d ∷ []) signed)))
        ≡ respond cose crypto cbor lib
            (with_state cose crypto cbor lib manager (signing (waiting cose p (d ∷ []) signed)))
            (response_bytes cose crypto cbor lib
              (signed_response cose p (signed ++ (finalize_document cose d s ∷ []))))
  unfolding manager_submit_next_signature is_complete finalize_response
  submit-last manager p d signed s = rw (submit-waiting cose p d [] signed s) refl

  submit-more :
      (manager : SessionManager Item Auth Key Cose DeviceAuth)
      (p : PreparedDeviceResponse Item Auth Cose DeviceAuth) (d e : PreparedDocument Item Auth Cose)
      (es : List (PreparedDocument Item Auth Cose))
      (signed : List (ResponseDocument Item Auth DeviceAuth)) (s : Bytes)
      → manager_submit_next_signature cose crypto cbor lib s
          (with_state cose crypto cbor lib manager (signing (waiting cose p (d ∷ e ∷ es) signed)))
        ≡ (
          ok tt,
          with_state cose crypto cbor lib manager
              (signing (waiting cose p (e ∷ es) (signed ++ (finalize_document cose d s ∷ [])))),
        )
  unfolding manager_submit_next_signature is_complete
  submit-more manager p d e es signed s =
      rw (submit-waiting cose p d (e ∷ es) signed s, is_empty-append (reverse es) e) refl

  -- What the manager does with the outcome does not depend on the state it was in.
  respond-state :
      (manager : SessionManager Item Auth Key Cose DeviceAuth)
      (st : State Item Auth Cose DeviceAuth) (r : Result SubmitError Bytes)
      → respond cose crypto cbor lib (with_state cose crypto cbor lib manager st) r
        ≡ respond cose crypto cbor lib manager r
  respond-state manager st (err e) = refl
  respond-state manager st (ok bytes) = stored (
      cbor.session_data_to_vec (
        session_data_of cose crypto cbor lib
          (encrypt_device_data lib manager.sk_device bytes manager.device_message_counter).0))
    where
      stored :
          (o : Option Bytes)
          → store_response cose crypto cbor lib
              (with_device_counter cose crypto cbor lib
                (with_state cose crypto cbor lib manager st)
                (encrypt_device_data lib manager.sk_device bytes manager.device_message_counter).1)
              o
            ≡ store_response cose crypto cbor lib
                (with_device_counter cose crypto cbor lib manager
                  (encrypt_device_data lib manager.sk_device bytes
                    manager.device_message_counter).1)
                o
      stored none = refl
      stored (some b) = refl

  -- With as many signatures as there are documents, and at least one, the manager goes on to respond
  -- with all documents, each under its own signature, in the order of the signing.
  pub submit_signatures-signed :
      (manager : SessionManager Item Auth Key Cose DeviceAuth)
      (p : PreparedDeviceResponse Item Auth Cose DeviceAuth) (d : PreparedDocument Item Auth Cose)
      (ds : List (PreparedDocument Item Auth Cose))
      (signed : List (ResponseDocument Item Auth DeviceAuth)) (s : Bytes) (ss : List Bytes)
      → length ss ≡ length ds
      → submit_signatures
          (s ∷ ss)
          (with_state cose crypto cbor lib manager (signing (waiting cose p (d ∷ ds) signed)))
        ≡ (respond cose crypto cbor lib manager (
            response_bytes cose crypto cbor lib
              (signed_response cose p (signed ++ signed_with cose (d ∷ ds) (s ∷ ss))))).1
  submit_signatures-signed manager p d [] signed s [] h =
      ap (λ r. r.1)
        (submit-last manager p d signed s
          ∙ respond-state manager (signing (waiting cose p (d ∷ []) signed)) _)
  submit_signatures-signed manager p d [] signed s (_ ∷ _) h = absurd (omega arith)
  submit_signatures-signed manager p d (e ∷ es) signed s [] h = absurd (omega arith)
  submit_signatures-signed manager p d (e ∷ es) signed s (t ∷ ts) h =
      ap (λ r. submit_signatures (t ∷ ts) r.1) (submit-more manager p d e es signed s)
      ∙ submit_signatures-signed manager p e es (signed ++ (finalize_document cose d s ∷ [])) t ts
          (omega arith)
      ∙ ap
          (λ l.
            (respond cose crypto cbor lib manager
              (response_bytes cose crypto cbor lib (signed_response cose p l))).1)
          (append_assoc signed (finalize_document cose d s ∷ [])
            (signed_with cose (e ∷ es) (t ∷ ts)))

  -- The payload that is asked for next is that of the document that the next signature completes.
  pub next_payload-waiting :
      (manager : SessionManager Item Auth Key Cose DeviceAuth)
      (p : PreparedDeviceResponse Item Auth Cose DeviceAuth) (d : PreparedDocument Item Auth Cose)
      (ds : List (PreparedDocument Item Auth Cose))
      (signed : List (ResponseDocument Item Auth DeviceAuth)) (s : Bytes)
      → (manager_next_signature_payload cose crypto cbor lib
            (with_state cose crypto cbor lib manager (signing (waiting cose p (d ∷ ds) signed)))
          ≡ some (d.id, cose.signature_payload d.prepared_cose))
        × (submit_next_signature cose s (waiting cose p (d ∷ ds) signed)
            ≡ waiting cose p ds (signed ++ (finalize_document cose d s ∷ [])))
  unfolding manager_next_signature_payload get_next_signature_payload
  next_payload-waiting manager p d ds signed s =
      (rw (pop-append (reverse ds) d), submit-waiting cose p d ds signed s)

  -- A response is retrieved exactly where it is ready, and only once.
  pub retrieve_response-once :
      (manager : SessionManager Item Auth Key Cose DeviceAuth)
      → (is_some (retrieve_response cose crypto cbor lib manager).0
          ≡ response_ready cose crypto cbor lib manager)
        × (response_ready cose crypto cbor lib (retrieve_response cose crypto cbor lib manager).1
            ≡ false)
  unfolding response_ready retrieve_response
  retrieve_response-once manager = go manager.state refl
    where
      go :
          (st : State Item Auth Cose DeviceAuth)
          → manager.state ≡ st
          → (is_some (retrieve_in cose crypto cbor lib manager.state manager).0
              ≡ is_ready cose crypto cbor lib manager.state)
            × (is_ready cose crypto cbor lib
                  (retrieve_in cose crypto cbor lib manager.state manager).1.state
                ≡ false)
      go awaiting_request e = rw e (refl, refl)
      go (signing p) e = rw e (refl, refl)
      go (ready_to_respond bytes) e = rw e (refl, refl)

  -- A submission that fails drops the prepared response: the manager awaits a request.
  pub submit-failed :
      (manager : SessionManager Item Auth Key Cose DeviceAuth) (s : Bytes) (e : SubmitError)
      → (manager_submit_next_signature cose crypto cbor lib s manager).0 ≡ err e
      → (manager_submit_next_signature cose crypto cbor lib s manager).1.state ≡ awaiting_request
  unfolding manager_submit_next_signature
  submit-failed manager s e h = from manager.state h
    where
      stored :
          (m : SessionManager Item Auth Key Cose DeviceAuth) (o : Option Bytes)
          → (store_response cose crypto cbor lib m o).0 ≡ err e
          → (store_response cose crypto cbor lib m o).1.state ≡ awaiting_request
      stored m none h = refl
      stored m (some b) h = absurd cc

      responded :
          (r : Result SubmitError Bytes)
          → (respond cose crypto cbor lib manager r).0 ≡ err e
          → (respond cose crypto cbor lib manager r).1.state ≡ awaiting_request
      responded (err x) h = refl
      responded (ok b) h =
          let sealed = encrypt_device_data lib manager.sk_device b manager.device_message_counter in
          stored (with_device_counter cose crypto cbor lib manager sealed.1)
            (cbor.session_data_to_vec (session_data_of cose crypto cbor lib sealed.0)) h

      done :
          (p : PreparedDeviceResponse Item Auth Cose DeviceAuth) (b : Bool)
          → (submitted cose crypto cbor lib manager p b).0 ≡ err e
          → (submitted cose crypto cbor lib manager p b).1.state ≡ awaiting_request
      done p true h = responded (response_bytes cose crypto cbor lib (finalize_response cose p)) h
      done p false h = absurd cc

      from :
          (st : State Item Auth Cose DeviceAuth)
          → (submit_in cose crypto cbor lib st s manager).0 ≡ err e
          → (submit_in cose crypto cbor lib st s manager).1.state ≡ awaiting_request
      from awaiting_request h = absurd cc
      from (ready_to_respond b) h = absurd cc
      from (signing p) h =
          done (submit_next_signature cose s p) (is_complete cose (submit_next_signature cose s p))
            h
