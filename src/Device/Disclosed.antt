-- ===== src/Device/Disclosed.antt =====
-- What a prepared response discloses: only items of the holder's own documents, for elements that the
-- holder permits and the reader requests.
use isomdl_elevenid.Common.{
  ◌≡◌, refl, ap, ◌+◌, List, [], ◌∷◌, length, length-append, Option, none, some, Option-cases, inl,
  inr, All, All-append, Result, ok, err, >>=-eq-ok, ok-injective, ok_or, arith,
}
use isomdl_elevenid.Common.Order.{Str, list_ord, nat_ord}
use isomdl_elevenid.Common.Map.{Map, get}
use isomdl_elevenid.Common.Sorted.{All-insert, All-get}
use isomdl_elevenid.Session.Status.{DocumentErrorCode}
use isomdl_elevenid.Device.{RequestedItems, PermittedItems, Document, PreparedDocument, non_empty}
use isomdl_elevenid.Device.Filter.{filter_permitted}
use isomdl_elevenid.Device.Permitted.{
  IsRequested, IsPermitted, KeptDocument, filter_permitted_sound,
}
use isomdl_elevenid.Device.Response.{
  DeviceCose, Selected, push_to, element_of, select_element, select_elements, select_namespaces,
  prepare_document, Outcome, push_outcome, prepare_documents, prepare_response,
}

module _ {Item : Type 0} (document : Map Str (Map Str Item)) (Granted : Str → Str → Type 0) where
  -- The item is what the document holds for some granted element.
  abbrev pub IsGranted : Str → Item → Type 0
  IsGranted namespace item =
      (element : Str) × Granted namespace element
      × (element_of element (get namespace document) ≡ some item)

  abbrev pub AreGranted : Str × List Item → Type 0
  AreGranted (namespace, items) = All (IsGranted namespace) items

  push_to-IsGranted :
      (namespace : Str) (item : Item) (items : Map Str (List Item))
      → IsGranted namespace item
      → All AreGranted items
      → All (IsGranted namespace) (push_to item (get namespace items))
  push_to-IsGranted namespace item items g h = elim (Option-cases (get namespace items)) [
    | inl e ↦ rw e (g, tt)
    | inr (old, e) ↦ rw e (
        All-append (IsGranted namespace) old (item ∷ [])
          (All-get AreGranted namespace old items h e) (g, tt))
  ]

  select_element-granted :
      (namespace element : Str) (o : Option Item) (st : Selected Item)
      → element_of element (get namespace document) ≡ o
      → Granted namespace element
      → All AreGranted st.0
      → All AreGranted (select_element namespace element o st).0
  unfolding select_element
  select_element-granted namespace element none (items, errors) e g h = h
  select_element-granted namespace element (some item) (items, errors) e g h =
      All-insert AreGranted namespace (push_to item (get namespace items)) items
        (push_to-IsGranted namespace item items (element, g, e) h) h

  select_elements-granted :
      (namespace : Str) (elements : List Str) (st : Selected Item)
      → All (Granted namespace) elements
      → All AreGranted st.0
      → All AreGranted (select_elements namespace (get namespace document) elements st).0
  unfolding select_elements
  select_elements-granted namespace [] st g h = h
  select_elements-granted namespace (e ∷ es) st (g, gs) h =
      select_elements-granted namespace es _ gs (select_element-granted namespace e _ st refl g h)

  pub select_namespaces-granted :
      (namespaces : Map Str (List Str)) (st : Selected Item)
      → All (λ (n : Str × List Str). All (Granted n.0) n.1) namespaces
      → All AreGranted st.0
      → All AreGranted (select_namespaces document namespaces st).0
  unfolding select_namespaces
  select_namespaces-granted [] st g h = h
  select_namespaces-granted ((n, es) ∷ ns) st (g, gs) h =
      select_namespaces-granted ns _ gs (select_elements-granted n es st g h)

-- The entries of a collection that is perhaps absent.
abbrev pub entries : {A : Type 0} → Option (List A) → List A
entries none = []
entries (some xs) = xs

entries-non_empty : {A : Type 0} (xs : List A) → entries (non_empty xs) ≡ xs
entries-non_empty [] = refl
entries-non_empty (x ∷ xs) = refl

module _ {Item Auth Key Algorithm Cose DeviceAuth : Type 0}
    (cose : DeviceCose Key Algorithm Cose DeviceAuth) (documents : Map Str (Document Item Auth Key))
    (request : RequestedItems) (permitted : PermittedItems) where
  -- All items of a prepared document come from the holder's document of its type, each for an element
  -- that is requested and permitted.
  abbrev pub Discloses : PreparedDocument Item Auth Cose → Type 0
  Discloses prepared =
      (document : Document Item Auth Key) × (get prepared.doc_type documents ≡ some document)
      × All
          (AreGranted document.namespaces (λ n e.
            IsRequested request prepared.doc_type n e
            × IsPermitted permitted prepared.doc_type n e))
          (entries prepared.issuer_namespaces)

  ok_or-some :
      {A : Type 0} (o : Option A) (e : DocumentErrorCode) (a : A) → ok_or o e ≡ ok a → o ≡ some a
  ok_or-some none e a h = absurd cc
  ok_or-some (some b) e a h = ap some (ok-injective b a h)

  prepare_document-Discloses :
      (d : Str) (nss : Map Str (List Str)) (p : PreparedDocument Item Auth Cose)
      → KeptDocument request permitted (d, nss)
      → prepare_document cose documents d nss ≡ ok p
      → Discloses p
  unfolding prepare_document
  prepare_document-Discloses d nss p kept h =
      let (document, found, h₁) = >>=-eq-ok (ok_or (get d documents) _) _ h in
      let (algorithm, _, h₂) =
        >>=-eq-ok (ok_or (cose.signature_algorithm document.device_key) _) _ h₁ in
      let (bytes, _, h₃) = >>=-eq-ok (ok_or (cose.device_auth_bytes d) _) _ h₂ in
      let (prepared, _, h₄) = >>=-eq-ok (ok_or (cose.prepare algorithm bytes) _) _ h₃ in
      let items = (select_namespaces document.namespaces nss ([], [])).0 in
      rw (← ok-injective _ _ h₄) (
        document,
        ok_or-some (get d documents) _ document found,
        rw (entries-non_empty items) (
            select_namespaces-granted document.namespaces
              (λ n e. IsRequested request d n e × IsPermitted permitted d n e) nss ([], []) kept
              tt),
      )

  push_outcome-Discloses :
      (d : Str) (r : Result DocumentErrorCode (PreparedDocument Item Auth Cose))
      (st : Outcome Item Auth Cose)
      → ((p : PreparedDocument Item Auth Cose) → r ≡ ok p → Discloses p)
      → All Discloses st.0
      → All Discloses (push_outcome cose d r st).0
  push_outcome-Discloses d (ok p) (ps, es) g h = All-append Discloses ps (p ∷ []) h (g p refl, tt)
  push_outcome-Discloses d (err e) (ps, es) g h = h

  prepare_documents-Discloses :
      (filtered : PermittedItems) (st : Outcome Item Auth Cose)
      → All (KeptDocument request permitted) filtered
      → All Discloses st.0
      → All Discloses (prepare_documents cose documents filtered st).0
  unfolding prepare_documents
  prepare_documents-Discloses [] st k h = h
  prepare_documents-Discloses ((d, nss) ∷ ds) st (k, ks) h = prepare_documents-Discloses ds _ ks (
      push_outcome-Discloses d (prepare_document cose documents d nss) st
        (λ p. prepare_document-Discloses d nss p k) h)

  -- Whatever the reader requests and the holder permits: each item of a prepared response is held in
  -- the holder's document of that type, for an element that is both requested and permitted.
  pub prepare_response-Discloses :
      All Discloses (prepare_response cose documents request permitted).prepared_documents
  unfolding prepare_response
  prepare_response-Discloses =
      prepare_documents-Discloses (filter_permitted request permitted) ([], [])
        (filter_permitted_sound request permitted) tt

  push_outcome-length :
      (d : Str) (r : Result DocumentErrorCode (PreparedDocument Item Auth Cose))
      (st : Outcome Item Auth Cose)
      → length (push_outcome cose d r st).0 + length (push_outcome cose d r st).1
        ≡ length st.0 + length st.1 + 1
  push_outcome-length d (ok p) (ps, es) = omega (arith, length-append ps (p ∷ []))
  push_outcome-length d (err e) (ps, es) = omega (arith, length-append es (((d, e) ∷ []) ∷ []))

  prepare_documents-length :
      (filtered : PermittedItems) (st : Outcome Item Auth Cose)
      → length (prepare_documents cose documents filtered st).0
          + length (prepare_documents cose documents filtered st).1
        ≡ length st.0 + length st.1 + length filtered
  unfolding prepare_documents
  prepare_documents-length [] st = omega arith
  prepare_documents-length ((d, nss) ∷ ds) st = omega (
    arith,
    prepare_documents-length ds (push_outcome cose d (prepare_document cose documents d nss) st),
    push_outcome-length d (prepare_document cose documents d nss) st,
  )

  -- Each document type that passes the filter is answered once, by a prepared document or by an error.
  pub prepare_response-answers :
      length
          (prepare_response {DeviceAuth = DeviceAuth} cose documents request
            permitted).prepared_documents
        + length (
            entries
              (prepare_response {DeviceAuth = DeviceAuth} cose documents request
                permitted).document_errors)
      ≡ length (filter_permitted request permitted)
  unfolding prepare_response
  prepare_response-answers = omega (
    arith,
    prepare_documents-length (filter_permitted request permitted) ([], []),
    ap length (
        entries-non_empty
          (prepare_documents cose documents (filter_permitted request permitted) ([], [])).1),
  )
