-- ===== src/Issuance/Signed.antt =====
-- What the issuer signs: the MSO holds, under the name of its namespace and the ID of the item, the
-- digest of every item of the prepared mdoc.
use mathlib.Core.List.{append-nil}
use mathlib.Core.Path.{subst}
use isomdl_elevenid.Common.{
  ℕ, ◌≡◌, ◌∙◌, refl, sym, ap, ◌≢◌, Bool, List, [], ◌∷◌, ◌++◌, length, drop, map, All, ok, >>=-eq-ok,
  ok-injective, ok_or, some,
}
use isomdl_elevenid.Common.Order.{Str, list_ord, nat_ord, ==_self, ==-eq-false}
use isomdl_elevenid.Common.Int.{int_ord}
use isomdl_elevenid.Common.Index.{DistinctBy}
use isomdl_elevenid.Common.Sorted.{DistinctBy-keys}
use isomdl_elevenid.Common.Map.{Map, get, insert, get-insert}
use isomdl_elevenid.Digest.{
  DigestAlgorithm, DigestJob, DigestResult, Executor, Sha2, HasLengths, execute_digest_job,
}
use isomdl_elevenid.Issuance.{unable_to_encode, DigestIds, MdocDigestPlan, PlannedMdocNamespace}
use isomdl_elevenid.Issuance.Aligned.{expected_digests, expected_namespaces, expected, name_of}
use isomdl_elevenid.Issuance.Plan.{
  Rng, Planning, IssuerSignedItem, Tag24, Encoder, IssuerNamespaces, plan_digest_namespace,
  plan_namespaces, plan_digest_namespaces_for_credential, plan_digest_namespaces,
  to_issuer_namespaces,
}
use isomdl_elevenid.Issuance.Items.{issued-DistinctBy}
use isomdl_elevenid.Issuance.Planned.{item_id}
use isomdl_elevenid.Issuance.Pushed.{append_assoc}
use isomdl_elevenid.Issuance.Tracked.{drop-append, expected_digests-append_length, placed}
use isomdl_elevenid.Issuance.Filed.{HasDigest, plan_digest_namespace-HasDigest}
use isomdl_elevenid.Issuance.Prepare.{
  Cose, ValidatedMdocBatchItem, PreparedMdoc, prepare_with_validated_inputs, finish_preparation,
}
use isomdl_elevenid.Issuance.Executors.{Complete, prepare_validated-expected}

-- A name that no later namespace has keeps what is filed under it.
get-expected_namespaces :
    (run : DigestJob → DigestResult) (other : Str) (ns : List PlannedMdocNamespace)
    (jobs : List DigestJob) (m : Map Str DigestIds)
    → All (λ (k : Str). k ≢ other) (map name_of ns)
    → get other (expected_namespaces run ns jobs m) ≡ get other m
get-expected_namespaces run other [] jobs m h = refl
get-expected_namespaces run other (n ∷ ns) jobs m (ne, h) =
    get-expected_namespaces run other ns _ _ h
    ∙ rw
        (
          get-insert other n.name (expected_digests run n.digests jobs []) m,
          ==-eq-false n.name other ne,
        )
        refl

module _ {Seed Value : Type 0} (rng : Rng Seed) (encoder : Encoder Value) (draws : ℕ)
    (sha2 : Sha2) where
  -- Every item of the namespace has its digest among those filed under the name of the namespace.
  abbrev pub HasDigests :
      DigestAlgorithm → Map Str DigestIds → Str × List (Tag24 (IssuerSignedItem Value)) → Type 0
  HasDigests algorithm value_digests (name, items) =
      (digest_ids : DigestIds) × (get name value_digests ≡ some digest_ids)
      × All (HasDigest rng encoder draws sha2 [] 0 algorithm digest_ids) items

  -- The first namespace beside the others.
  HasDigests-cons :
      (algorithm : DigestAlgorithm) (before : List DigestJob) (st : Planning)
      (js js' : List DigestJob) (name : Str) (elements : List (Tag24 (IssuerSignedItem Value)))
      (ns : IssuerNamespaces Value) (later : List PlannedMdocNamespace) (m : Map Str DigestIds)
      → st.jobs ≡ before ++ js
      → length st.planned_digests ≡ length js
      → All
          (HasDigest rng encoder draws sha2 [] 0 algorithm
            (placed (execute_digest_job sha2) before st))
          elements
      → All (λ (k : Str). k ≢ name) (map name_of later)
      → ((m : Map Str DigestIds)
          → All
              (HasDigests algorithm (expected_namespaces (execute_digest_job sha2) later js' m))
              ns)
      → All
          (HasDigests algorithm (
            expected_namespaces
              (execute_digest_job sha2)
              (record { name = name; digests = st.planned_digests } ∷ later)
              (js ++ js')
              m))
          ((name, elements) ∷ ns)
  HasDigests-cons algorithm before st js js' name elements ns later m split len filed ne rest =
      let run = execute_digest_job sha2 in
      let same : expected_digests run st.planned_digests (js ++ js') [] ≡ placed run before st =
        expected_digests-append_length run st.planned_digests js js' [] len
        ∙ ap (λ l. expected_digests run st.planned_digests l [])
            (sym (ap (drop (length before)) split ∙ drop-append before js)) in
      let dropped : drop (length st.planned_digests) (js ++ js') ≡ js' =
        ap (λ n. drop n (js ++ js')) len ∙ drop-append js js' in
      let filed_under =
        get-expected_namespaces run name later js' (insert name (placed run before st) m) ne
        ∙ rw (get-insert name name (placed run before st) m, ==_self name) refl in
      subst
        (λ (t : DigestIds × List DigestJob).
          All (HasDigests algorithm (expected_namespaces run later t.1 (insert name t.0 m)))
            ((name, elements) ∷ ns))
        (λ i. (sym same i, sym dropped i))
        ((placed run before st, filed_under, filed), rest (insert name (placed run before st) m))

  plan_namespaces-HasDigests :
      (credential : ℕ) (namespaces : IssuerNamespaces Value) (algorithm : DigestAlgorithm)
      (enable : Bool) (k : ℕ) (before jobs : List DigestJob) (seed seed' : Seed)
      (planned : List PlannedMdocNamespace)
      → DistinctBy (λ (s : Str). s) (map (λ e. e.0) namespaces)
      → All
          (λ (e : Str × List (Tag24 (IssuerSignedItem Value))).
            DistinctBy (item_id rng encoder draws) e.1)
          namespaces
      → plan_namespaces rng encoder draws credential namespaces algorithm enable k before seed
        ≡ ok (planned, jobs, seed')
      → (js : List DigestJob) × (jobs ≡ before ++ js)
        × (map name_of planned ≡ map (λ e. e.0) namespaces)
        × ((m : Map Str DigestIds)
            → All
                (HasDigests algorithm (expected_namespaces (execute_digest_job sha2) planned js m))
                namespaces)
  unfolding plan_namespaces
  plan_namespaces-HasDigests credential [] algorithm enable k before jobs seed seed' planned d u h =
      let q = ok-injective _ _ h in
      (
        [],
        sym (ap (λ t. t.1) q) ∙ sym (append-nil before),
        ap (λ t. map name_of t.0) (sym q),
        λ m. tt,
      )
  plan_namespaces-HasDigests credential ((name, elements) ∷ ns) algorithm enable k before jobs seed
        seed' planned (ne, d) (u, us) h =
      let ((st, seed₁), here, h₁) =
        >>=-eq-ok
          (plan_digest_namespace rng encoder draws credential elements algorithm enable k before
            seed)
          _ h in
      let ((js, split, len), filed) =
        plan_digest_namespace-HasDigest rng encoder draws sha2 before credential algorithm elements
          enable k seed seed₁ st u here in
      let ((later, jobs', seed₂), there, h₂) =
        >>=-eq-ok
          (plan_namespaces rng encoder draws credential ns algorithm enable st.next_job_id st.jobs
            seed₁)
          _ h₁ in
      let (js', split', names, rest) =
        plan_namespaces-HasDigests credential ns algorithm enable st.next_job_id st.jobs jobs' seed₁
          seed₂ later d us there in
      subst
        (λ (t : List PlannedMdocNamespace × List DigestJob × Seed).
          (js : List DigestJob) × (t.1 ≡ before ++ js)
          × (map name_of t.0 ≡ map (λ e. e.0) ((name, elements) ∷ ns))
          × ((m : Map Str DigestIds)
              → All (HasDigests algorithm (expected_namespaces (execute_digest_job sha2) t.0 js m))
                  ((name, elements) ∷ ns)))
        (ok-injective _ _ h₂)
        (
          js ++ js',
          split' ∙ ap (λ l. l ++ js') split ∙ append_assoc before js js',
          ap (λ l. name ∷ l) names,
          λ m.
              HasDigests-cons algorithm before st js js' name elements ns later m split len filed
                (rw names ne) rest,
        )

  -- An mdoc prepared with an executor that fulfils the contract: under the name of each of its
  -- namespaces, and the digest ID of each item there, the MSO holds the digest of the encoded item.
  pub prepare-HasDigests :
      {Validity Key Algorithm Sig Chain Auth : Type 0}
      (cose : Cose Validity Key Algorithm Sig Chain Auth) (lengths : HasLengths sha2)
      (execute : Executor) (complete : Complete sha2 execute)
      (item : ValidatedMdocBatchItem Value Validity Key Algorithm) (seed : Seed)
      (prepared : PreparedMdoc Value Validity Key Sig)
      → prepare_with_validated_inputs rng encoder draws cose item seed execute ≡ ok prepared
      → All (HasDigests item.digest_algorithm prepared.mso.value_digests) prepared.namespaces
  unfolding plan_digest_namespaces plan_digest_namespaces_for_credential finish_preparation
  prepare-HasDigests {Validity} {Key} {Algorithm} {Sig} cose lengths execute complete item seed
        prepared h =
      let h₀ =
        sym (
          prepare_validated-expected rng encoder draws cose sha2 lengths execute complete item seed)
        ∙ h in
      let ((ns, seed₁), issued, h₁) =
        >>=-eq-ok (to_issuer_namespaces rng encoder draws item.namespaces seed) _ h₀ in
      let ((plan, seed₂), planned, h₂) =
        >>=-eq-ok
          (plan_digest_namespaces_for_credential rng encoder draws 0 ns item.digest_algorithm
            item.enable_decoy_digests seed₁)
          _ h₁ in
      let ((namespaces, jobs, seed₃), made, h₃) =
        >>=-eq-ok
          (plan_namespaces rng encoder draws 0 ns item.digest_algorithm item.enable_decoy_digests 0
            [] seed₁)
          _ planned in
      let (names, ids) = issued-DistinctBy rng encoder draws item.namespaces seed seed₁ ns issued in
      let (js, split, _, filed) =
        plan_namespaces-HasDigests 0 ns item.digest_algorithm item.enable_decoy_digests 0 [] jobs
          seed₁ seed₃ namespaces (DistinctBy-keys (λ e. e.0) ns names) ids made in
      let (bytes, _, h₄) = >>=-eq-ok (ok_or (cose.mso_to_vec _) unable_to_encode) _ h₂ in
      let (sig, _, h₅) =
        >>=-eq-ok (ok_or (cose.prepare_sign1 item.signature_algorithm bytes) unable_to_encode) _
          h₄ in
      subst
        (λ (r : PreparedMdoc Value Validity Key Sig).
          All (HasDigests item.digest_algorithm r.mso.value_digests) r.namespaces)
        (ok-injective _ _ h₅)
        (subst
          (λ (p : MdocDigestPlan × Seed).
            All (HasDigests item.digest_algorithm (expected (execute_digest_job sha2) p.0)) ns)
          (ok-injective _ _ h₃)
          (subst
            (λ (l : List DigestJob).
              All
                (HasDigests item.digest_algorithm
                  (expected_namespaces (execute_digest_job sha2) namespaces l []))
                ns)
            (sym split) (filed [])))
