-- ===== src/Issuance/Executors.antt =====
-- The preparation does not depend on the executor of the digests: every executor that returns the
-- results of the scalar one, in any order, gives what the scalar one gives.
use mathlib.Core.List.{Permᴰ}
use isomdl_elevenid.Common.{
  ℕ, ◌≡◌, ◌∙◌, refl, sym, ap, ◌≢◌, Bool, true, false, List, [], ◌∷◌, All, All-map, map, Result, ok,
  err, >>=-eq-ok, ok-injective, ◌>>=◌, ok_or, fail_if, if◌then◌else◌,
}
use isomdl_elevenid.Common.Order.{nat_ord}
use isomdl_elevenid.Common.Index.{DistinctBy}
use isomdl_elevenid.Common.Map.{is_empty}
use isomdl_elevenid.Common.Sorted.{DistinctBy-keys, DistinctBy-of_keys}
use isomdl_elevenid.Digest.{
  DigestJob, DigestResult, Executor, Sha2, HasLengths, execute_digest_job, serial_execute,
  digest_result,
}
use isomdl_elevenid.Issuance.{IssueError, MdocDigestPlan}
use isomdl_elevenid.Issuance.Assembly.{is_member}
use isomdl_elevenid.Issuance.Aligned.{IsSound, Keeps, expected}
use isomdl_elevenid.Issuance.Schedule.{
  assemble-any_order, assemble_batches-any_order, credential_of,
}
use isomdl_elevenid.Issuance.Plan.{
  Rng, Encoder, IssuerNamespaces, to_issuer_namespaces, plan_digest_namespaces,
  plan_digest_namespaces_for_credential, batch_jobs, validate_namespace_shape,
}
use isomdl_elevenid.Issuance.Items.{not_used, issued_plan-IsSound}
use isomdl_elevenid.Issuance.Prepare.{
  Cose, Builder, ValidatedMdocBatchItem, finish_preparation, prepare_with_validated_inputs,
  prepare_item, prepare, complete_builder, plan_batch, prepare_batch_validated, prepare_batch,
  MdocBatchItem, validate_mdoc_batch, validate_items, validate_authorizations,
}

-- The contract of `DigestExecutor`: the results of the jobs, in any order.
abbrev pub Complete : Sha2 → Executor → Type 0
Complete sha2 execute =
    (jobs : List DigestJob)
    → (results : List DigestResult) × (execute jobs ≡ ok results)
      × Permᴰ (map (execute_digest_job sha2) jobs) results

pub run-Keeps : (sha2 : Sha2) → HasLengths sha2 → Keeps (execute_digest_job sha2)
unfolding execute_digest_job digest_result
run-Keeps sha2 lengths = record {
  credential = λ j. refl;
  job = λ j. refl;
  ordinal = λ j. refl;
  lengths = λ j. lengths j.algorithm j.input;
}

>>=-same :
    {A B : Type 0} (m : Result IssueError A) (f g : A → Result IssueError B)
    → ((a : A) → m ≡ ok a → f a ≡ g a)
    → (m >>= f) ≡ (m >>= g)
>>=-same (ok a) f g h = h a refl
>>=-same (err e) f g h = refl

-- The scalar executor keeps the order of the jobs.
serial-Complete : (sha2 : Sha2) → Complete sha2 (serial_execute sha2)
unfolding serial_execute
serial-Complete sha2 jobs =
    (map (execute_digest_job sha2) jobs, refl, perm_refl (map (execute_digest_job sha2) jobs))
  where
    perm_refl : (xs : List DigestResult) → Permᴰ xs xs
    perm_refl [] = Permᴰ.nil
    perm_refl (x ∷ xs) = Permᴰ.cons refl (perm_refl xs)

fail_if-pass : (b : Bool) (e : IssueError) {u : Unit {0}} → fail_if b e ≡ ok u → b ≡ false
fail_if-pass true e h = absurd cc
fail_if-pass false e h = refl

module _ {Seed Value Validity Key Algorithm Sig Chain Auth : Type 0} (rng : Rng Seed)
    (encoder : Encoder Value) (draws : ℕ) (cose : Cose Validity Key Algorithm Sig Chain Auth)
    (sha2 : Sha2) (lengths : HasLengths sha2) where
  pub prepare_validated-expected :
      (execute : Executor)
      → Complete sha2 execute
      → (item : ValidatedMdocBatchItem Value Validity Key Algorithm) (seed : Seed)
      → prepare_with_validated_inputs rng encoder draws cose item seed execute ≡ (
          to_issuer_namespaces rng encoder draws item.namespaces seed >>= λ n.
          plan_digest_namespaces rng encoder draws n.0 item.digest_algorithm
            item.enable_decoy_digests n.1
          >>= λ p.
              finish_preparation rng encoder draws cose item n.0
                (expected (execute_digest_job sha2) p.0))
  unfolding prepare_with_validated_inputs plan_digest_namespaces
  prepare_validated-expected execute complete item seed =
      >>=-same (to_issuer_namespaces rng encoder draws item.namespaces seed) _ _ (λ n issued.
        >>=-same
          (plan_digest_namespaces_for_credential rng encoder draws 0 n.0 item.digest_algorithm
            item.enable_decoy_digests n.1)
          _ _
          (λ p planned.
            let (s, _) =
              issued_plan-IsSound rng encoder draws item.namespaces seed n.1 p.1 n.0 0
                item.digest_algorithm item.enable_decoy_digests p.0 issued planned in
            let (results, ran, perm) = complete p.0.jobs in
            rw (
              ran,
              assemble-any_order (execute_digest_job sha2) (run-Keeps sha2 lengths) p.0 results s
                  perm,
            )))

  -- Whatever executor fulfils the contract, `prepare` gives what it gives with the scalar executor: the
  -- same prepared mdoc, or the same error.
  pub prepare-any_executor :
      (execute : Executor)
      → Complete sha2 execute
      → (builder : Builder Value Validity Key) (algorithm : Algorithm) (seed : Seed)
      → prepare rng encoder draws cose builder algorithm seed execute
        ≡ prepare rng encoder draws cose builder algorithm seed (serial_execute sha2)
  unfolding prepare prepare_item
  prepare-any_executor execute complete builder algorithm seed =
      >>=-same (complete_builder rng encoder draws cose 0 builder algorithm) _ _ (λ item built.
        ap
          (λ m. validate_authorizations item.device_key_info >>= λ _.
            validate_namespace_shape item.namespaces >>= λ _. m)
          (prepare_validated-expected execute complete item seed
            ∙ sym (
                prepare_validated-expected (serial_execute sha2) (serial-Complete sha2) item seed)))

  abbrev credential : ValidatedMdocBatchItem Value Validity Key Algorithm → ℕ
  credential item = item.credential_id

  complete_builder-credential :
      (c : ℕ) (builder : Builder Value Validity Key) (algorithm : Algorithm)
      (v : ValidatedMdocBatchItem Value Validity Key Algorithm)
      → complete_builder rng encoder draws cose c builder algorithm ≡ ok v
      → v.credential_id ≡ c
  unfolding complete_builder
  complete_builder-credential c builder algorithm v h =
      let (d, _, h₁) = >>=-eq-ok (ok_or builder.doc_type _) _ h in
      let (n, _, h₂) = >>=-eq-ok (ok_or builder.namespaces _) _ h₁ in
      let (i, _, h₃) = >>=-eq-ok (ok_or builder.validity_info _) _ h₂ in
      let (a, _, h₄) = >>=-eq-ok (ok_or builder.digest_algorithm _) _ h₃ in
      let (k, _, h₅) = >>=-eq-ok (ok_or builder.device_key_info _) _ h₄ in
      sym (ap (λ v. v.credential_id) (ok-injective _ _ h₅))

  -- The identities of what is validated are distinct from each other, and from those seen before.
  validate_items-distinct :
      (batch : List (MdocBatchItem Value Validity Key Algorithm)) (seen : List ℕ)
      (validated : List (ValidatedMdocBatchItem Value Validity Key Algorithm))
      → validate_items rng encoder draws cose batch seen ≡ ok validated
      → DistinctBy credential validated
        × All
            (λ (v : ValidatedMdocBatchItem Value Validity Key Algorithm).
              is_member v.credential_id seen ≡ false)
            validated
  unfolding validate_items complete_builder
  validate_items-distinct [] seen validated h = rw (← ok-injective _ _ h) (tt, tt)
  validate_items-distinct (item ∷ batch) seen validated h =
      let (_, passed, h₁) = >>=-eq-ok (fail_if (is_member item.credential_id seen) _) _ h in
      let (v, built, h₂) =
        >>=-eq-ok
          (complete_builder rng encoder draws cose item.credential_id item.builder
            item.signature_algorithm)
          _ h₁ in
      let (_, _, h₃) = >>=-eq-ok (validate_authorizations v.device_key_info) _ h₂ in
      let (_, _, h₄) = >>=-eq-ok (validate_namespace_shape v.namespaces) _ h₃ in
      let (vs, there, h₅) =
        >>=-eq-ok (validate_items rng encoder draws cose batch (item.credential_id ∷ seen)) _ h₄ in
      let same =
        complete_builder-credential item.credential_id item.builder item.signature_algorithm v
          built in
      let (d, n) = validate_items-distinct batch (item.credential_id ∷ seen) vs there in
      rw (← ok-injective _ _ h₅) (
        (
          All-map
              (λ (w : ValidatedMdocBatchItem Value Validity Key Algorithm).
                is_member w.credential_id (item.credential_id ∷ seen) ≡ false)
              (λ (w : ValidatedMdocBatchItem Value Validity Key Algorithm).
                w.credential_id ≢ v.credential_id)
              (λ w q p. (not_used seen item.credential_id w.credential_id q).0 (p ∙ same)) vs n,
          d,
        ),
        (
          ap (λ z. is_member z seen) same
              ∙ fail_if-pass (is_member item.credential_id seen) _ passed,
          All-map
              (λ (w : ValidatedMdocBatchItem Value Validity Key Algorithm).
                is_member w.credential_id (item.credential_id ∷ seen) ≡ false)
              (λ (w : ValidatedMdocBatchItem Value Validity Key Algorithm).
                is_member w.credential_id seen ≡ false)
              (λ w q. (not_used seen item.credential_id w.credential_id q).1) vs n,
        ),
      )

  plan_batch-IsSound :
      (batch : List (ValidatedMdocBatchItem Value Validity Key Algorithm)) (seed : Seed)
      (planned : List
        (ValidatedMdocBatchItem Value Validity Key Algorithm × IssuerNamespaces Value))
      (plans : List MdocDigestPlan)
      → plan_batch rng encoder draws cose batch seed ≡ ok (planned, plans)
      → All IsSound plans × (map credential_of plans ≡ map credential batch)
  unfolding plan_batch
  plan_batch-IsSound [] seed planned plans h = rw (← ap (λ t. t.1) (ok-injective _ _ h)) (tt, refl)
  plan_batch-IsSound (item ∷ batch) seed planned plans h =
      let ((ns, seed₁), issued, h₁) =
        >>=-eq-ok (to_issuer_namespaces rng encoder draws item.namespaces seed) _ h in
      let ((plan, seed₂), made, h₂) =
        >>=-eq-ok
          (plan_digest_namespaces_for_credential rng encoder draws item.credential_id ns
            item.digest_algorithm item.enable_decoy_digests seed₁)
          _ h₁ in
      let ((rest, plans'), there, h₃) =
        >>=-eq-ok (plan_batch rng encoder draws cose batch seed₂) _ h₂ in
      let (s, same) =
        issued_plan-IsSound rng encoder draws item.namespaces seed seed₁ seed₂ ns item.credential_id
          item.digest_algorithm item.enable_decoy_digests plan issued made in
      let (ss, sames) = plan_batch-IsSound batch seed₂ rest plans' there in
      rw (← ap (λ t. t.1) (ok-injective _ _ h₃)) ((s, ss), λ i. same i ∷ sames i)

  -- A batch of distinct credentials, prepared with any executor that fulfils the contract.
  prepare_validated-any_executor :
      (execute : Executor)
      → Complete sha2 execute
      → (batch : List (ValidatedMdocBatchItem Value Validity Key Algorithm)) (seed : Seed)
      → DistinctBy credential batch
      → prepare_batch_validated rng encoder draws cose batch seed execute
        ≡ prepare_batch_validated rng encoder draws cose batch seed (serial_execute sha2)
  unfolding prepare_batch_validated
  prepare_validated-any_executor execute complete batch seed d =
      >>=-same (plan_batch rng encoder draws cose batch seed) _ _ (λ p planned.
        let (s, same) = plan_batch-IsSound batch seed p.0 p.1 planned in
        let distinct =
          DistinctBy-of_keys credential_of p.1 (rw same (DistinctBy-keys credential batch d)) in
        let (rs, ran, perm) = complete (batch_jobs p.1) in
        let (rs', ran', perm') = serial-Complete sha2 (batch_jobs p.1) in
        let any =
          assemble_batches-any_order (execute_digest_job sha2) (run-Keeps sha2 lengths) p.1 in
        rw (ran, ran', any rs s distinct perm, any rs' s distinct perm') refl)

  -- Whatever executor fulfils the contract, `prepare_batch` gives what it gives with the scalar
  -- executor: the same prepared mdocs, or the same error.
  pub prepare_batch-any_executor :
      (execute : Executor)
      → Complete sha2 execute
      → (batch : List (MdocBatchItem Value Validity Key Algorithm)) (seed : Seed)
      → prepare_batch rng encoder draws cose batch seed execute
        ≡ prepare_batch rng encoder draws cose batch seed (serial_execute sha2)
  unfolding prepare_batch validate_mdoc_batch
  prepare_batch-any_executor execute complete batch seed =
      >>=-same (validate_items rng encoder draws cose batch []) _ _ (λ validated valid.
        ap (λ m. if is_empty validated then ok [] else m)
          (prepare_validated-any_executor execute complete validated seed
            (validate_items-distinct batch [] validated valid).0))
