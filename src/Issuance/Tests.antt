-- ===== src/Issuance/Tests.antt =====
-- Witnesses and runs of the issuance: a generator that counts, an encoder and digests that keep
-- lengths, and an executor that returns the results in the opposite order.
use mathlib.Core.List.{Permᴰ}
use isomdl_elevenid.Common.{
  ℕ, suc, ◌≡◌, refl, ap, ◌≢◌, true, List, [], ◌∷◌, ◌++◌, none, some, length, replicate,
  length-replicate, map, Result, ok, err, arith,
}
use isomdl_elevenid.Common.Order.{str}
use isomdl_elevenid.Common.Int.{pos, negsuc}
use isomdl_elevenid.Common.Map.{from_entries, insert}
use isomdl_elevenid.Session.{Bytes}
use isomdl_elevenid.Digest.{
  sha256, DigestJob, DigestResult, digest_length, Sha2, HasLengths, Executor, execute_digest_job,
  serial_execute,
}
use isomdl_elevenid.Issuance.{IssueError, PlannedMdocDigest, MdocDigestPlan, digest_id_new}
use isomdl_elevenid.Issuance.Assembly.{
  assemble_digest_namespaces, assemble_reordered_digest_batches,
}
use isomdl_elevenid.Issuance.Aligned.{IsSound, expected}
use isomdl_elevenid.Issuance.Schedule.{assemble-any_order, assemble_batches-any_order}
use isomdl_elevenid.Issuance.Plan.{
  Rng, Encoder, batch_jobs, Namespaces, IssuerNamespaces, to_issuer_namespaces, issuer_entries,
  issuer_items, tag24_new, generate_digest_id, draw_digest_id,
  plan_digest_namespaces_for_credential, plan_namespaces, plan_digest_namespace, plan_items,
  plan_decoys, push_planned_digest,
}
use isomdl_elevenid.Issuance.Items.{issued_plan-IsSound}
use isomdl_elevenid.Issuance.Signed.{HasDigests, prepare-HasDigests}
use isomdl_elevenid.Common.{All, ◌∙◌, ◌>>=◌, Bool, true, false}
use isomdl_elevenid.Issuance.Plan.{plan_digest_namespaces}
use isomdl_elevenid.Issuance.Prepare.{
  ValidatedMdocBatchItem, PreparedMdoc, prepare_with_validated_inputs, finish_preparation,
}
use isomdl_elevenid.Issuance.Executors.{prepare_validated-expected}
use isomdl_elevenid.Issuance.Draws.{
  IsDigestId, digest_id_new-IsDigestId, generate_digest_id-returns,
}
use isomdl_elevenid.Issuance.{DigestId}
use isomdl_elevenid.Common.{◌⊎◌, ◌-◌, ◌^◌}
use isomdl_elevenid.Issuance.Prepare.{Cose, Builder, MdocBatchItem, prepare, prepare_batch}
use isomdl_elevenid.Issuance.Executors.{
  Complete, run-Keeps, prepare-any_executor, prepare_batch-any_executor,
}

abbrev counting : Rng ℕ
counting = record {
  gen_i32 = λ seed. (pos seed, suc seed);
  gen_range = λ low high seed. (low, suc seed);
  fill = λ n seed. (replicate n 0, suc seed);
}

abbrev plain : Encoder ℕ
plain = record {
  item_to_vec = λ item. some (item.element_value ∷ item.random);
  tag24_to_vec = λ bytes. some bytes;
}

abbrev toy_sha2 : Sha2
toy_sha2 algorithm input = replicate (digest_length algorithm) (length input)

toy_lengths : HasLengths toy_sha2
toy_lengths algorithm input = length-replicate (digest_length algorithm) (length input)

abbrev toy_cose : Cose ℕ ℕ ℕ Bytes ℕ Bytes
toy_cose = record {
  mso_to_vec = λ mso. some (mso.validity_info ∷ []);
  prepare_sign1 = λ algorithm payload. some (algorithm ∷ payload);
  algorithm = λ sig. some 7;
  signature_payload = λ sig. sig;
  finalize = λ sig signature chain. signature;
  verify_remote_signature = λ algorithm chain payload signature. true;
}

-- The results in the opposite order.
abbrev backwards : List DigestResult → List DigestResult
backwards [] = []
backwards (x ∷ xs) = backwards xs ++ (x ∷ [])

abbrev reversing : Executor
reversing jobs = ok (backwards (map (execute_digest_job toy_sha2) jobs))

append-Permᴰ : (x : DigestResult) (xs : List DigestResult) → Permᴰ (x ∷ xs) (xs ++ (x ∷ []))
append-Permᴰ x [] = Permᴰ.cons refl Permᴰ.nil
append-Permᴰ x (y ∷ ys) = Permᴰ.trans (Permᴰ.swap refl refl) (Permᴰ.cons refl (append-Permᴰ x ys))

backwards-Permᴰ : (xs : List DigestResult) → Permᴰ xs (backwards xs)
backwards-Permᴰ [] = Permᴰ.nil
backwards-Permᴰ (x ∷ xs) =
    Permᴰ.trans (Permᴰ.cons refl (backwards-Permᴰ xs)) (append-Permᴰ x (backwards xs))

reversing-Complete : Complete toy_sha2 reversing
reversing-Complete jobs = (
  backwards (map (execute_digest_job toy_sha2) jobs),
  refl,
  backwards-Permᴰ (map (execute_digest_job toy_sha2) jobs),
)

abbrev two_elements : Builder ℕ ℕ ℕ
two_elements = record {
  doc_type = some (str "mDL");
  namespaces = some ((str "a", (str "x", 7) ∷ (str "y", 8) ∷ []) ∷ []);
  validity_info = some 3;
  digest_algorithm = some sha256;
  device_key_info = some (record { device_key = 1; key_authorizations = none });
  enable_decoy_digests = none;
}

prepare-any_executor_example :
    prepare counting plain 100 toy_cose two_elements 7 0 reversing
    ≡ prepare counting plain 100 toy_cose two_elements 7 0 (serial_execute toy_sha2)
prepare-any_executor_example =
    prepare-any_executor counting plain 100 toy_cose toy_sha2 toy_lengths reversing
      reversing-Complete two_elements 7 0

abbrev two_items : List (MdocBatchItem ℕ ℕ ℕ ℕ)
two_items =
    record { credential_id = 5; builder = two_elements; signature_algorithm = 7 }
    ∷ record { credential_id = 3; builder = two_elements; signature_algorithm = 7 }
    ∷ []

prepare_batch-any_executor_example :
    prepare_batch counting plain 100 toy_cose two_items 0 reversing
    ≡ prepare_batch counting plain 100 toy_cose two_items 0 (serial_execute toy_sha2)
prepare_batch-any_executor_example =
    prepare_batch-any_executor counting plain 100 toy_cose toy_sha2 toy_lengths reversing
      reversing-Complete two_items 0

-- A plan of two digests, one in each of two namespaces.
abbrev job_of : ℕ → ℕ → DigestJob
job_of credential n = record {
  credential_id = credential;
  job_id = n;
  ordinal = 0;
  algorithm = sha256;
  input = n ∷ [];
}

abbrev planned_of : ℕ → ℕ → PlannedMdocDigest
planned_of credential n = record { credential_id = credential; job_id = n; digest_id = pos 9 }

abbrev plan_of : ℕ → MdocDigestPlan
plan_of credential = record {
  credential_id = credential;
  namespaces =
      record { name = str "a"; digests = planned_of credential 0 ∷ [] }
      ∷ record { name = str "bb"; digests = planned_of credential 1 ∷ [] }
      ∷ [];
  jobs = job_of credential 0 ∷ job_of credential 1 ∷ [];
}

plan_of-IsSound : (credential : ℕ) → IsSound (plan_of credential)
plan_of-IsSound credential = record {
  aligned = (
    job_of credential 0 ∷ [],
    job_of credential 1 ∷ [],
    refl,
    (refl, refl, refl, refl, tt),
    (job_of credential 1 ∷ [], [], refl, (refl, refl, refl, refl, tt), refl),
  );
  distinct_ids = ((tt, tt), ((tt, tt), tt));
  distinct_names = ((λ p. name_ne p, tt), (tt, tt));
  bounded = omega arith;
}
  where
    name_ne : str "bb" ≡ str "a" → ⊥
    name_ne p = omega (arith, ap length p)

assemble-any_order_example :
    assemble_digest_namespaces
      (plan_of 4)
      (backwards (map (execute_digest_job toy_sha2) (plan_of 4).jobs))
    ≡ ok (expected (execute_digest_job toy_sha2) (plan_of 4))
assemble-any_order_example =
    assemble-any_order (execute_digest_job toy_sha2) (run-Keeps toy_sha2 toy_lengths) (plan_of 4)
      (backwards (map (execute_digest_job toy_sha2) (plan_of 4).jobs)) (plan_of-IsSound 4)
      (backwards-Permᴰ (map (execute_digest_job toy_sha2) (plan_of 4).jobs))

-- The least `i32` has no absolute value, and the ID is negative.
digest_id_new_least : digest_id_new (negsuc 2147483647) ≡ negsuc 2147483647
unfolding digest_id_new
digest_id_new_least = refl

two_ne_four : ◌≢◌ {A = ℕ} 2 4
two_ne_four = omega arith

assemble_batches-any_order_example :
    assemble_reordered_digest_batches
      (plan_of 4 ∷ plan_of 2 ∷ [])
      (backwards (map (execute_digest_job toy_sha2) (batch_jobs (plan_of 4 ∷ plan_of 2 ∷ []))))
    ≡ ok (map (expected (execute_digest_job toy_sha2)) (plan_of 4 ∷ plan_of 2 ∷ []))
assemble_batches-any_order_example =
    assemble_batches-any_order (execute_digest_job toy_sha2) (run-Keeps toy_sha2 toy_lengths)
      (plan_of 4 ∷ plan_of 2 ∷ [])
      (backwards (map (execute_digest_job toy_sha2) (batch_jobs (plan_of 4 ∷ plan_of 2 ∷ []))))
      (plan_of-IsSound 4, (plan_of-IsSound 2, tt)) ((two_ne_four, tt), (tt, tt))
      (backwards-Permᴰ
        (map (execute_digest_job toy_sha2) (batch_jobs (plan_of 4 ∷ plan_of 2 ∷ []))))

abbrev elements : Namespaces ℕ
elements = (str "a", (str "x", 7) ∷ (str "y", 8) ∷ []) ∷ []

abbrev value_of : {A : Type 0} → A → Result IssueError A → A
value_of a (ok b) = b
value_of a (err e) = a

abbrev issued : IssuerNamespaces ℕ × ℕ
issued = value_of ([], 0) (to_issuer_namespaces counting plain 100 elements 0)

abbrev planned : MdocDigestPlan × ℕ
planned =
    value_of (plan_of 0, 0)
      (plan_digest_namespaces_for_credential counting plain 100 6 issued.0 sha256 true issued.1)

issued_plan-IsSound_example : IsSound planned.0 × (planned.0.credential_id ≡ 6)
unfolding to_issuer_namespaces issuer_entries issuer_items tag24_new generate_digest_id
    draw_digest_id digest_id_new from_entries insert plan_digest_namespaces_for_credential
    plan_namespaces plan_digest_namespace plan_items plan_decoys push_planned_digest
issued_plan-IsSound_example =
    issued_plan-IsSound counting plain 100 elements 0 issued.1 planned.1 issued.0 6 sha256 true
      planned.0 refl refl

digest_id_new-IsDigestId_example :
    IsDigestId (digest_id_new (negsuc 6))
    ⊎ (negsuc 6 ≡ negsuc (2 ^ 31 - 1)) × (digest_id_new (negsuc 6) ≡ negsuc 6)
digest_id_new-IsDigestId_example = digest_id_new-IsDigestId (negsuc 6) (omega arith)

-- Two draws are used already; the third is not.
generate_digest_id-returns_example :
    (result : DigestId × List DigestId × ℕ) × (generate_digest_id counting plain 5
        (pos 0 ∷ pos 1 ∷ [])
        0
      ≡ ok result)
unfolding digest_id_new
generate_digest_id-returns_example =
    generate_digest_id-returns counting plain 5 2 (pos 0 ∷ pos 1 ∷ []) 0 (omega arith) refl

abbrev validated : ValidatedMdocBatchItem ℕ ℕ ℕ ℕ
validated = record {
  credential_id = 0;
  doc_type = str "mDL";
  namespaces = elements;
  validity_info = 3;
  digest_algorithm = sha256;
  device_key_info = record { device_key = 1; key_authorizations = none };
  signature_algorithm = 7;
  enable_decoy_digests = true;
}

abbrev is_ok : {A : Type 0} → Result IssueError A → Bool
is_ok (ok a) = true
is_ok (err e) = false

value_is : {A : Type 0} (r : Result IssueError A) → is_ok r ≡ true → (a : A) × (r ≡ ok a)
value_is (ok a) h = (a, refl)
value_is (err e) h = absurd cc

preparation_succeeds :
    is_ok (
      to_issuer_namespaces counting plain 100 validated.namespaces 0 >>= λ n.
      plan_digest_namespaces counting plain 100 n.0 validated.digest_algorithm
        validated.enable_decoy_digests n.1
      >>= λ p.
          finish_preparation counting plain 100 toy_cose validated n.0
            (expected (execute_digest_job toy_sha2) p.0))
    ≡ true
unfolding to_issuer_namespaces issuer_entries issuer_items tag24_new generate_digest_id
    draw_digest_id digest_id_new from_entries insert plan_digest_namespaces
    plan_digest_namespaces_for_credential plan_namespaces plan_digest_namespace plan_items
    plan_decoys push_planned_digest finish_preparation
preparation_succeeds = refl

preparation :
    (p : PreparedMdoc ℕ ℕ ℕ Bytes) × (prepare_with_validated_inputs counting plain 100 toy_cose
        validated 0 reversing
      ≡ ok p)
preparation =
    let (p, e) = value_is _ preparation_succeeds in
    (
      p,
      prepare_validated-expected counting plain 100 toy_cose toy_sha2 toy_lengths reversing
            reversing-Complete validated 0
          ∙ e,
    )

prepare-HasDigests_example :
    All
      (HasDigests counting plain 100 toy_sha2 sha256 preparation.0.mso.value_digests)
      preparation.0.namespaces
prepare-HasDigests_example =
    prepare-HasDigests counting plain 100 toy_sha2 toy_cose toy_lengths reversing reversing-Complete
      validated 0 preparation.0 preparation.1
