-- ===== src/Issuance/Prepare.antt =====
-- src/issuance/mdoc.rs: the builder, the preparation of one mdoc and of a batch, and the completion
-- with a remote signature. COSE and the certificate chain are parameters.
use isomdl_elevenid.Common.{
  ℕ, ◌+◌, ◌^◌, Bool, true, not, List, [], ◌∷◌, Option, none, some, ltb, if◌then◌else◌, length,
  Result, ok, ◌>>=◌, ◌>>◌, fail_if, ok_or, map_err,
}
use isomdl_elevenid.Common.Order.{Str, str, list_ord, nat_ord, ◌==◌}
use isomdl_elevenid.Common.Map.{Map, is_empty}
use isomdl_elevenid.Session.{Bytes}
use isomdl_elevenid.Digest.{DigestAlgorithm, Executor}
use isomdl_elevenid.DeviceKey.{DeviceKeyInfo, validate}
use isomdl_elevenid.Issuance.{
  IssueError, missing_doc_type, missing_namespaces, missing_validity_info, missing_digest_algorithm,
  missing_device_key_info, duplicate_credential_identity, key_authorizations, unable_to_encode,
  too_many_jobs, omitted_credential, execution_failed, missing_signature_algorithm,
  unauthentic_signature, DigestIds, MdocDigestPlan,
}
use isomdl_elevenid.Issuance.Assembly.{
  is_member, assemble_digest_namespaces, assemble_reordered_digest_batches,
}
use isomdl_elevenid.Issuance.Plan.{
  Rng, Encoder, Namespaces, IssuerNamespaces, validate_namespace_shape, to_issuer_namespaces,
  plan_digest_namespaces, plan_digest_namespaces_for_credential, batch_jobs,
}

pub record Mso (Validity Key : Type 0) : Type 0 where
  pub version : Str
  pub digest_algorithm : DigestAlgorithm
  pub value_digests : Map Str DigestIds
  pub device_key_info : DeviceKeyInfo Key
  pub doc_type : Str
  pub validity_info : Validity

pub record Builder (Value Validity Key : Type 0) : Type 0 where
  pub doc_type : Option Str
  pub namespaces : Option (Namespaces Value)
  pub validity_info : Option Validity
  pub digest_algorithm : Option DigestAlgorithm
  pub device_key_info : Option (DeviceKeyInfo Key)
  pub enable_decoy_digests : Option Bool

pub record MdocBatchItem (Value Validity Key Algorithm : Type 0) : Type 0 where
  pub credential_id : ℕ
  pub builder : Builder Value Validity Key
  pub signature_algorithm : Algorithm

-- What a builder, once complete, hands to the preparation.
pub record ValidatedMdocBatchItem (Value Validity Key Algorithm : Type 0) : Type 0 where
  pub credential_id : ℕ
  pub doc_type : Str
  pub namespaces : Namespaces Value
  pub validity_info : Validity
  pub digest_algorithm : DigestAlgorithm
  pub device_key_info : DeviceKeyInfo Key
  pub signature_algorithm : Algorithm
  pub enable_decoy_digests : Bool

pub record PreparedMdoc (Value Validity Key Sig : Type 0) : Type 0 where
  pub doc_type : Str
  pub mso : Mso Validity Key
  pub namespaces : IssuerNamespaces Value
  pub prepared_sig : Sig

pub record PreparedMdocBatchItem (Value Validity Key Sig : Type 0) : Type 0 where
  pub credential_id : ℕ
  pub prepared_mdoc : PreparedMdoc Value Validity Key Sig

pub record Mdoc (Value Validity Key Auth : Type 0) : Type 0 where
  pub doc_type : Str
  pub mso : Mso Validity Key
  pub namespaces : IssuerNamespaces Value
  pub issuer_auth : Auth

-- What the preparation uses of CBOR and COSE: the encoding of the MSO under tag 24, the structure
-- that a remote signer signs, its algorithm and payload, its completion with a signature and the
-- chain in its header, and the verification of a signature by the key of the chain.
pub record Cose (Validity Key Algorithm Sig Chain Auth : Type 0) : Type 0 where
  pub mso_to_vec : Mso Validity Key → Option Bytes
  pub prepare_sign1 : Algorithm → Bytes → Option Sig
  pub algorithm : Sig → Option Algorithm
  pub signature_payload : Sig → Bytes
  pub finalize : Sig → Bytes → Chain → Auth
  pub verify_remote_signature : Algorithm → Chain → Bytes → Bytes → Bool

unfoldable pub validate_authorizations :
    {Key : Type 0} → DeviceKeyInfo Key → Result IssueError (Unit {0})
validate_authorizations info = elim info.key_authorizations [
  | none ↦ ok tt
  | some authorizations ↦ map_err key_authorizations (validate authorizations)
]

abbrev pub unwrap_or : {A : Type 0} → A → Option A → A
unwrap_or a none = a
unwrap_or a (some b) = b

module _ {Seed Value Validity Key Algorithm Sig Chain Auth : Type 0} (rng : Rng Seed)
    (encoder : Encoder Value) (draws : ℕ) (cose : Cose Validity Key Algorithm Sig Chain Auth) where
  -- The fields of a complete builder, in the order in which they are asked for.
  unfoldable pub complete_builder :
      ℕ
      → Builder Value Validity Key
      → Algorithm
      → Result IssueError (ValidatedMdocBatchItem Value Validity Key Algorithm)
  complete_builder credential builder algorithm = do
    doc_type ← ok_or builder.doc_type missing_doc_type
    namespaces ← ok_or builder.namespaces missing_namespaces
    validity_info ← ok_or builder.validity_info missing_validity_info
    digest_algorithm ← ok_or builder.digest_algorithm missing_digest_algorithm
    device_key_info ← ok_or builder.device_key_info missing_device_key_info
    ok (record {
      credential_id = credential;
      doc_type = doc_type;
      namespaces = namespaces;
      validity_info = validity_info;
      digest_algorithm = digest_algorithm;
      device_key_info = device_key_info;
      signature_algorithm = algorithm;
      enable_decoy_digests = unwrap_or true builder.enable_decoy_digests;
    })

  unfoldable pub finish_preparation :
      ValidatedMdocBatchItem Value Validity Key Algorithm
      → IssuerNamespaces Value
      → Map Str DigestIds
      → Result IssueError (PreparedMdoc Value Validity Key Sig)
  finish_preparation item namespaces value_digests = do
    mso ← ok (record {
      version = str "1.0";
      digest_algorithm = item.digest_algorithm;
      value_digests = value_digests;
      device_key_info = item.device_key_info;
      doc_type = item.doc_type;
      validity_info = item.validity_info;
    })
    mso_bytes ← ok_or (cose.mso_to_vec mso) unable_to_encode
    prepared_sig ← ok_or (cose.prepare_sign1 item.signature_algorithm mso_bytes) unable_to_encode
    ok (record {
      doc_type = item.doc_type;
      mso = mso;
      namespaces = namespaces;
      prepared_sig = prepared_sig;
    })

  unfoldable pub prepare_with_validated_inputs :
      ValidatedMdocBatchItem Value Validity Key Algorithm
      → Seed
      → Executor
      → Result IssueError (PreparedMdoc Value Validity Key Sig)
  prepare_with_validated_inputs item seed execute = do
    (namespaces, seed') ← to_issuer_namespaces rng encoder draws item.namespaces seed
    (plan, seed'') ←
        plan_digest_namespaces rng encoder draws namespaces item.digest_algorithm
          item.enable_decoy_digests seed'
    results ← map_err (λ _. execution_failed) (execute plan.jobs)
    value_digests ← assemble_digest_namespaces plan results
    finish_preparation item namespaces value_digests

  -- `Mdoc::prepare_with_digest_executor`, on the fields of the builder.
  unfoldable pub prepare_item :
      ValidatedMdocBatchItem Value Validity Key Algorithm
      → Seed
      → Executor
      → Result IssueError (PreparedMdoc Value Validity Key Sig)
  prepare_item item seed execute = do
    validate_authorizations item.device_key_info
    validate_namespace_shape item.namespaces
    prepare_with_validated_inputs item seed execute

  -- `Builder::prepare_with_digest_executor`
  unfoldable pub prepare :
      Builder Value Validity Key
      → Algorithm
      → Seed
      → Executor
      → Result IssueError (PreparedMdoc Value Validity Key Sig)
  prepare builder algorithm seed execute = do
    item ← complete_builder 0 builder algorithm
    prepare_item item seed execute

  -- The loop of `validate_mdoc_batch`, with the identities seen so far.
  unfoldable pub validate_items :
      List (MdocBatchItem Value Validity Key Algorithm)
      → List ℕ
      → Result IssueError (List (ValidatedMdocBatchItem Value Validity Key Algorithm))
  validate_items [] credential_ids = ok []
  validate_items (item ∷ batch) credential_ids = do
    fail_if (is_member item.credential_id credential_ids) duplicate_credential_identity
    validated ← complete_builder item.credential_id item.builder item.signature_algorithm
    validate_authorizations validated.device_key_info
    validate_namespace_shape validated.namespaces
    rest ← validate_items batch (item.credential_id ∷ credential_ids)
    ok (validated ∷ rest)

  unfoldable pub validate_mdoc_batch :
      List (MdocBatchItem Value Validity Key Algorithm)
      → Result IssueError (List (ValidatedMdocBatchItem Value Validity Key Algorithm))
  unfolding validate_items
  validate_mdoc_batch batch = validate_items batch []

  -- The loop that plans the items of a batch: for each the item with what it is to sign, and its plan.
  unfoldable pub plan_batch :
      List (ValidatedMdocBatchItem Value Validity Key Algorithm)
      → Seed
      → Result IssueError (
          List (ValidatedMdocBatchItem Value Validity Key Algorithm × IssuerNamespaces Value)
          × List MdocDigestPlan)
  plan_batch [] seed = ok ([], [])
  plan_batch (item ∷ batch) seed = do
    (namespaces, seed₁) ← to_issuer_namespaces rng encoder draws item.namespaces seed
    (plan, seed₂) ←
        plan_digest_namespaces_for_credential rng encoder draws item.credential_id namespaces
          item.digest_algorithm item.enable_decoy_digests seed₁
    (planned, plans) ← plan_batch batch seed₂
    ok ((item, namespaces) ∷ planned, plan ∷ plans)

  -- `checked_add` over the numbers of jobs.
  unfoldable pub count_jobs : ℕ → List MdocDigestPlan → Result IssueError ℕ
  count_jobs count [] = ok count
  count_jobs count (plan ∷ plans) = do
    fail_if (not (ltb (count + length plan.jobs) (2 ^ 64))) too_many_jobs
    count_jobs (count + length plan.jobs) plans

  -- The items and their digests, side by side, until one of the lists ends or an item fails.
  unfoldable pub finish_batch :
      List (ValidatedMdocBatchItem Value Validity Key Algorithm × IssuerNamespaces Value)
      → List (Map Str DigestIds)
      → Result IssueError (List (PreparedMdocBatchItem Value Validity Key Sig))
  finish_batch [] digests = ok []
  finish_batch (item ∷ items) [] = ok []
  finish_batch ((item, namespaces) ∷ items) (value_digests ∷ digests) = do
    prepared ← finish_preparation item namespaces value_digests
    rest ← finish_batch items digests
    ok (record { credential_id = item.credential_id; prepared_mdoc = prepared } ∷ rest)

  unfoldable pub prepare_batch_validated :
      List (ValidatedMdocBatchItem Value Validity Key Algorithm)
      → Seed
      → Executor
      → Result IssueError (List (PreparedMdocBatchItem Value Validity Key Sig))
  prepare_batch_validated batch seed execute = do
    (planned, plans) ← plan_batch batch seed
    job_count ← count_jobs 0 plans
    results ← map_err (λ _. execution_failed) (execute (batch_jobs plans))
    value_digests ← assemble_reordered_digest_batches plans results
    fail_if (not (length value_digests == length planned)) omitted_credential
    finish_batch planned value_digests

  unfoldable pub prepare_batch :
      List (MdocBatchItem Value Validity Key Algorithm)
      → Seed
      → Executor
      → Result IssueError (List (PreparedMdocBatchItem Value Validity Key Sig))
  prepare_batch batch seed execute = do
    validated ← validate_mdoc_batch batch
    if is_empty validated then ok [] else prepare_batch_validated validated seed execute

  -- `PreparedMdoc::complete`
  unfoldable pub complete :
      PreparedMdoc Value Validity Key Sig
      → Chain
      → Bytes
      → Result IssueError (Mdoc Value Validity Key Auth)
  complete prepared x5chain signature = do
    algorithm ← ok_or (cose.algorithm prepared.prepared_sig) missing_signature_algorithm
    fail_if
        (not (
          cose.verify_remote_signature algorithm x5chain
            (cose.signature_payload prepared.prepared_sig) signature))
        unauthentic_signature
    ok (record {
      doc_type = prepared.doc_type;
      mso = prepared.mso;
      namespaces = prepared.namespaces;
      issuer_auth = cose.finalize prepared.prepared_sig signature x5chain;
    })
