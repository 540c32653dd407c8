-- ===== src/Issuance/Plan.antt =====
-- src/issuance/mdoc.rs: the issuer-signed items and the plan of their digests. The random number
-- generator and the CBOR encoder are parameters. The loop of `generate_digest_id` runs on fuel.
use isomdl_elevenid.Common.{
  ℕ, zero, suc, ◌+◌, ◌^◌, Bool, true, false, not, List, [], ◌∷◌, ◌++◌, Option, ltb, if◌then◌else◌,
  length, map, any, Result, ok, err, ◌>>=◌, ◌>>◌, fail_if, ok_or,
}
use isomdl_elevenid.Common.Order.{Str, list_ord, nat_ord}
use isomdl_elevenid.Common.Int.{ℤ, int_ord}
use isomdl_elevenid.Common.Map.{Map, is_empty, from_entries}
use isomdl_elevenid.Session.{Bytes}
use isomdl_elevenid.Digest.{DigestAlgorithm, DigestJob}
use isomdl_elevenid.Issuance.{
  IssueError, no_namespace, empty_namespace, unable_to_encode, too_many_jobs, out_of_draws,
  DigestId, digest_id_new, PlannedMdocDigest, PlannedMdocNamespace, MdocDigestPlan,
}
use isomdl_elevenid.Issuance.Assembly.{is_member}

-- `rand::Rng`: a draw gives a value and the next state of the generator.
pub record Rng (Seed : Type 0) : Type 0 where
  pub gen_i32 : Seed → ℤ × Seed
  pub gen_range : ℕ → ℕ → Seed → ℕ × Seed
  pub fill : ℕ → Seed → Bytes × Seed

pub record IssuerSignedItem (Value : Type 0) : Type 0 where
  pub digest_id : DigestId
  pub random : Bytes
  pub element_identifier : Str
  pub element_value : Value

-- `Tag24<T>`
pub record Tag24 (T : Type 0) : Type 0 where
  pub inner : T
  pub inner_bytes : Bytes

-- What the source uses of the CBOR encoder: the encoding of an item, and of its bytes under tag 24.
pub record Encoder (Value : Type 0) : Type 0 where
  pub item_to_vec : IssuerSignedItem Value → Option Bytes
  pub tag24_to_vec : Bytes → Option Bytes

-- `BTreeMap<String, BTreeMap<String, Value>>`
abbrev pub Namespaces : Type 0 → Type 0
Namespaces Value = Map Str (Map Str Value)

abbrev pub IssuerNamespaces : Type 0 → Type 0
IssuerNamespaces Value = Map Str (List (Tag24 (IssuerSignedItem Value)))

unfoldable pub validate_namespace_shape :
    {Value : Type 0} → Namespaces Value → Result IssueError (Unit {0})
validate_namespace_shape namespaces = do
  fail_if (is_empty namespaces) no_namespace
  fail_if (any (λ (n : Str × Map Str _). is_empty n.1) namespaces) empty_namespace
  ok tt

-- The variables that the planning of one namespace changes.
pub record Planning : Type 0 where
  pub next_job_id : ℕ
  pub jobs : List DigestJob
  pub planned_digests : List PlannedMdocDigest

unfoldable pub push_planned_digest :
    ℕ → DigestId → ℕ → DigestAlgorithm → Bytes → Planning → Result IssueError Planning
push_planned_digest credential digest_id ordinal algorithm input st = do
  fail_if (not (ltb (st.next_job_id + 1) (2 ^ 64))) too_many_jobs
  ok (record {
    next_job_id = st.next_job_id + 1;
    jobs =
        st.jobs
        ++ (record {
          credential_id = credential;
          job_id = st.next_job_id;
          ordinal = ordinal;
          algorithm = algorithm;
          input = input;
        }
            ∷ []);
    planned_digests =
        st.planned_digests
        ++ (record { credential_id = credential; job_id = st.next_job_id; digest_id = digest_id }
            ∷ []);
  })

abbrev pub mdoc_credential_id : ℕ
mdoc_credential_id = 0

abbrev pub decoy_bytes_length : ℕ
decoy_bytes_length = 512

-- `jobs.extend_from_slice(&plan.jobs)` over the plans.
unfoldable pub batch_jobs : List MdocDigestPlan → List DigestJob
batch_jobs [] = []
batch_jobs (plan ∷ plans) = plan.jobs ++ batch_jobs plans

module _ {Seed Value : Type 0} (rng : Rng Seed) (encoder : Encoder Value) (draws : ℕ) where
  -- The loop until a draw is new, for at most `fuel` draws.
  unfoldable pub draw_digest_id :
      ℕ → List DigestId → Seed → Result IssueError (DigestId × List DigestId × Seed)
  draw_digest_id zero used seed = err out_of_draws
  draw_digest_id (suc fuel) used seed =
      let (i, seed') = rng.gen_i32 seed in
      let id = digest_id_new i in
      let again = draw_digest_id fuel used seed' in
      if is_member id used then again else ok (id, id ∷ used, seed')

  unfoldable pub generate_digest_id :
      List DigestId → Seed → Result IssueError (DigestId × List DigestId × Seed)
  unfolding draw_digest_id
  generate_digest_id used seed = draw_digest_id draws used seed

  -- `Tag24::new`
  unfoldable pub tag24_new :
      IssuerSignedItem Value → Result IssueError (Tag24 (IssuerSignedItem Value))
  tag24_new item = do
    bytes ← ok_or (encoder.item_to_vec item) unable_to_encode
    ok (record { inner = item; inner_bytes = bytes })

  -- The items of one namespace, each with a new ID and 16 random bytes.
  unfoldable pub issuer_items :
      List DigestId
      → Map Str Value
      → Seed
      → Result IssueError (List (Tag24 (IssuerSignedItem Value)) × Seed)
  issuer_items used [] seed = ok ([], seed)
  issuer_items used ((key, value) ∷ elements) seed = do
    (id, used', seed₁) ← generate_digest_id used seed
    (random, seed₂) ← ok (rng.fill 16 seed₁)
    item ← tag24_new (record {
      digest_id = id;
      random = random;
      element_identifier = key;
      element_value = value;
    })
    (items, seed₃) ← issuer_items used' elements seed₂
    ok (item ∷ items, seed₃)

  unfoldable pub issuer_entries :
      Namespaces Value → Seed → Result IssueError (IssuerNamespaces Value × Seed)
  issuer_entries [] seed = ok ([], seed)
  issuer_entries ((name, elements) ∷ namespaces) seed = do
    (items, seed₁) ← issuer_items [] elements seed
    fail_if (is_empty items) empty_namespace
    (entries, seed₂) ← issuer_entries namespaces seed₁
    ok ((name, items) ∷ entries, seed₂)

  unfoldable pub to_issuer_namespaces :
      Namespaces Value → Seed → Result IssueError (IssuerNamespaces Value × Seed)
  to_issuer_namespaces namespaces seed = do
    (entries, seed') ← issuer_entries namespaces seed
    fail_if (is_empty (from_entries entries [])) no_namespace
    ok (from_entries entries [], seed')

  -- The loop over the items of a namespace.
  unfoldable pub plan_items :
      ℕ
      → DigestAlgorithm
      → ℕ
      → List (Tag24 (IssuerSignedItem Value))
      → Planning
      → Result IssueError Planning
  plan_items credential algorithm ordinal [] st = ok st
  plan_items credential algorithm ordinal (item ∷ items) st = do
    input ← ok_or (encoder.tag24_to_vec item.inner_bytes) unable_to_encode
    st' ← push_planned_digest credential item.inner.digest_id ordinal algorithm input st
    plan_items credential algorithm (ordinal + 1) items st'

  -- The loop over the decoys that are left.
  unfoldable pub plan_decoys :
      ℕ
      → DigestAlgorithm
      → ℕ
      → ℕ
      → List DigestId
      → Planning
      → Seed
      → Result IssueError (Planning × Seed)
  plan_decoys credential algorithm zero ordinal used st seed = ok (st, seed)
  plan_decoys credential algorithm (suc decoys) ordinal used st seed = do
    (id, used', seed₁) ← generate_digest_id used seed
    (bytes, seed₂) ← ok (rng.fill decoy_bytes_length seed₁)
    st' ← push_planned_digest credential id ordinal algorithm bytes st
    plan_decoys credential algorithm decoys (ordinal + 1) used' st' seed₂

  abbrev pub decoy_count : Bool → Seed → ℕ × Seed
  decoy_count true seed = rng.gen_range 5 10 seed
  decoy_count false seed = (0, seed)

  unfoldable pub plan_digest_namespace :
      ℕ
      → List (Tag24 (IssuerSignedItem Value))
      → DigestAlgorithm
      → Bool
      → ℕ
      → List DigestJob
      → Seed
      → Result IssueError (Planning × Seed)
  plan_digest_namespace credential elements algorithm enable_decoys next_job_id jobs seed = do
    (decoys, seed') ← ok (decoy_count enable_decoys seed)
    st ←
        plan_items credential algorithm 0 elements
          (record { next_job_id = next_job_id; jobs = jobs; planned_digests = [] })
    plan_decoys credential algorithm decoys (length elements)
        (map (λ (e : Tag24 (IssuerSignedItem Value)). e.inner.digest_id) elements) st seed'

  -- The loop over the namespaces: what is planned for them, and all jobs.
  unfoldable pub plan_namespaces :
      ℕ
      → IssuerNamespaces Value
      → DigestAlgorithm
      → Bool
      → ℕ
      → List DigestJob
      → Seed
      → Result IssueError (List PlannedMdocNamespace × List DigestJob × Seed)
  plan_namespaces credential [] algorithm decoys next_job_id jobs seed = ok ([], jobs, seed)
  plan_namespaces credential ((name, elements) ∷ namespaces) algorithm decoys next_job_id jobs
        seed =
      do
        (st, seed₁) ←
            plan_digest_namespace credential elements algorithm decoys next_job_id jobs seed
        (planned, jobs', seed₂) ←
            plan_namespaces credential namespaces algorithm decoys st.next_job_id st.jobs seed₁
        ok (record { name = name; digests = st.planned_digests } ∷ planned, jobs', seed₂)

  unfoldable pub plan_digest_namespaces_for_credential :
      ℕ
      → IssuerNamespaces Value
      → DigestAlgorithm
      → Bool
      → Seed
      → Result IssueError (MdocDigestPlan × Seed)
  plan_digest_namespaces_for_credential credential namespaces algorithm decoys seed = do
    (planned, jobs, seed') ← plan_namespaces credential namespaces algorithm decoys 0 [] seed
    ok (record { credential_id = credential; namespaces = planned; jobs = jobs }, seed')

  unfoldable pub plan_digest_namespaces :
      IssuerNamespaces Value
      → DigestAlgorithm
      → Bool
      → Seed
      → Result IssueError (MdocDigestPlan × Seed)
  plan_digest_namespaces = plan_digest_namespaces_for_credential mdoc_credential_id
