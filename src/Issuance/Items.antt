-- ===== src/Issuance/Items.antt =====
-- The issuer-signed items of `to_issuer_namespaces`: their digest IDs are distinct in each namespace,
-- and so are the names; with `Planned`, what the issuer plans for them is sound.
use isomdl_elevenid.Common.{
  ℕ, ◌≡◌, ◌∙◌, refl, sym, ap, ◌≢◌, Bool, true, false, List, [], ◌∷◌, All, All-map, ok, >>=-eq-ok,
  ok-injective, ok_or, fail_if, ◌||◌,
}
use isomdl_elevenid.Common.Order.{Ord, Str, list_ord, nat_ord, ==_self, ◌==◌}
use isomdl_elevenid.Common.Int.{int_ord}
use isomdl_elevenid.Common.Index.{DistinctBy}
use isomdl_elevenid.Common.Sorted.{IsSorted-DistinctBy, from_entries-IsSorted, All-from_entries}
use isomdl_elevenid.Common.Map.{Map, is_empty, from_entries}
use isomdl_elevenid.Digest.{DigestAlgorithm}
use isomdl_elevenid.Issuance.{IssueError, DigestId, MdocDigestPlan}
use isomdl_elevenid.Issuance.Assembly.{is_member}
use isomdl_elevenid.Issuance.Aligned.{IsSound}
use isomdl_elevenid.Issuance.Plan.{
  Rng, IssuerSignedItem, Tag24, Encoder, Namespaces, IssuerNamespaces, generate_digest_id,
  draw_digest_id, tag24_new, issuer_items, issuer_entries, to_issuer_namespaces,
  plan_digest_namespaces_for_credential,
}
use isomdl_elevenid.Issuance.Planned.{draw_digest_id-new, item_id, plan-IsSound}

or-left_false : (a b : Bool) → (a || b) ≡ false → (a ≡ false) × (b ≡ false)
or-left_false true b h = absurd cc
or-left_false false b h = (refl, h)

pub not_used :
    {A : Type 0} ⦃o : Ord A⦄ (used : List A) (id other : A)
    → is_member other (id ∷ used) ≡ false
    → (other ≢ id) × (is_member other used ≡ false)
not_used used id other h =
    let (ne, rest) = or-left_false (id == other) (is_member other used) h in
    ((λ q. absurd (cc (ne, ==_self id, ap (λ z. id == z) q))), rest)

module _ {Seed Value : Type 0} (rng : Rng Seed) (encoder : Encoder Value) (draws : ℕ) where
  tag24_new-inner :
      (item : IssuerSignedItem Value) (t : Tag24 (IssuerSignedItem Value))
      → tag24_new rng encoder draws item ≡ ok t
      → t.inner ≡ item
  unfolding tag24_new
  tag24_new-inner item t h =
      let (bytes, _, h₁) = >>=-eq-ok (ok_or (encoder.item_to_vec item) _) _ h in
      sym (ap (λ t. t.inner) (ok-injective _ _ h₁))

  id_of : Tag24 (IssuerSignedItem Value) → DigestId
  id_of = item_id rng encoder draws

  issuer_items-new :
      (used : List DigestId) (elements : Map Str Value) (seed seed' : Seed)
      (items : List (Tag24 (IssuerSignedItem Value)))
      → issuer_items rng encoder draws used elements seed ≡ ok (items, seed')
      → DistinctBy (item_id rng encoder draws) items
        × All
            (λ (i : Tag24 (IssuerSignedItem Value)). is_member i.inner.digest_id used ≡ false)
            items
  unfolding issuer_items generate_digest_id
  issuer_items-new used [] seed seed' items h = rw (← ap (λ t. t.0) (ok-injective _ _ h)) (tt, tt)
  issuer_items-new used ((key, value) ∷ elements) seed seed' items h =
      let ((id, used', seed₁), drawn, h₁) =
        >>=-eq-ok (draw_digest_id rng encoder draws draws used seed) _ h in
      let (new, grown) =
        draw_digest_id-new rng encoder draws draws used used' id seed seed₁ drawn in
      let (t, tagged, h₂) =
        >>=-eq-ok
          (tag24_new rng encoder draws (record {
            digest_id = id;
            random = (rng.fill 16 seed₁).0;
            element_identifier = key;
            element_value = value;
          }))
          _ h₁ in
      let ((later, seed₃), there, h₃) =
        >>=-eq-ok (issuer_items rng encoder draws used' elements (rng.fill 16 seed₁).1) _ h₂ in
      let (d, n) = issuer_items-new (id ∷ used) elements _ seed₃ later (rw grown at there) in
      let same : t.inner.digest_id ≡ id = ap (λ i. i.digest_id) (tag24_new-inner _ t tagged) in
      rw (← ap (λ t. t.0) (ok-injective _ _ h₃)) (
        (
          All-map
              (λ (i : Tag24 (IssuerSignedItem Value)).
                is_member i.inner.digest_id (id ∷ used) ≡ false)
              (λ (i : Tag24 (IssuerSignedItem Value)). i.inner.digest_id ≢ t.inner.digest_id)
              (λ i q p. (not_used used id i.inner.digest_id q).0 (p ∙ same)) later n,
          d,
        ),
        (
          ap (λ z. is_member z used) same ∙ new,
          All-map
              (λ (i : Tag24 (IssuerSignedItem Value)).
                is_member i.inner.digest_id (id ∷ used) ≡ false)
              (λ (i : Tag24 (IssuerSignedItem Value)). is_member i.inner.digest_id used ≡ false)
              (λ i q. (not_used used id i.inner.digest_id q).1) later n,
        ),
      )

  HasDistinctItems : Str × List (Tag24 (IssuerSignedItem Value)) → Type 0
  HasDistinctItems e = DistinctBy (item_id rng encoder draws) e.1

  fail_if-pass : (b : Bool) (e : IssueError) → fail_if b e ≡ ok tt → b ≡ false
  fail_if-pass true e h = absurd cc
  fail_if-pass false e h = refl

  issuer_entries-distinct :
      (namespaces : Namespaces Value) (seed seed' : Seed) (entries : IssuerNamespaces Value)
      → issuer_entries rng encoder draws namespaces seed ≡ ok (entries, seed')
      → All HasDistinctItems entries
  unfolding issuer_entries HasDistinctItems
  issuer_entries-distinct [] seed seed' entries h = rw (← ap (λ t. t.0) (ok-injective _ _ h)) tt
  issuer_entries-distinct ((name, elements) ∷ ns) seed seed' entries h =
      let ((items, seed₁), here, h₁) =
        >>=-eq-ok (issuer_items rng encoder draws [] elements seed) _ h in
      let (_, _, h₂) = >>=-eq-ok (fail_if (is_empty items) _) _ h₁ in
      let ((later, seed₂), there, h₃) =
        >>=-eq-ok (issuer_entries rng encoder draws ns seed₁) _ h₂ in
      rw (← ap (λ t. t.0) (ok-injective _ _ h₃)) (
        (issuer_items-new [] elements seed seed₁ items here).0,
        issuer_entries-distinct ns seed₁ seed₂ later there,
      )

  -- What is issued has distinct names, and distinct IDs in each namespace.
  pub issued-DistinctBy :
      (namespaces : Namespaces Value) (seed seed₁ : Seed) (ns : IssuerNamespaces Value)
      → to_issuer_namespaces rng encoder draws namespaces seed ≡ ok (ns, seed₁)
      → DistinctBy (λ (e : Str × List (Tag24 (IssuerSignedItem Value))). e.0) ns
        × All
            (λ (e : Str × List (Tag24 (IssuerSignedItem Value))).
              DistinctBy (item_id rng encoder draws) e.1)
            ns
  unfolding to_issuer_namespaces HasDistinctItems
  issued-DistinctBy namespaces seed seed₁ ns issued =
      let ((entries, seed'), here, h₁) =
        >>=-eq-ok (issuer_entries rng encoder draws namespaces seed) _ issued in
      let (_, _, h₂) = >>=-eq-ok (fail_if (is_empty (from_entries entries [])) _) _ h₁ in
      let same : from_entries entries [] ≡ ns = ap (λ t. t.0) (ok-injective _ _ h₂) in
      rw (← same) (
        IsSorted-DistinctBy (from_entries entries []) (from_entries-IsSorted entries [] tt),
        All-from_entries HasDistinctItems entries []
            (issuer_entries-distinct namespaces seed seed' entries here) tt,
      )

  -- Whatever the generator draws: the plan that the issuer makes for the items it signs is sound.
  pub issued_plan-IsSound :
      (namespaces : Namespaces Value) (seed seed₁ seed₂ : Seed)
      (issuer_namespaces : IssuerNamespaces Value) (credential : ℕ) (algorithm : DigestAlgorithm)
      (enable_decoys : Bool) (plan : MdocDigestPlan)
      → to_issuer_namespaces rng encoder draws namespaces seed ≡ ok (issuer_namespaces, seed₁)
      → plan_digest_namespaces_for_credential rng encoder draws credential issuer_namespaces
          algorithm enable_decoys seed₁
        ≡ ok (plan, seed₂)
      → IsSound plan × (plan.credential_id ≡ credential)
  issued_plan-IsSound namespaces seed seed₁ seed₂ ns credential algorithm enable plan issued
        planned =
      let (names, ids) = issued-DistinctBy namespaces seed seed₁ ns issued in
      plan-IsSound rng encoder draws credential ns algorithm enable seed₁ seed₂ plan names ids
        planned
