-- ===== src/Common/Sorted.antt =====
-- The entries of a map that `insert` builds stand in the strict order of their keys.
use Prim.Native.Nat.{Ordering}
use mathlib.Core.Path.{◌≡◌, refl, ap}
use mathlib.Core.Logic.{◌≢◌, inl, inr}
use mathlib.Core.Option.{Option, some}
use mathlib.Core.List.{List, [], ◌∷◌, map}
use native.Mathlib.Omega.{arith}
use isomdl_elevenid.Common.Lists.{All, All-map}
use isomdl_elevenid.Common.Order.{Ord, ==-cases}
use isomdl_elevenid.Common.Index.{DistinctBy}
use isomdl_elevenid.Common.Map.{Map, get, insert, from_entries}

module _ {ℓ κ} {K : Type ℓ} {V : Type κ} ⦃o : Ord K⦄ where
  abbrev pub IsSorted : Map K V → Type ℓ
  IsSorted [] = Unit
  IsSorted (e ∷ m) = All (λ f. o.cmp e.0 f.0 ≡ Ordering.lt) m × IsSorted m

  -- The three cases of an insertion.
  module _ (k j : K) (v w : V) (m : Map K V) where
    insert-lt : o.cmp k j ≡ Ordering.lt → insert k v ((j, w) ∷ m) ≡ (k, v) ∷ (j, w) ∷ m
    unfolding insert
    insert-lt e = ground arith

    insert-eq : o.cmp k j ≡ Ordering.eq → insert k v ((j, w) ∷ m) ≡ (k, v) ∷ m
    unfolding insert
    insert-eq e = ground arith

    insert-gt : o.cmp k j ≡ Ordering.gt → insert k v ((j, w) ∷ m) ≡ (j, w) ∷ insert k v m
    unfolding insert
    insert-gt e = ground arith

  pub All-insert {μ} :
      (P : K × V → Type μ) (k : K) (v : V) (m : Map K V) → P (k, v) → All P m → All P (insert k v m)
  unfolding insert
  All-insert P k v [] p h = (p, tt)
  All-insert P k v ((j, w) ∷ m) p (q, h) = go (o.cmp k j) refl (All-insert P k v m p h)
    where
      go : (c : Ordering) → o.cmp k j ≡ c → All P (insert k v m) → All P (insert k v ((j, w) ∷ m))
      go Ordering.lt e later = rw (insert-lt k j v w m e) (p, (q, h))
      go Ordering.eq e later = rw (insert-eq k j v w m e) (p, h)
      go Ordering.gt e later = rw (insert-gt k j v w m e) (q, later)

  pub All-get {μ} :
      (P : K × V → Type μ) (k : K) (v : V) (m : Map K V) → All P m → get k m ≡ some v → P (k, v)
  unfolding get
  All-get P k v [] h e = absurd cc
  All-get P k v ((j, w) ∷ m) (p, h) e = elim (==-cases j k) [
    | inl (t, same) ↦
        let here : ◌≡◌ {A = Option V} (some w) (some v) = rw t at e in
        rw (← same, ← some-injective w v here) p
    | inr (f, _) ↦ All-get P k v m h (rw f at e)
  ]
    where
      some-injective : (a b : V) → ◌≡◌ {A = Option V} (some a) (some b) → a ≡ b
      some-injective a b h = cc

  pub insert-IsSorted : (k : K) (v : V) (m : Map K V) → IsSorted m → IsSorted (insert k v m)
  unfolding insert
  insert-IsSorted k v [] h = (tt, tt)
  insert-IsSorted k v ((j, w) ∷ m) (first, h) = go (o.cmp k j) refl (insert-IsSorted k v m h)
    where
      go :
          (c : Ordering)
          → o.cmp k j ≡ c
          → IsSorted (insert k v m)
          → IsSorted (insert k v ((j, w) ∷ m))
      go Ordering.lt e later = rw (insert-lt k j v w m e) (
        (
          e,
          All-map (λ f. o.cmp j f.0 ≡ Ordering.lt) (λ f. o.cmp k f.0 ≡ Ordering.lt)
              (λ f l. o.lt_trans k j f.0 e l) m first,
        ),
        (first, h),
      )
      go Ordering.eq e later = rw (insert-eq k j v w m e) (rw (o.eq_of_cmp k j e) first, h)
      go Ordering.gt e later =
          rw (insert-gt k j v w m e)
            (All-insert (λ f. o.cmp j f.0 ≡ Ordering.lt) k v m (o.lt_of_gt k j e) first, later)

  pub IsSorted-DistinctBy : (m : Map K V) → IsSorted m → DistinctBy (λ (e : K × V). e.0) m
  IsSorted-DistinctBy [] h = tt
  IsSorted-DistinctBy (e ∷ m) (first, h) = (
    All-map (λ f. o.cmp e.0 f.0 ≡ Ordering.lt) (λ f. f.0 ≢ e.0)
        (λ f l q. absurd (cc (l, o.cmp_self e.0, ap (λ k. o.cmp e.0 k) q))) m first,
    IsSorted-DistinctBy m h,
  )

  pub from_entries-IsSorted : (es m : Map K V) → IsSorted m → IsSorted (from_entries es m)
  unfolding from_entries
  from_entries-IsSorted [] m h = h
  from_entries-IsSorted ((k, v) ∷ es) m h =
      from_entries-IsSorted es (insert k v m) (insert-IsSorted k v m h)

  pub All-from_entries {μ} :
      (P : K × V → Type μ) (es m : Map K V) → All P es → All P m → All P (from_entries es m)
  unfolding from_entries
  All-from_entries P [] m h g = g
  All-from_entries P ((k, v) ∷ es) m (p, h) g =
      All-from_entries P es (insert k v m) h (All-insert P k v m p g)

module _ {ℓ κ} {A : Type ℓ} {K : Type κ} (key : A → K) where
  pub DistinctBy-keys : (xs : List A) → DistinctBy key xs → DistinctBy (λ (k : K). k) (map key xs)
  DistinctBy-keys [] h = tt
  DistinctBy-keys (x ∷ xs) (ne, h) = (go xs ne, DistinctBy-keys xs h)
    where
      go : (ys : List A) → All (λ y. key y ≢ key x) ys → All (λ k. k ≢ key x) (map key ys)
      go [] ne = tt
      go (y ∷ ys) (n, ne) = (n, go ys ne)

  pub DistinctBy-of_keys :
      (xs : List A) → DistinctBy (λ (k : K). k) (map key xs) → DistinctBy key xs
  DistinctBy-of_keys [] h = tt
  DistinctBy-of_keys (x ∷ xs) (ne, h) = (go xs ne, DistinctBy-of_keys xs h)
    where
      go : (ys : List A) → All (λ k. k ≢ key x) (map key ys) → All (λ y. key y ≢ key x) ys
      go [] ne = tt
      go (y ∷ ys) (n, ne) = (n, go ys ne)
