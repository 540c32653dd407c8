-- ===== src/Common/Index.antt =====
-- Maps built from the elements of a list by a key, and permutations of that list.
use mathlib.Core.List.{Permᴰ}
use mathlib.Core.Path.{◌≡◌, refl, sym, ◌∙◌}
use mathlib.Core.Logic.{◌≢◌}
use mathlib.Core.Option.{none, some}
use mathlib.Core.List.{List, [], ◌∷◌, ◌++◌}
use isomdl_elevenid.Common.Lists.{All, All-map, All-append, All-both}
use isomdl_elevenid.Common.Order.{Ord, ==_self, ==-eq-false}
use isomdl_elevenid.Common.Map.{
  Map, get, insert, remove, get-insert, remove_absent, remove-insert_self, insert_comm,
}

module _ {ℓ} {A : Type ℓ} where
  pub All-perm {κ} : (P : A → Type κ) {xs ys : List A} → Permᴰ xs ys → All P xs → All P ys
  All-perm P Permᴰ.nil h = tt
  All-perm P (Permᴰ.cons e p) (h, hs) = (rw (← e) h, All-perm P p hs)
  All-perm P (Permᴰ.swap e f) (h, (k, hs)) = (rw (← f) k, (rw (← e) h, hs))
  All-perm P (Permᴰ.trans p q) h = All-perm P q (All-perm P p h)

  -- No two elements of the list have one key.
  abbrev pub DistinctBy {κ} : {K : Type κ} → (A → K) → List A → Type κ
  DistinctBy key [] = Unit
  DistinctBy key (x ∷ xs) = All (λ y. key y ≢ key x) xs × DistinctBy key xs

  pub DistinctBy-perm {κ} :
      {K : Type κ} (key : A → K) {xs ys : List A}
      → Permᴰ xs ys
      → DistinctBy key xs
      → DistinctBy key ys
  DistinctBy-perm key Permᴰ.nil h = tt
  DistinctBy-perm key (Permᴰ.cons {b = b} e p) (h, hs) =
      (All-perm (λ y. key y ≢ key b) p (rw e at h), DistinctBy-perm key p hs)
  DistinctBy-perm key (Permᴰ.swap {a' = a'} {b' = b'} e f) ((ne, h), (k, hs)) =
      ((λ q. ne (rw (f, e) (sym q)), rw f at k), (rw e at h, hs))
  DistinctBy-perm key (Permᴰ.trans p q) h = DistinctBy-perm key q (DistinctBy-perm key p h)

  pub DistinctBy-append_parts {κ} :
      {K : Type κ} (key : A → K) (xs ys : List A) → DistinctBy key (xs ++ ys) → DistinctBy key ys
  DistinctBy-append_parts key [] ys h = h
  DistinctBy-append_parts key (x ∷ xs) ys (_, h) = DistinctBy-append_parts key xs ys h

module _ {ℓ κ μ} {A : Type ℓ} {K : Type κ} {V : Type μ} ⦃o : Ord K⦄ (key : A → K)
    (val : A → V) where
  -- The elements of the list in front of the map, the first of a key before the later.
  unfoldable pub index : List A → Map K V → Map K V
  index [] m = m
  index (x ∷ xs) m = insert (key x) (val x) (index xs m)

  -- The loop `for x in xs { m.insert(key(x), val(x)); }`.
  unfoldable pub insert_all : List A → Map K V → Map K V
  insert_all [] m = m
  insert_all (x ∷ xs) m = insert_all xs (insert (key x) (val x) m)

  pub index-insert :
      (k : K) (v : V) (xs : List A) (m : Map K V)
      → All (λ y. key y ≢ k) xs
      → index xs (insert k v m) ≡ insert k v (index xs m)
  unfolding index
  index-insert k v [] m h = refl
  index-insert k v (x ∷ xs) m (ne, h) =
      rw (index-insert k v xs m h) (insert_comm (key x) k (val x) v (index xs m) ne)

  -- Where the keys are distinct the order of the insertions does not matter.
  pub insert_all-eq-index :
      (xs : List A) (m : Map K V) → DistinctBy key xs → insert_all xs m ≡ index xs m
  unfolding index insert_all
  insert_all-eq-index [] m h = refl
  insert_all-eq-index (x ∷ xs) m (ne, h) =
      rw (insert_all-eq-index xs (insert (key x) (val x) m) h)
        (index-insert (key x) (val x) xs m ne)

  pub index-perm :
      {xs ys : List A} (m : Map K V) → Permᴰ xs ys → DistinctBy key xs → index xs m ≡ index ys m
  unfolding index
  index-perm m Permᴰ.nil h = refl
  index-perm m (Permᴰ.cons e p) (_, h) = rw (e, index-perm m p h)
  index-perm m (Permᴰ.swap {a} {b} {l = l} e f) ((ne, _), h) =
      rw (← e, ← f) (insert_comm (key a) (key b) (val a) (val b) (index l m) (λ q. ne (sym q)))
  index-perm m (Permᴰ.trans p q) h = index-perm m p h ∙ index-perm m q (DistinctBy-perm key p h)

  pub get-index_absent :
      (k : K) (xs : List A) (m : Map K V) → All (λ y. key y ≢ k) xs → get k (index xs m) ≡ get k m
  unfolding index
  get-index_absent k [] m h = refl
  get-index_absent k (x ∷ xs) m (ne, h) =
      rw (get-insert k (key x) (val x) (index xs m), ==-eq-false (key x) k ne)
        (get-index_absent k xs m h)

  pub get-index_head :
      (x : A) (xs : List A) (m : Map K V) → get (key x) (index (x ∷ xs) m) ≡ some (val x)
  unfolding index
  get-index_head x xs m = rw (get-insert (key x) (key x) (val x) (index xs m), ==_self (key x))

  pub remove-index_head :
      (x : A) (xs : List A) (m : Map K V)
      → All (λ y. key y ≢ key x) xs
      → get (key x) m ≡ none
      → remove (key x) (index (x ∷ xs) m) ≡ index xs m
  unfolding index
  remove-index_head x xs m ne h =
      remove-insert_self (key x) (val x) (index xs m)
      ∙ remove_absent (key x) (index xs m) (get-index_absent (key x) xs m ne ∙ h)

module _ {ℓ κ} {A : Type ℓ} {K : Type κ} (key : A → K) where
  -- A relation that holds of each element with itself, and of elements of different keys, holds of
  -- all pairs of elements of a list whose keys are distinct.
  pub All-pairs {μ} :
      (R : A → A → Type μ)
      → ((x : A) → R x x)
      → ((x y : A) → key x ≢ key y → R x y)
      → (xs : List A) → DistinctBy key xs
      → All (λ x. All (R x) xs) xs
  All-pairs R same differ [] h = tt
  All-pairs R same differ (x ∷ xs) (ne, h) = (
    (same x, All-map (λ y. key y ≢ key x) (R x) (λ y n. differ x y (λ p. n (sym p))) xs ne),
    All-both (λ y. R y x) (λ y. All (R y) xs) xs
        (All-map (λ y. key y ≢ key x) (λ y. R y x) (λ y n. differ y x n) xs ne)
        (All-pairs R same differ xs h),
  )

  pub DistinctBy-append :
      (xs ys : List A)
      → DistinctBy key xs
      → DistinctBy key ys
      → All (λ x. All (λ y. key y ≢ key x) ys) xs
      → DistinctBy key (xs ++ ys)
  DistinctBy-append [] ys h k d = k
  DistinctBy-append (x ∷ xs) ys (ne, h) k (d, ds) =
      (All-append (λ y. key y ≢ key x) xs ys ne d, DistinctBy-append xs ys h k ds)
