-- ===== src/Common/Map.antt =====
-- `BTreeMap` as the list of its entries in the order of the keys. `insert` overwrites the entry
-- of an equal key; `remove` takes a key out.
use Prim.Native.Nat.{Ordering}
use mathlib.Core.Path.{◌≡◌, refl}
use mathlib.Core.Logic.{◌≢◌}
use mathlib.Core.Bool.{Bool, true, false}
use mathlib.Core.Option.{Option, none, some}
use mathlib.Core.List.{List, [], ◌∷◌, map}
use native.Mathlib.Omega.{arith}
use isomdl_elevenid.Common.Tests.{if◌then◌else◌}
use isomdl_elevenid.Common.Order.{Ord, ◌==◌, ==_self}

abbrev pub Map {ℓ κ} : Type ℓ → Type κ → Type (ℓ ⊔ κ)
Map K V = List (K × V)

abbrev pub is_some {ℓ} : {A : Type ℓ} → Option A → Bool
is_some none = false
is_some (some a) = true

abbrev pub is_empty {ℓ} : {A : Type ℓ} → List A → Bool
is_empty [] = true
is_empty (x ∷ xs) = false

abbrev pub keys {ℓ κ} : {K : Type ℓ} {V : Type κ} → Map K V → List K
keys m = map (λ e. e.0) m

abbrev pub values {ℓ κ} : {K : Type ℓ} {V : Type κ} → Map K V → List V
values m = map (λ e. e.1) m

module _ {ℓ κ} {K : Type ℓ} {V : Type κ} ⦃o : Ord K⦄ where
  unfoldable pub get : K → Map K V → Option V
  get k [] = none
  get k ((j, w) ∷ m) = if j == k then some w else get k m

  unfoldable pub insert : K → V → Map K V → Map K V
  insert k v [] = (k, v) ∷ []
  insert k v ((j, w) ∷ m) = elim (o.cmp k j) [
    | Ordering.lt ↦ (k, v) ∷ (j, w) ∷ m
    | Ordering.eq ↦ (k, v) ∷ m
    | Ordering.gt ↦ (j, w) ∷ insert k v m
  ]

  unfoldable pub remove : K → Map K V → Map K V
  remove k [] = []
  remove k ((j, w) ∷ m) = if j == k then remove k m else (j, w) ∷ remove k m

  abbrev pub contains_key : K → Map K V → Bool
  contains_key k m = is_some (get k m)

  -- `into_iter().collect()`: the last entry of a key stays.
  unfoldable pub from_entries : List (K × V) → Map K V → Map K V
  from_entries [] m = m
  from_entries ((k, v) ∷ es) m = from_entries es (insert k v m)

  pub get-insert :
      (j k : K) (v : V) (m : Map K V) → get j (insert k v m) ≡ (if k == j then some v else get j m)
  unfolding get insert
  get-insert j k v [] = refl
  get-insert j k v ((i, w) ∷ m) =
      ground
        (arith, get-insert j k v m, o.eq_of_cmp k i, o.eq_of_cmp i j, o.eq_of_cmp k j, o.cmp_self j)

  pub get-remove : (j k : K) (m : Map K V) → get j (remove k m) ≡ (if k == j then none else get j m)
  unfolding get remove
  get-remove j k [] = ground arith
  get-remove j k ((i, w) ∷ m) =
      ground
        (arith, get-remove j k m, o.eq_of_cmp i k, o.eq_of_cmp i j, o.eq_of_cmp k j, o.cmp_self j)

  pub remove_absent : (k : K) (m : Map K V) → get k m ≡ none → remove k m ≡ m
  unfolding get remove
  remove_absent k [] h = refl
  remove_absent k ((i, w) ∷ m) h = ground (arith, remove_absent k m)

  pub remove-insert_self : (k : K) (v : V) (m : Map K V) → remove k (insert k v m) ≡ remove k m
  unfolding remove insert
  remove-insert_self k v [] = rw (==_self k)
  remove-insert_self k v ((i, w) ∷ m) = ground (
    arith,
    remove-insert_self k v m,
    o.eq_of_cmp k i,
    o.cmp_self k,
    o.gt_of_lt i k,
    o.lt_of_gt k i,
  )

  -- Entries of different keys may be inserted in either order.
  pub insert_comm :
      (j k : K) (v w : V) (m : Map K V)
      → j ≢ k
      → insert j v (insert k w m) ≡ insert k w (insert j v m)
  unfolding insert
  insert_comm j k v w [] ne = ground (arith, o.gt_of_lt j k, o.lt_of_gt j k, o.eq_of_cmp j k)
  insert_comm j k v w ((i, u) ∷ m) ne = ground (
    arith,
    insert_comm j k v w m ne,
    o.gt_of_lt j k,
    o.lt_of_gt j k,
    o.eq_of_cmp j k,
    o.eq_of_cmp j i,
    o.eq_of_cmp k i,
    o.lt_of_gt k i,
    o.lt_of_gt j i,
    o.gt_of_lt k i,
    o.gt_of_lt j i,
    o.lt_trans j i k,
    o.lt_trans k i j,
  )
