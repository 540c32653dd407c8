-- ===== src/Common/Order.antt =====
-- Keys with a total order: the `Ord` of the standard library, for numbers, pairs and sequences.
-- A Rust string is compared byte by byte, so its model is the list of its bytes.
use Prim.Native.Nat.{ℕ, compare, Ordering}
use Prim.Native.Char.{code}
use Prim.Native.String.{String}
use mathlib.Core.Path.{◌≡◌, refl}
use mathlib.Core.Bool.{Bool, true, false}
use mathlib.Core.Logic.{◌≢◌, ◌⊎◌, inl, inr}
use mathlib.Core.List.{List, [], ◌∷◌}
use native.Mathlib.Omega.{arith}

pub record Ord {ℓ} (A : Type ℓ) : Type ℓ where
  pub cmp : A → A → Ordering
  pub cmp_self : (a : A) → cmp a a ≡ Ordering.eq
  pub eq_of_cmp : (a b : A) → cmp a b ≡ Ordering.eq → a ≡ b
  pub gt_of_lt : (a b : A) → cmp a b ≡ Ordering.lt → cmp b a ≡ Ordering.gt
  pub lt_of_gt : (a b : A) → cmp a b ≡ Ordering.gt → cmp b a ≡ Ordering.lt
  pub lt_trans : (a b c : A) → cmp a b ≡ Ordering.lt → cmp b c ≡ Ordering.lt → cmp a c ≡ Ordering.lt

abbrev pub is_eq : Ordering → Bool
is_eq Ordering.eq = true
is_eq _ = false

infix 50 ◌==◌
abbrev pub ◌==◌ {ℓ} : {A : Type ℓ} ⦃o : Ord A⦄ → A → A → Bool
◌==◌ ⦃o⦄ a b = is_eq (o.cmp a b)

-- Lexicographic order: the first difference decides.
abbrev pub then_cmp : Ordering → Ordering → Ordering
then_cmp Ordering.eq o = o
then_cmp Ordering.lt o = Ordering.lt
then_cmp Ordering.gt o = Ordering.gt

pub compare-gt_of_lt : (a b : ℕ) → compare a b ≡ Ordering.lt → compare b a ≡ Ordering.gt
compare-gt_of_lt a b h = ground arith

pub compare-lt_of_gt : (a b : ℕ) → compare a b ≡ Ordering.gt → compare b a ≡ Ordering.lt
compare-lt_of_gt a b h = ground arith

pub compare-lt_trans :
    (a b c : ℕ) → compare a b ≡ Ordering.lt → compare b c ≡ Ordering.lt → compare a c ≡ Ordering.lt
compare-lt_trans a b c h k = ground arith

pub compare-eq_of_cmp : (a b : ℕ) → compare a b ≡ Ordering.eq → a ≡ b
compare-eq_of_cmp a b h = ground arith

pub compare-cmp_self : (a : ℕ) → compare a a ≡ Ordering.eq
compare-cmp_self a = ground arith

instance abbrev pub nat_ord : Ord ℕ
nat_ord = record {
  cmp = compare;
  cmp_self = compare-cmp_self;
  eq_of_cmp = compare-eq_of_cmp;
  gt_of_lt = compare-gt_of_lt;
  lt_of_gt = compare-lt_of_gt;
  lt_trans = compare-lt_trans;
}

-- The laws of `then_cmp`, for two comparisons that stand one behind the other.
pub then_cmp-eq :
    (o p : Ordering) → then_cmp o p ≡ Ordering.eq → (o ≡ Ordering.eq) × (p ≡ Ordering.eq)
then_cmp-eq Ordering.eq p h = (refl, h)
then_cmp-eq Ordering.lt p h = cc
then_cmp-eq Ordering.gt p h = cc

module _ {ℓ} {A : Type ℓ} (o : Ord A) where
  pub then_cmp-gt_of_lt :
      (a b : A) (p q : Ordering)
      → (p ≡ Ordering.lt → q ≡ Ordering.gt)
      → then_cmp (o.cmp a b) p ≡ Ordering.lt
      → then_cmp (o.cmp b a) q ≡ Ordering.gt
  then_cmp-gt_of_lt a b p q k h = go (o.cmp a b) refl h
    where
      go :
          (c : Ordering)
          → o.cmp a b ≡ c
          → then_cmp c p ≡ Ordering.lt
          → then_cmp (o.cmp b a) q ≡ Ordering.gt
      go Ordering.lt e h' = rw (o.gt_of_lt a b e)
      go Ordering.eq e h' = rw (o.eq_of_cmp a b e, o.cmp_self b) (k h')
      go Ordering.gt e h' = cc

  pub then_cmp-lt_of_gt :
      (a b : A) (p q : Ordering)
      → (p ≡ Ordering.gt → q ≡ Ordering.lt)
      → then_cmp (o.cmp a b) p ≡ Ordering.gt
      → then_cmp (o.cmp b a) q ≡ Ordering.lt
  then_cmp-lt_of_gt a b p q k h = go (o.cmp a b) refl h
    where
      go :
          (c : Ordering)
          → o.cmp a b ≡ c
          → then_cmp c p ≡ Ordering.gt
          → then_cmp (o.cmp b a) q ≡ Ordering.lt
      go Ordering.gt e h' = rw (o.lt_of_gt a b e)
      go Ordering.eq e h' = rw (o.eq_of_cmp a b e, o.cmp_self b) (k h')
      go Ordering.lt e h' = cc

  pub then_cmp-lt_trans :
      (a b c : A) (p q r : Ordering)
      → (p ≡ Ordering.lt → q ≡ Ordering.lt → r ≡ Ordering.lt)
      → then_cmp (o.cmp a b) p ≡ Ordering.lt
      → then_cmp (o.cmp b c) q ≡ Ordering.lt
      → then_cmp (o.cmp a c) r ≡ Ordering.lt
  then_cmp-lt_trans a b c p q r k h j = go (o.cmp a b) (o.cmp b c) refl refl h j
    where
      go :
          (x y : Ordering)
          → o.cmp a b ≡ x
          → o.cmp b c ≡ y
          → then_cmp x p ≡ Ordering.lt
          → then_cmp y q ≡ Ordering.lt
          → then_cmp (o.cmp a c) r ≡ Ordering.lt
      go Ordering.lt Ordering.lt e f h' j' = rw (o.lt_trans a b c e f)
      go Ordering.lt Ordering.eq e f h' j' = rw (← o.eq_of_cmp b c f, e)
      go Ordering.eq Ordering.lt e f h' j' = rw (o.eq_of_cmp a b e, f)
      go Ordering.eq Ordering.eq e f h' j' =
          rw (o.eq_of_cmp a b e, o.eq_of_cmp b c f, o.cmp_self c) (k h' j')
      go Ordering.gt _ e f h' j' = cc
      go _ Ordering.gt e f h' j' = cc

-- Pairs compare by the first part, then by the second.
module _ {ℓ κ} {A : Type ℓ} {B : Type κ} (o : Ord A) (u : Ord B) where
  abbrev pub pair_cmp : A × B → A × B → Ordering
  pair_cmp (a, b) (c, d) = then_cmp (o.cmp a c) (u.cmp b d)

  pub pair_cmp_self : (x : A × B) → pair_cmp x x ≡ Ordering.eq
  pair_cmp_self (a, b) = rw (o.cmp_self a) (u.cmp_self b)

  pub pair_cmp-eq : (x y : A × B) → pair_cmp x y ≡ Ordering.eq → x ≡ y
  pair_cmp-eq (a, b) (c, d) h =
      let (e, f) = then_cmp-eq _ _ h in
      let p = o.eq_of_cmp a c e in let q = u.eq_of_cmp b d f in λ i. (p i, q i)

  pub pair_cmp-gt_of_lt : (x y : A × B) → pair_cmp x y ≡ Ordering.lt → pair_cmp y x ≡ Ordering.gt
  pair_cmp-gt_of_lt (a, b) (c, d) h = then_cmp-gt_of_lt o a c _ _ (u.gt_of_lt b d) h

  pub pair_cmp-lt_of_gt : (x y : A × B) → pair_cmp x y ≡ Ordering.gt → pair_cmp y x ≡ Ordering.lt
  pair_cmp-lt_of_gt (a, b) (c, d) h = then_cmp-lt_of_gt o a c _ _ (u.lt_of_gt b d) h

  pub pair_cmp-lt_trans :
      (x y z : A × B)
      → pair_cmp x y ≡ Ordering.lt
      → pair_cmp y z ≡ Ordering.lt
      → pair_cmp x z ≡ Ordering.lt
  pair_cmp-lt_trans (a, b) (c, d) (e, f) h k =
      then_cmp-lt_trans o a c e _ _ _ (u.lt_trans b d f) h k

instance abbrev pub pair_ord {ℓ κ} : {A : Type ℓ} {B : Type κ} ⦃o : Ord A⦄ ⦃u : Ord B⦄ → Ord (A × B)
pair_ord ⦃o⦄ ⦃u⦄ = record {
  cmp = pair_cmp o u;
  cmp_self = pair_cmp_self o u;
  eq_of_cmp = pair_cmp-eq o u;
  gt_of_lt = pair_cmp-gt_of_lt o u;
  lt_of_gt = pair_cmp-lt_of_gt o u;
  lt_trans = pair_cmp-lt_trans o u;
}

-- Sequences compare element by element, a prefix before what extends it.
module _ {ℓ} {A : Type ℓ} (o : Ord A) where
  abbrev pub list_cmp : List A → List A → Ordering
  list_cmp [] [] = Ordering.eq
  list_cmp [] (y ∷ ys) = Ordering.lt
  list_cmp (x ∷ xs) [] = Ordering.gt
  list_cmp (x ∷ xs) (y ∷ ys) = then_cmp (o.cmp x y) (list_cmp xs ys)

  pub list_cmp_self : (xs : List A) → list_cmp xs xs ≡ Ordering.eq
  list_cmp_self [] = refl
  list_cmp_self (x ∷ xs) = rw (o.cmp_self x) (list_cmp_self xs)

  pub list_cmp-eq : (xs ys : List A) → list_cmp xs ys ≡ Ordering.eq → xs ≡ ys
  list_cmp-eq [] [] h = refl
  list_cmp-eq [] (y ∷ ys) h = cc
  list_cmp-eq (x ∷ xs) [] h = cc
  list_cmp-eq (x ∷ xs) (y ∷ ys) h =
      let (e, f) = then_cmp-eq _ _ h in
      let p = o.eq_of_cmp x y e in let q = list_cmp-eq xs ys f in λ i. p i ∷ q i

  pub list_cmp-gt_of_lt :
      (xs ys : List A) → list_cmp xs ys ≡ Ordering.lt → list_cmp ys xs ≡ Ordering.gt
  list_cmp-gt_of_lt [] [] h = cc
  list_cmp-gt_of_lt [] (y ∷ ys) h = refl
  list_cmp-gt_of_lt (x ∷ xs) [] h = cc
  list_cmp-gt_of_lt (x ∷ xs) (y ∷ ys) h = then_cmp-gt_of_lt o x y _ _ (list_cmp-gt_of_lt xs ys) h

  pub list_cmp-lt_of_gt :
      (xs ys : List A) → list_cmp xs ys ≡ Ordering.gt → list_cmp ys xs ≡ Ordering.lt
  list_cmp-lt_of_gt [] [] h = cc
  list_cmp-lt_of_gt [] (y ∷ ys) h = cc
  list_cmp-lt_of_gt (x ∷ xs) [] h = refl
  list_cmp-lt_of_gt (x ∷ xs) (y ∷ ys) h = then_cmp-lt_of_gt o x y _ _ (list_cmp-lt_of_gt xs ys) h

  pub list_cmp-lt_trans :
      (xs ys zs : List A)
      → list_cmp xs ys ≡ Ordering.lt
      → list_cmp ys zs ≡ Ordering.lt
      → list_cmp xs zs ≡ Ordering.lt
  list_cmp-lt_trans [] [] zs h k = cc
  list_cmp-lt_trans [] (y ∷ ys) [] h k = cc
  list_cmp-lt_trans [] (y ∷ ys) (z ∷ zs) h k = refl
  list_cmp-lt_trans (x ∷ xs) [] zs h k = cc
  list_cmp-lt_trans (x ∷ xs) (y ∷ ys) [] h k = cc
  list_cmp-lt_trans (x ∷ xs) (y ∷ ys) (z ∷ zs) h k =
      then_cmp-lt_trans o x y z _ _ _ (list_cmp-lt_trans xs ys zs) h k

instance abbrev pub list_ord {ℓ} : {A : Type ℓ} ⦃o : Ord A⦄ → Ord (List A)
list_ord ⦃o⦄ = record {
  cmp = list_cmp o;
  cmp_self = list_cmp_self o;
  eq_of_cmp = list_cmp-eq o;
  gt_of_lt = list_cmp-gt_of_lt o;
  lt_of_gt = list_cmp-lt_of_gt o;
  lt_trans = list_cmp-lt_trans o;
}

-- A string, as the list of its bytes; `str` reads a literal in ASCII.
abbrev pub Str : Type 0
Str = List ℕ

abbrev pub str : String → Str
str String.[] = []
str (String.◌∷◌ c s) = code c ∷ str s

module _ {ℓ} {A : Type ℓ} ⦃o : Ord A⦄ where
  pub ==_self : (a : A) → (a == a) ≡ true
  ==_self a = rw (o.cmp_self a)

  pub eq_of_== : (a b : A) → (a == b) ≡ true → a ≡ b
  eq_of_== a b h = go (o.cmp a b) refl h
    where
      go : (c : Ordering) → o.cmp a b ≡ c → is_eq c ≡ true → a ≡ b
      go Ordering.eq e h' = o.eq_of_cmp a b e
      go Ordering.lt e h' = cc
      go Ordering.gt e h' = cc

  ne_of_== : (a b : A) → (a == b) ≡ false → a ≢ b
  ne_of_== a b h p = cc (==_self b)

  pub ==-cases : (a b : A) → ((a == b) ≡ true) × (a ≡ b) ⊎ ((a == b) ≡ false) × (a ≢ b)
  ==-cases a b = go (a == b) refl
    where
      go : (c : Bool) → (a == b) ≡ c → ((a == b) ≡ true) × (a ≡ b) ⊎ ((a == b) ≡ false) × (a ≢ b)
      go true e = inl (e, eq_of_== a b e)
      go false e = inr (e, ne_of_== a b e)

  pub ==-eq-false : (a b : A) → a ≢ b → (a == b) ≡ false
  ==-eq-false a b h = elim (==-cases a b) [ inl p ↦ absurd (h p.1) | inr p ↦ p.0 ]
