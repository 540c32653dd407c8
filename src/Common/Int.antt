-- ===== src/Common/Int.antt =====
-- Signed machine integers (`i128`, `i32`): `negsuc n` is -(n + 1). The ranges are stated where a
-- model depends on them.
use Prim.Native.Nat.{ℕ, compare, Ordering}
use mathlib.Core.Path.{◌≡◌}
use mathlib.Core.Bool.{Bool, true, false}
use native.Mathlib.Omega.{arith}
use isomdl_elevenid.Common.Order.{Ord}

pub data ℤ : Type 0 where
  pos negsuc : ℕ → ℤ

abbrev pub is_negative : ℤ → Bool
is_negative (pos n) = false
is_negative (negsuc n) = true

abbrev pub int_cmp : ℤ → ℤ → Ordering
int_cmp (pos a) (pos b) = compare a b
int_cmp (pos a) (negsuc b) = Ordering.gt
int_cmp (negsuc a) (pos b) = Ordering.lt
int_cmp (negsuc a) (negsuc b) = compare b a

pub int_cmp_self : (a : ℤ) → int_cmp a a ≡ Ordering.eq
int_cmp_self a = ground arith

pub int_cmp-eq : (a b : ℤ) → int_cmp a b ≡ Ordering.eq → a ≡ b
int_cmp-eq a b h = ground arith

pub int_cmp-gt_of_lt : (a b : ℤ) → int_cmp a b ≡ Ordering.lt → int_cmp b a ≡ Ordering.gt
int_cmp-gt_of_lt a b h = ground arith

pub int_cmp-lt_of_gt : (a b : ℤ) → int_cmp a b ≡ Ordering.gt → int_cmp b a ≡ Ordering.lt
int_cmp-lt_of_gt a b h = ground arith

pub int_cmp-lt_trans :
    (a b c : ℤ) → int_cmp a b ≡ Ordering.lt → int_cmp b c ≡ Ordering.lt → int_cmp a c ≡ Ordering.lt
int_cmp-lt_trans a b c h k = ground arith

instance abbrev pub int_ord : Ord ℤ
int_ord = record {
  cmp = int_cmp;
  cmp_self = int_cmp_self;
  eq_of_cmp = int_cmp-eq;
  gt_of_lt = int_cmp-gt_of_lt;
  lt_of_gt = int_cmp-lt_of_gt;
  lt_trans = int_cmp-lt_trans;
}
