-- ===== src/Device/Nearest.antt =====
-- The age attestation that is returned is the nearest: the true claim of the least sufficient age, or
-- else the false claim of the greatest age up to the one requested.
use mathlib.Core.List.{Memᴰ}
use isomdl_elevenid.Common.{
  ℕ, ◌≤◌, ◌<◌, ◌≡◌, refl, Bool, true, false, not, ◌&&◌, leb, List, [], ◌∷◌, Option, none, some, All,
  All-map, ◌⊎◌, inl, inr, ltb, Bool-cases, ltb→lt, arith,
}
use isomdl_elevenid.Device.Filtered.{All-mem, filter-kept, filter-implied, filter-none}
use isomdl_elevenid.Device.Age.{
  lesser, greater, first_claim, min_by_key, max_by_key, at_least, at_most, nearest,
}

module _ {Item : Type 0} (is_true : Item → Bool) where
  abbrev pub Least : List (ℕ × Item) → Option (ℕ × Item) → Type 0
  Least xs none = xs ≡ []
  Least xs (some x) = Memᴰ x xs × All (λ (y : ℕ × Item). x.0 ≤ y.0) xs

  abbrev pub Greatest : List (ℕ × Item) → Option (ℕ × Item) → Type 0
  Greatest xs none = xs ≡ []
  Greatest xs (some x) = Memᴰ x xs × All (λ (y : ℕ × Item). y.0 ≤ x.0) xs

  not_less : (a b : ℕ) → ltb a b ≡ false → b ≤ a
  not_less a b h = ground arith

  lesser-Least :
      (x : ℕ × Item) (xs : List (ℕ × Item)) (o : Option (ℕ × Item))
      → Least xs o
      → Least (x ∷ xs) (lesser is_true x o)
  lesser-Least x xs none h = rw h (Memᴰ.head refl, (omega arith, tt))
  lesser-Least x xs (some y) (here, least) = elim (Bool-cases (ltb y.0 x.0)) [
    | inl e ↦ rw e (Memᴰ.tail here, (lt-le (ltb→lt y.0 x.0 e), least))
    | inr e ↦ rw e (
      Memᴰ.head refl,
      (
        omega arith,
        All-map (λ (z : ℕ × Item). y.0 ≤ z.0) (λ (z : ℕ × Item). x.0 ≤ z.0)
            (λ z h. le-trans (not_less y.0 x.0 e) h) xs least,
      ),
    )
  ]
    where
      lt-le : {a b : ℕ} → a < b → a ≤ b
      lt-le h = omega arith

      le-trans : {a b c : ℕ} → a ≤ b → b ≤ c → a ≤ c
      le-trans h k = omega arith

  greater-Greatest :
      (x : ℕ × Item) (xs : List (ℕ × Item)) (o : Option (ℕ × Item))
      → Greatest xs o
      → Greatest (x ∷ xs) (greater is_true x o)
  greater-Greatest x xs none h = rw h (Memᴰ.head refl, (omega arith, tt))
  greater-Greatest x xs (some y) (here, greatest) = elim (Bool-cases (ltb y.0 x.0)) [
    | inl e ↦ rw e (
      Memᴰ.head refl,
      (
        omega arith,
        All-map (λ (z : ℕ × Item). z.0 ≤ y.0) (λ (z : ℕ × Item). z.0 ≤ x.0)
            (λ z h. below (ltb→lt y.0 x.0 e) h) xs greatest,
      ),
    )
    | inr e ↦ rw e (Memᴰ.tail here, (not_less y.0 x.0 e, greatest))
  ]
    where
      below : {a b c : ℕ} → a < b → c ≤ a → c ≤ b
      below h k = omega arith

  min_by_key-Least : (xs : List (ℕ × Item)) → Least xs (min_by_key is_true xs)
  unfolding min_by_key
  min_by_key-Least [] = refl
  min_by_key-Least (x ∷ xs) = lesser-Least x xs (min_by_key is_true xs) (min_by_key-Least xs)

  max_by_key-Greatest : (xs : List (ℕ × Item)) → Greatest xs (max_by_key is_true xs)
  unfolding max_by_key
  max_by_key-Greatest [] = refl
  max_by_key-Greatest (x ∷ xs) =
      greater-Greatest x xs (max_by_key is_true xs) (max_by_key-Greatest xs)

  -- A claim of less than the age where it is true, and one of more than the age where it is false.
  abbrev pub IsShort : ℕ → ℕ × Item → Type 0
  IsShort age c = is_true c.1 ≡ true → c.0 < age

  abbrev pub IsBeyond : ℕ → ℕ × Item → Type 0
  IsBeyond age c = is_true c.1 ≡ false → age < c.0

  -- The item is that of a true claim of at least the age, and no true claim of at least the age is of
  -- a lesser one.
  pub record IsLeast (age : ℕ) (claims : List (ℕ × Item)) (a : ℕ) (item : Item) : Type 0 where
    pub held : Memᴰ (a, item) claims
    pub proven : is_true item ≡ true
    pub enough : age ≤ a
    pub least : All (λ (c : ℕ × Item). is_true c.1 ≡ true → age ≤ c.0 → a ≤ c.0) claims

  -- The item is that of a false claim of at most the age, and no false claim of at most the age is of a
  -- greater one.
  pub record IsGreatest (age : ℕ) (claims : List (ℕ × Item)) (a : ℕ) (item : Item) : Type 0 where
    pub held : Memᴰ (a, item) claims
    pub refuted : is_true item ≡ false
    pub within : a ≤ age
    pub greatest : All (λ (c : ℕ × Item). is_true c.1 ≡ false → c.0 ≤ age → c.0 ≤ a) claims

  abbrev pub IsNearest : ℕ → List (ℕ × Item) → Option Item → Type 0
  IsNearest age claims none = All (IsShort age) claims × All (IsBeyond age) claims
  IsNearest age claims (some item) =
      (a : ℕ) × (IsLeast age claims a item
        ⊎ All (IsShort age) claims × IsGreatest age claims a item)

  at_least-IsLeast :
      (age a : ℕ) (claims : List (ℕ × Item)) (item : Item)
      → Least (at_least is_true age claims) (some (a, item))
      → IsLeast age claims a item
  at_least-IsLeast age a claims item (here, least) =
      let test : ℕ × Item → Bool = λ c. is_true c.1 && leb age c.0 in
      let (held, passed) = All-mem _ (a, item) _ here (filter-kept test claims claims (λ x m. m)) in
      record {
        held = held;
        proven = ground arith;
        enough = ground arith;
        least =
            All-map (λ (c : ℕ × Item). test c ≡ true → a ≤ c.0)
              (λ (c : ℕ × Item). is_true c.1 ≡ true → age ≤ c.0 → a ≤ c.0)
              (λ c k t r. k (ground arith)) claims (filter-implied _ test claims least);
      }

  at_most-IsGreatest :
      (age a : ℕ) (claims : List (ℕ × Item)) (item : Item)
      → Greatest (at_most is_true age claims) (some (a, item))
      → IsGreatest age claims a item
  at_most-IsGreatest age a claims item (here, greatest) =
      let test : ℕ × Item → Bool = λ c. not (is_true c.1) && leb c.0 age in
      let (held, passed) = All-mem _ (a, item) _ here (filter-kept test claims claims (λ x m. m)) in
      record {
        held = held;
        refuted = ground arith;
        within = ground arith;
        greatest =
            All-map (λ (c : ℕ × Item). test c ≡ true → c.0 ≤ a)
              (λ (c : ℕ × Item). is_true c.1 ≡ false → c.0 ≤ age → c.0 ≤ a)
              (λ c k t r. k (ground arith)) claims (filter-implied _ test claims greatest);
      }

  at_least-IsShort :
      (age : ℕ) (claims : List (ℕ × Item))
      → at_least is_true age claims ≡ []
      → All (IsShort age) claims
  at_least-IsShort age claims h =
      All-map (λ (c : ℕ × Item). (is_true c.1 && leb age c.0) ≡ false) (IsShort age)
        (λ c e t. ground arith) claims (filter-none _ claims h)

  at_most-IsBeyond :
      (age : ℕ) (claims : List (ℕ × Item))
      → at_most is_true age claims ≡ []
      → All (IsBeyond age) claims
  at_most-IsBeyond age claims h =
      All-map (λ (c : ℕ × Item). (not (is_true c.1) && leb c.0 age) ≡ false) (IsBeyond age)
        (λ c e t. ground arith) claims (filter-none _ claims h)

  first_claim-IsNearest :
      (age : ℕ) (claims : List (ℕ × Item)) (o p : Option (ℕ × Item))
      → Least (at_least is_true age claims) o
      → Greatest (at_most is_true age claims) p
      → IsNearest age claims (first_claim is_true o p)
  first_claim-IsNearest age claims (some (a, item)) p h k =
      (a, inl (at_least-IsLeast age a claims item h))
  first_claim-IsNearest age claims none (some (a, item)) h k =
      (a, inr (at_least-IsShort age claims h, at_most-IsGreatest age a claims item k))
  first_claim-IsNearest age claims none none h k =
      (at_least-IsShort age claims h, at_most-IsBeyond age claims k)

  -- The attestation returned is that of a true claim of at least the requested age, and no other such
  -- claim is of a lesser age; where every true claim is of a lesser age, it is that of a false claim of
  -- at most the requested age, and no other such claim is of a greater one; nothing is returned only
  -- where, besides, every false claim is of a greater age.
  pub nearest-IsNearest :
      (age : ℕ) (claims : List (ℕ × Item)) → IsNearest age claims (nearest is_true age claims)
  unfolding nearest
  nearest-IsNearest age claims =
      first_claim-IsNearest age claims (min_by_key is_true (at_least is_true age claims))
        (max_by_key is_true (at_most is_true age claims))
        (min_by_key-Least (at_least is_true age claims))
        (max_by_key-Greatest (at_most is_true age claims))
