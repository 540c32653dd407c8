-- ===== src/Device/Filtered.antt =====
-- src/presentation/device.rs: what the filters over its lists keep, with what every element kept
-- fulfils.
use mathlib.Core.List.{Memᴰ}
use mathlib.Core.Path.{subst, sym}
use isomdl_elevenid.Common.{◌≡◌, refl, Bool, true, false, List, [], ◌∷◌, All, inl, inr, Bool-cases}
use isomdl_elevenid.Device.Filter.{filter}

module _ {A : Type 0} where
  pub All-mem : (P : A → Type 0) (x : A) (xs : List A) → Memᴰ x xs → All P xs → P x
  All-mem P x [] m h = elim m [ ]
  All-mem P x (y ∷ ys) (Memᴰ.head e) (p, ps) = subst P (sym e) p
  All-mem P x (y ∷ ys) (Memᴰ.tail m) (p, ps) = All-mem P x ys m ps

  pub filter-kept :
      (test : A → Bool) (xs all : List A)
      → ((x : A) → Memᴰ x xs → Memᴰ x all)
      → All (λ x. Memᴰ x all × (test x ≡ true)) (filter test xs)
  filter-kept test [] all inside = tt
  filter-kept test (x ∷ xs) all inside = elim (Bool-cases (test x)) [
    | inl e ↦
        rw e
          ((inside x (Memᴰ.head refl), e), filter-kept test xs all (λ y m. inside y (Memᴰ.tail m)))
    | inr e ↦ rw e (filter-kept test xs all (λ y m. inside y (Memᴰ.tail m)))
  ]

  pub filter-implied :
      (P : A → Type 0) (test : A → Bool) (xs : List A)
      → All P (filter test xs)
      → All (λ y. test y ≡ true → P y) xs
  filter-implied P test [] h = tt
  filter-implied P test (x ∷ xs) h = elim (Bool-cases (test x)) [
    | inl e ↦
        let kept : All P (x ∷ filter test xs) = rw e at h in
        ((λ t. kept.0), filter-implied P test xs kept.1)
    | inr e ↦
        let rest : All P (filter test xs) = rw e at h in
        ((λ t. absurd cc), filter-implied P test xs rest)
  ]

  pub filter-none :
      (test : A → Bool) (xs : List A) → filter test xs ≡ [] → All (λ y. test y ≡ false) xs
  filter-none test [] h = tt
  filter-none test (x ∷ xs) h = elim (Bool-cases (test x)) [
    | inl e ↦ absurd (cc (rw e at h))
    | inr e ↦ (e, filter-none test xs (rw e at h))
  ]
