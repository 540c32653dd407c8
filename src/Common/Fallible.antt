-- ===== src/Common/Fallible.antt =====
-- `Result<A, E>` with its `?`, as a bind.
use mathlib.Core.Path.{◌≡◌, refl, ap}
use mathlib.Core.Option.{Option, none, some}
use mathlib.Core.Bool.{Bool, true, false}

pub data Result {ℓ κ} (E : Type ℓ) (A : Type κ) : Type (ℓ ⊔ κ) where
  ok : A → Result E A
  err : E → Result E A

-- `o.ok_or(e)`
abbrev pub ok_or {ℓ κ} : {E : Type ℓ} {A : Type κ} → Option A → E → Result E A
ok_or none e = err e
ok_or (some a) e = ok a

-- `r.map_err(f)`
abbrev pub map_err {ℓ κ μ} :
    {E : Type ℓ} {F : Type κ} {A : Type μ} → (E → F) → Result E A → Result F A
map_err f (ok a) = ok a
map_err f (err e) = err (f e)

-- `r?` in front of the rest of a function.
infixl 5 ◌>>=◌
abbrev pub ◌>>=◌ {ℓ κ μ} :
    {E : Type ℓ} {A : Type κ} {B : Type μ} → Result E A → (A → Result E B) → Result E B
err e >>= rest = err e
ok a >>= rest = rest a

module _ {ℓ} {E : Type ℓ} where
  -- `if b { return Err(e) }`
  abbrev pub fail_if : Bool → E → Result E (Unit {0})
  fail_if false e = ok tt
  fail_if true e = err e

  infixl 5 ◌>>◌
  abbrev pub ◌>>◌ {κ} : {B : Type κ} → Result E (Unit {0}) → Result E B → Result E B
  check >> rest = check >>= λ _. rest

module _ {ℓ κ μ} {E : Type ℓ} {A : Type κ} {B : Type μ} where
  -- Where the whole succeeds, both the first part and the rest succeed.
  pub >>=-eq-ok :
      (first : Result E A) (rest : A → Result E B) {result : B}
      → (first >>= rest) ≡ ok result
      → (value : A) × (first ≡ ok value) × (rest value ≡ ok result)
  >>=-eq-ok (err reason) rest passed = cc
  >>=-eq-ok (ok value) rest passed = (value, refl, passed)

module _ {ℓ κ} {E : Type ℓ} {A : Type κ} where
  pub ok-injective : (a b : A) → ◌≡◌ {A = Result E A} (ok a) (ok b) → a ≡ b
  ok-injective a b h = cc

pub ok_or-eq-ok {ℓ κ} :
    {E : Type ℓ} {A : Type κ} (o : Option A) (e : E) (a : A) → ok_or o e ≡ ok a → o ≡ some a
ok_or-eq-ok none e a h = absurd cc
ok_or-eq-ok (some b) e a h = ap some (ok-injective b a h)

pub map_err-eq-ok {ℓ κ μ} :
    {E : Type ℓ} {F : Type κ} {A : Type μ} (f : E → F) (r : Result E A) (a : A)
    → map_err f r ≡ ok a
    → r ≡ ok a
map_err-eq-ok f (ok b) a h = ap ok (ok-injective b a h)
map_err-eq-ok f (err e) a h = absurd cc
