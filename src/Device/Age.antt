-- ===== src/Device/Age.antt =====
-- src/presentation/device.rs: `nearest_age_attestation` and the age in an element identifier. Whether
-- the value of an item is `true` is a test that is passed in.
use isomdl_elevenid.Common.{
  ℕ, ◌+◌, ◌*◌, ◌-◌, Bool, true, false, not, ◌&&◌, ◌||◌, List, [], ◌∷◌, Option, none, some, ltb, leb,
  if◌then◌else◌, Result, ok, ◌>>=◌, ok_or,
}
use isomdl_elevenid.Common.Order.{Str, str, nat_ord, ◌==◌}
use isomdl_elevenid.Common.Map.{Map}
use isomdl_elevenid.Device.Filter.{filter}

pub data AgeError : Type 0 where
  parsing_error prefix_error : AgeError

-- `strip_prefix`
unfoldable pub strip_prefix : Str → Str → Option Str
strip_prefix [] s = some s
strip_prefix (p ∷ ps) [] = none
strip_prefix (p ∷ ps) (c ∷ cs) = let rest = strip_prefix ps cs in if p == c then rest else none

-- The digits of a `u8` behind those that make `value` so far.
unfoldable pub parse_digits : ℕ → Str → Option ℕ
parse_digits value [] = some value
parse_digits value (c ∷ cs) =
    let rest = parse_digits (value * 10 + (c - 48)) cs in
    if leb 48 c && leb c 57 && leb (value * 10 + (c - 48)) 255 then rest else none

abbrev pub parse_some_digits : Str → Option ℕ
parse_some_digits [] = none
parse_some_digits (c ∷ cs) = parse_digits 0 (c ∷ cs)

-- `str::parse::<u8>`: at least one digit, with a plus sign in front or not.
unfoldable pub parse_u8 : Str → Option ℕ
parse_u8 [] = none
parse_u8 (c ∷ cs) = if c == 43 then parse_some_digits cs else parse_some_digits (c ∷ cs)

unfoldable pub parse_age_from_element_identifier : Str → Result AgeError ℕ
parse_age_from_element_identifier element_identifier = do
  age ← ok_or (strip_prefix (str "age_over_") element_identifier) prefix_error
  ok_or (parse_u8 age) parsing_error

abbrev pub is_prefix : Str → Str → Bool
is_prefix [] s = true
is_prefix (p ∷ ps) [] = false
is_prefix (p ∷ ps) (c ∷ cs) = p == c && is_prefix ps cs

-- `element.contains(pattern)`
unfoldable pub contains_str : Str → Str → Bool
contains_str pattern [] = is_prefix pattern []
contains_str pattern (c ∷ cs) = is_prefix pattern (c ∷ cs) || contains_str pattern cs

module _ {Item : Type 0} (is_true : Item → Bool) where
  abbrev pub lesser : ℕ × Item → Option (ℕ × Item) → Option (ℕ × Item)
  lesser x none = some x
  lesser x (some y) = if ltb y.0 x.0 then some y else some x

  -- `min_by_key`: of several minima the first.
  unfoldable pub min_by_key : List (ℕ × Item) → Option (ℕ × Item)
  min_by_key [] = none
  min_by_key (x ∷ xs) = lesser x (min_by_key xs)

  abbrev pub greater : ℕ × Item → Option (ℕ × Item) → Option (ℕ × Item)
  greater x none = some x
  greater x (some y) = if ltb y.0 x.0 then some x else some y

  -- `max_by_key`: of several maxima the last.
  unfoldable pub max_by_key : List (ℕ × Item) → Option (ℕ × Item)
  max_by_key [] = none
  max_by_key (x ∷ xs) = greater x (max_by_key xs)

  -- The true claims of at least the age, and the false claims of at most the age.
  abbrev pub at_least : ℕ → List (ℕ × Item) → List (ℕ × Item)
  at_least age claims = filter (λ c. is_true c.1 && leb age c.0) claims

  abbrev pub at_most : ℕ → List (ℕ × Item) → List (ℕ × Item)
  at_most age claims = filter (λ c. not (is_true c.1) && leb c.0 age) claims

  abbrev pub first_claim : Option (ℕ × Item) → Option (ℕ × Item) → Option Item
  first_claim (some claim) other = some claim.1
  first_claim none (some claim) = some claim.1
  first_claim none none = none

  unfoldable pub nearest : ℕ → List (ℕ × Item) → Option Item
  nearest age claims =
      first_claim (min_by_key (at_least age claims)) (max_by_key (at_most age claims))

  unfoldable pub numerical_claims : List (Str × Item) → Result AgeError (List (ℕ × Item))
  numerical_claims [] = ok []
  numerical_claims ((name, item) ∷ items) = do
    age ← parse_age_from_element_identifier name
    claims ← numerical_claims items
    ok ((age, item) ∷ claims)

  unfoldable pub nearest_age_attestation : Str → Map Str Item → Result AgeError (Option Item)
  nearest_age_attestation element_identifier issuer_items = do
    requested_age ← parse_age_from_element_identifier element_identifier
    claims ← numerical_claims (filter (λ e. contains_str (str "age_over") e.0) issuer_items)
    ok (nearest requested_age claims)
