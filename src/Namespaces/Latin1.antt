-- ===== src/Namespaces/Latin1.antt =====
-- src/definitions/namespaces/latin1.rs: the strings of ISO/IEC 8859-1. A character is its code point.
use isomdl_elevenid.Common.{
  ℕ, suc, ◌+◌, ◌<◌, ◌≤◌, ◌≡◌, ◌↔◌, ◌⊎◌, inl, inr, refl, ap, Bool, true, false, ◌&&◌, ◌||◌,
  Bool-cases, ltb, leb, List, [], ◌∷◌, length, All, Result, ok, err, if◌then◌else◌, arith,
}

abbrev pub Chars : Type 0
Chars = List ℕ

pub data Latin1Error : Type 0 where
  non_latin_1 : Chars → Latin1Error
  too_long : ℕ → Latin1Error

abbrev pub is_lower_latin : ℕ → Bool
is_lower_latin c = leb 0x20 c && ltb c 0x7f

abbrev pub is_upper_latin : ℕ → Bool
is_upper_latin c = leb 0xa0 c && ltb c 0x100

abbrev pub is_latin : ℕ → Bool
is_latin c = is_lower_latin c || is_upper_latin c

-- `char::len_utf8`, and `len` of a string: the bytes of its encoding.
abbrev pub len_utf8 : ℕ → ℕ
len_utf8 c = if ltb c 0x80 then 1 else if ltb c 0x800 then 2 else if ltb c 0x10000 then 3 else 4

unfoldable pub len : Chars → ℕ
len [] = 0
len (c ∷ cs) = len_utf8 c + len cs

-- `filter(|c| !is_latin(c))`
unfoldable pub non_latin : Chars → Chars
non_latin [] = []
non_latin (c ∷ cs) = let rest = non_latin cs in if is_latin c then rest else c ∷ rest

abbrev pub parsed : Chars → Chars → Result Latin1Error Chars
parsed s [] = ok s
parsed s (c ∷ cs) = err (non_latin_1 (c ∷ cs))

unfoldable pub from_str : Chars → Result Latin1Error Chars
from_str s = if ltb 150 (len s) then err (too_long (len s)) else parsed s (non_latin s)

-- The characters of the alphabet: printable ASCII, and the upper half.
abbrev pub IsLatin : ℕ → Type 0
IsLatin c = (0x20 ≤ c) × (c < 0x7f) ⊎ (0xa0 ≤ c) × (c < 0x100)

-- The number of characters of the upper half.
abbrev pub uppers : Chars → ℕ
uppers [] = 0
uppers (c ∷ cs) = if ltb c 0x80 then uppers cs else suc (uppers cs)

is_latin-IsLatin : (c : ℕ) → is_latin c ≡ true → IsLatin c
is_latin-IsLatin c h = elim (Bool-cases (is_lower_latin c)) [
  | inl lower ↦ inl (ground arith, ground arith)
  | inr other ↦ inr (ground arith, ground arith)
]

IsLatin-is_latin : (c : ℕ) → IsLatin c → is_latin c ≡ true
IsLatin-is_latin c (inl h) = ground arith
IsLatin-is_latin c (inr h) = ground arith

non_latin-All : (s : Chars) → non_latin s ≡ [] → All IsLatin s
unfolding non_latin
non_latin-All [] h = tt
non_latin-All (c ∷ cs) h = elim (Bool-cases (is_latin c)) [
  | inl e ↦ (is_latin-IsLatin c e, non_latin-All cs (rw e at h))
  | inr e ↦ absurd (cc (rw e at h))
]

All-non_latin : (s : Chars) → All IsLatin s → non_latin s ≡ []
unfolding non_latin
All-non_latin [] h = refl
All-non_latin (c ∷ cs) (h, hs) = rw (IsLatin-is_latin c h) (All-non_latin cs hs)

len-uppers : (s : Chars) → All IsLatin s → len s ≡ length s + uppers s
unfolding len
len-uppers [] h = refl
len-uppers (c ∷ cs) (inl h, hs) = ground (arith, len-uppers cs hs)
len-uppers (c ∷ cs) (inr h, hs) = ground (arith, len-uppers cs hs)

-- A string is accepted exactly where all its characters are in the alphabet, and the characters
-- together with those of the upper half, which take two bytes, number at most 150; it is kept as it is.
pub from_str-IsLatin :
    (s t : Chars) → (from_str s ≡ ok t) ↔ ((s ≡ t) × (length s + uppers s ≤ 150) × All IsLatin s)
unfolding from_str
from_str-IsLatin s t = (accepted, kept)
  where
    within :
        (o : Chars)
        → non_latin s ≡ o
        → len s ≤ 150
        → parsed s o ≡ ok t
        → (s ≡ t) × (length s + uppers s ≤ 150) × All IsLatin s
    within [] e fits h =
        let latin = non_latin-All s e in (cc, omega (arith, len-uppers s latin), latin)
    within (c ∷ cs) e fits h = absurd cc

    accepted : from_str s ≡ ok t → (s ≡ t) × (length s + uppers s ≤ 150) × All IsLatin s
    accepted h = elim (Bool-cases (ltb 150 (len s))) [
      | inl long ↦ absurd (cc (rw long at h))
      | inr short ↦ within (non_latin s) refl (ground arith) (rw short at h)
    ]

    kept : (s ≡ t) × (length s + uppers s ≤ 150) × All IsLatin s → from_str s ≡ ok t
    kept (same, fits, latin) =
        let short : ltb 150 (len s) ≡ false = rw (len-uppers s latin) (ground arith) in
        rw (short, All-non_latin s latin) (ap ok same)
