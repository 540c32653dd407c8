-- ===== src/Reader/Header.antt =====
-- src/presentation/authentication/mdoc.rs: the header that is written before the raw payload can be read
-- back.
use isomdl_elevenid.Common.{
  ℕ, ◌+◌, ◌*◌, ◌/◌, ◌%◌, ◌^◌, ◌<◌, ◌≡◌, [], ◌∷◌, ◌++◌, Option, none, some, ltb, ◌||◌, ◌-◌, zero,
  suc, if◌then◌else◌, arith,
}
use isomdl_elevenid.Session.{Bytes}
use isomdl_elevenid.Reader.Authentication.{byte_string_header}

-- The head of a definite-length byte string, as RFC 8949 has it: the length and what follows.
abbrev read_be : ℕ → ℕ → Bytes → Option (ℕ × Bytes)
read_be zero acc rest = some (acc, rest)
read_be (suc k) acc [] = none
read_be (suc k) acc (b ∷ bs) = read_be k (acc * 256 + b) bs

abbrev read_additional : ℕ → Bytes → Option (ℕ × Bytes)
read_additional info rest =
    if ltb info 24
    then some (info, rest)
    else if ltb info 28
    then read_be (2 ^ (info - 24)) 0 rest
    else none

abbrev pub read_header : Bytes → Option (ℕ × Bytes)
read_header [] = none
read_header (b ∷ bs) = if ltb b 64 || ltb 95 b then none else read_additional (b - 64) bs

value32 :
    (n : ℕ)
    → n < 2 ^ 32
    → ((n / 2 ^ 24 % 256 * 256 + n / 2 ^ 16 % 256) * 256 + n / 2 ^ 8 % 256) * 256 + n % 256 ≡ n
value32 n h = omega arith

-- The header of a byte string of fewer than 2^64 bytes is read back, by the rules of RFC 8949, as its
-- length, and what follows it is left.
pub read_header-byte_string_header :
    (n : ℕ) (rest : Bytes)
    → n < 2 ^ 64
    → read_header (byte_string_header n ++ rest) ≡ some (n, rest)
unfolding byte_string_header
read_header-byte_string_header n rest h = ground arith
