-- ===== src/Namespaces/Tests.antt =====
-- The theorem on Latin1 at an input with a character of the upper half.
use isomdl_elevenid.Common.{◌+◌, ◌≤◌, ◌≡◌, ◌↔◌, [], ◌∷◌, All, ok, length}
use isomdl_elevenid.Namespaces.Latin1.{Chars, IsLatin, uppers, from_str, from_str-IsLatin}

abbrev zoe : Chars
zoe = 0x5a ∷ 0x6f ∷ 0xeb ∷ []

from_str-IsLatin_example :
    (from_str zoe ≡ ok zoe) ↔ ((zoe ≡ zoe) × (length zoe + uppers zoe ≤ 150) × All IsLatin zoe)
from_str-IsLatin_example = from_str-IsLatin zoe zoe
