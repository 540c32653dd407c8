-- ===== src/Session/Example.antt =====
-- A compression for the theorems on digests at inputs.
use isomdl_elevenid.Common.{ℕ, ◌*◌, ◌+◌, ◌%◌, ◌^◌, length, length-map, map, arith}
use isomdl_elevenid.Session.{Bytes}
use isomdl_elevenid.Session.Sha256.{Words}
use isomdl_elevenid.Session.Keyed.{KeepsEight}

-- A compression that only counts: its state keeps eight words.
abbrev pub toy_compress : Words → Bytes → Words
toy_compress words block = map (λ word. (word * 3 + length block) % 2 ^ 32) words

pub toy_compress-KeepsEight : KeepsEight toy_compress
toy_compress-KeepsEight words block h =
    omega (arith, h, length-map (λ (word : ℕ). (word * 3 + length block) % 2 ^ 32) words)
