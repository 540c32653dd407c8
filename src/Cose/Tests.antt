-- ===== src/Cose/Tests.antt =====
-- A header and a signature algorithm that are easy to compute with, and the theorems at inputs.
use isomdl_elevenid.Common.{ℕ, ◌≡◌, refl, true, false, [], ◌∷◌, ◌++◌, none, some, arith}
use isomdl_elevenid.Common.Order.{list_ord, nat_ord, ◌==◌}
use isomdl_elevenid.Session.{Bytes}
use isomdl_elevenid.Session.Keyed.{hmac}
use isomdl_elevenid.Session.Example.{toy_compress, toy_compress-KeepsEight}
use isomdl_elevenid.Cose.{
  AlgorithmLabel, es256, hmac_256_256, checked, success, is_mismatch, exclusive_payload,
}
use isomdl_elevenid.Cose.Sign1.{
  CoseSign1, PreparedCoseSign1, Signatures, prepare_sign1, finalize_sign1, verify_sign1,
}
use isomdl_elevenid.Cose.Mac0.{
  CoseMac0, PreparedCoseMac0, Macs, prepare_mac0, finalize_mac0, verify_mac0,
}
use isomdl_elevenid.Cose.Verified.{verify_sign1-finalize_sign1, verify_mac0-finalize_mac0}

-- A signature is the signed bytes.
abbrev toy_signatures : Signatures Bytes Bytes Bytes
toy_signatures = record {
  alg = λ protected. some (AlgorithmLabel.assigned es256);
  sig_structure_data = λ protected aad payload. protected ++ (aad ++ payload);
  signature_try_from = λ bytes. some bytes;
  algorithm = λ verifier. es256;
  verifies = λ verifier bytes signature. (verifier ++ bytes) == signature;
}

abbrev sign1 : CoseSign1 Bytes ℕ
sign1 = record { protected = 1 ∷ []; unprotected = 0; payload = none; signature = [] }

abbrev prepared_sign1 : PreparedCoseSign1 Bytes ℕ
prepared_sign1 = record {
  cose_sign1 = record { tagged = true; inner = sign1 };
  signature_payload = 1 ∷ 2 ∷ 3 ∷ [];
}

-- The payload is detached.
verify_sign1-finalize_sign1_example :
    verify_sign1 toy_signatures
      (finalize_sign1 prepared_sign1 (9 ∷ 1 ∷ 2 ∷ 3 ∷ []))
      (9 ∷ [])
      (some (3 ∷ []))
      (some (2 ∷ []))
    ≡ success
unfolding prepare_sign1 exclusive_payload is_mismatch
verify_sign1-finalize_sign1_example =
    verify_sign1-finalize_sign1 toy_signatures sign1 (some (3 ∷ [])) (some (2 ∷ [])) true
      prepared_sign1 (9 ∷ 1 ∷ 2 ∷ 3 ∷ []) (9 ∷ 1 ∷ 2 ∷ 3 ∷ []) (9 ∷ []) refl refl refl

abbrev toy_macs : Macs Bytes
toy_macs = record {
  alg = λ protected. some (AlgorithmLabel.assigned hmac_256_256);
  mac_structure_data = λ protected aad payload. protected ++ (aad ++ payload);
}

abbrev mac0 : CoseMac0 Bytes ℕ
mac0 = record { protected = 1 ∷ []; unprotected = 0; payload = some (3 ∷ []); tag = [] }

abbrev prepared_mac0 : PreparedCoseMac0 Bytes ℕ
prepared_mac0 = record {
  cose_mac0 = record { tagged = false; inner = mac0 };
  tag_payload = 1 ∷ 3 ∷ [];
}

verify_mac0-finalize_mac0_example :
    verify_mac0 toy_compress toy_macs (finalize_mac0 prepared_mac0 (7 ∷ [])) (5 ∷ []) none none
    ≡ some (checked (hmac toy_compress (5 ∷ []) (1 ∷ 3 ∷ []) == (7 ∷ [])))
unfolding prepare_mac0 exclusive_payload is_mismatch
verify_mac0-finalize_mac0_example =
    verify_mac0-finalize_mac0 toy_compress toy_compress-KeepsEight toy_macs mac0 none none false
      prepared_mac0 (5 ∷ []) (7 ∷ []) refl refl (omega arith, tt) (omega arith) (omega arith)
