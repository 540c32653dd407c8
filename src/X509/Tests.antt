-- ===== src/X509/Tests.antt =====
-- The theorems on certificates at a document signer and its authority.
use isomdl_elevenid.X509.Trusted.{IsTrusted, validate-IsTrusted}
use isomdl_elevenid.X509.Example.{toy_lib, signer, registry, signer_accepted}

validate-IsTrusted_example : IsTrusted toy_lib signer registry
validate-IsTrusted_example = validate-IsTrusted toy_lib signer registry signer_accepted
