-- ===== src/X509/Chain.antt =====
-- src/definitions/x509/x5chain.rs: a chain of certificates with their DER encodings. The decoding of a
-- certificate is a parameter.
use mathlib.Core.List.{append-nil, append_assoc}
use isomdl_elevenid.Common.{
  ◌≡◌, ap, ◌∙◌, List, [], ◌∷◌, ◌++◌, Option, some, All, Result, ok, err, ◌>>=◌, ok_or,
}
use isomdl_elevenid.Session.{Bytes}
use isomdl_elevenid.Cbor.{Value, Values, no_values, value}
use isomdl_elevenid.X509.{Certificate}

pub record CertificateWithDer : Type 0 where
  pub inner : Certificate
  pub der : Bytes

-- A collection that is not empty: the end-entity certificate and the others.
pub record X5Chain : Type 0 where
  pub end_entity : CertificateWithDer
  pub others : List CertificateWithDer

pub data ChainError : Type 0 where
  undecodable_certificate unexpected_value no_certificate : ChainError

unfoldable pub der_values : List CertificateWithDer → Values
der_values [] = no_values
der_values (cert ∷ certs) = value (Value.bytes cert.der) (der_values certs)

abbrev pub into_cbor_with : CertificateWithDer → List CertificateWithDer → Value
into_cbor_with cert [] = Value.bytes cert.der
into_cbor_with cert (other ∷ others) = Value.array (der_values (cert ∷ other ∷ others))

unfoldable pub into_cbor : X5Chain → Value
unfolding der_values
into_cbor chain = into_cbor_with chain.end_entity chain.others

-- `Builder::build`
unfoldable pub build : List CertificateWithDer → Result ChainError X5Chain
build [] = err no_certificate
build (cert ∷ certs) = ok (record { end_entity = cert; others = certs })

module _ (from_der : Bytes → Option Certificate) where
  unfoldable pub with_der_certificate :
      List CertificateWithDer → Bytes → Result ChainError (List CertificateWithDer)
  with_der_certificate certs der = do
    inner ← ok_or (from_der der) undecodable_certificate
    ok (certs ++ (record { inner = inner; der = der } ∷ []))

  -- The `try_fold` over the array.
  unfoldable pub with_values :
      List CertificateWithDer → Values → Result ChainError (List CertificateWithDer)
  unfolding with_der_certificate
  with_values certs no_values = ok certs
  with_values certs (value (Value.bytes der) vs) =
      with_der_certificate certs der >>= λ (certs' : List CertificateWithDer). with_values certs' vs
  with_values certs (value other vs) = err unexpected_value

  unfoldable pub from_cbor : Value → Result ChainError X5Chain
  unfolding with_values with_der_certificate build
  from_cbor (Value.bytes der) = do certs ← with_der_certificate [] der; build certs
  from_cbor (Value.array vs) = do certs ← with_values [] vs; build certs
  from_cbor other = err unexpected_value

  -- Each certificate is the one that its encoding decodes to.
  abbrev pub IsDecoded : CertificateWithDer → Type 0
  IsDecoded cert = from_der cert.der ≡ some cert.inner

  with_values-der_values :
      (certs cs : List CertificateWithDer)
      → All IsDecoded cs
      → with_values certs (der_values cs) ≡ ok (certs ++ cs)
  unfolding with_values der_values with_der_certificate
  with_values-der_values certs [] h = rw (append-nil certs)
  with_values-der_values certs (c ∷ cs) (h, hs) =
      rw h
        (with_values-der_values (certs ++ (c ∷ [])) cs hs ∙ ap ok (append_assoc certs (c ∷ []) cs))

  -- A chain that is encoded as CBOR, its certificates in DER, is decoded again.
  pub from_cbor-into_cbor :
      (chain : X5Chain)
      → All IsDecoded (chain.end_entity ∷ chain.others)
      → from_cbor (into_cbor chain) ≡ ok chain
  unfolding from_cbor into_cbor build with_der_certificate
  from_cbor-into_cbor chain h = go chain.end_entity chain.others h
    where
      go :
          (c : CertificateWithDer) (cs : List CertificateWithDer)
          → All IsDecoded (c ∷ cs)
          → from_cbor (into_cbor (record { end_entity = c; others = cs }))
            ≡ ok (record { end_entity = c; others = cs })
      go c [] (h, hs) = rw h
      go c (d ∷ ds) hs = rw (with_values-der_values [] (c ∷ d ∷ ds) hs)
