-- ===== src/Reader/Parse.antt =====
-- src/presentation/reader.rs: the document, the certificate chain and the elements of a response. The
-- decoding of a certificate and the JSON number of an integer are parameters.
use isomdl_elevenid.Common.{
  Bool, false, List, [], ◌∷◌, Option, none, some, map, find, Result, ok, err, ◌>>=◌, ok_or, map_err,
}
use isomdl_elevenid.Common.Order.{Str, list_ord, nat_ord, ◌==◌}
use isomdl_elevenid.Common.Int.{ℤ, pos, int_ord}
use isomdl_elevenid.Common.Map.{Map, get, remove, insert}
use isomdl_elevenid.Session.{Bytes}
use isomdl_elevenid.Cbor.{Value}
use isomdl_elevenid.X509.{Certificate}
use isomdl_elevenid.X509.Chain.{X5Chain, ChainError, from_cbor}
use isomdl_elevenid.Issuance.Plan.{IssuerSignedItem}
use isomdl_elevenid.Reader.{
  Label, int, text, Unprotected, Item, Document, Response, mdl_doc_type, core_namespace,
  aamva_namespace,
}
use isomdl_elevenid.Reader.Json.{
  Json, ParseError, parsing_error, panicked, parse_response, members_of,
}

-- `reader::Error`, as far as it is made here. A panic ends the call.
pub data ReaderError : Type 0 where
  holder_error decryption_error cbor_decoding_error : ReaderError
  device_transmission_error document_type_error no_mdl_data_transmission : ReaderError
  incorrect_namespace x5chain_missing reader_panicked : ReaderError
  x5chain_parsing : ChainError → ReaderError

abbrev pub is_x5chain : Label × Value → Bool
is_x5chain (int n, v) = n == pos 33
is_x5chain (text t, v) = false

module _ {Protected Namespaces : Type 0} where
  abbrev pub is_mdl : Document Protected Namespaces → Bool
  is_mdl doc = doc.doc_type == mdl_doc_type

  unfoldable pub get_document :
      Response Protected Namespaces → Result ReaderError (Document Protected Namespaces)
  get_document device_response = do
    documents ← ok_or device_response.documents device_transmission_error
    ok_or (find is_mdl documents) document_type_error

abbrev pub chain_of : (Bytes → Option Certificate) → Label × Value → Result ReaderError X5Chain
chain_of from_der (label, v) = map_err x5chain_parsing (from_cbor from_der v)

unfoldable pub find_x5chain :
    (Bytes → Option Certificate) → Unprotected → Result ReaderError X5Chain
find_x5chain from_der rest = do
  header ← ok_or (find is_x5chain rest) x5chain_missing
  chain_of from_der header

module _ (json_integer : ℤ → Option Json) where
  -- The body of the `for_each`: an item whose value cannot be parsed is left out.
  abbrev pub insert_parsed :
      Str
      → Result ParseError Json
      → (Map Str Json → Result ReaderError (Map Str Json))
      → Map Str Json
      → Result ReaderError (Map Str Json)
  insert_parsed identifier (ok val) rest m = rest (insert identifier val m)
  insert_parsed identifier (err parsing_error) rest m = rest m
  insert_parsed identifier (err panicked) rest m = err reader_panicked

  unfoldable pub collect_elements :
      List (IssuerSignedItem Value) → Map Str Json → Result ReaderError (Map Str Json)
  collect_elements [] m = ok m
  collect_elements (item ∷ items) m =
      insert_parsed item.element_identifier (parse_response json_integer item.element_value)
        (collect_elements items) m

  unfoldable pub parse_namespace : List Item → Result ReaderError Json
  parse_namespace items =
      collect_elements (map (λ (item : Item). item.inner) items) [] >>= λ (m : Map Str Json).
      ok (Json.object (members_of m))

  abbrev pub with_aamva : Option (List Item) → Map Str Json → Result ReaderError (Map Str Json)
  with_aamva none parsed = ok parsed
  with_aamva (some items) parsed =
      parse_namespace items >>= λ (aamva : Json). ok (insert aamva_namespace aamva parsed)

  unfoldable pub parse_namespaces :
      {Protected Namespaces : Type 0}
      → Response Protected Namespaces
      → Result ReaderError (Map Str Json)
  unfolding get_document
  parse_namespaces device_response = do
    document ← get_document device_response
    namespaces ← ok_or document.issuer_namespaces no_mdl_data_transmission
    items ← ok_or (get core_namespace namespaces) incorrect_namespace
    core ← parse_namespace items
    with_aamva (get aamva_namespace (remove core_namespace namespaces))
        (insert core_namespace core [])

  unfoldable pub parse :
      {Protected Namespaces : Type 0}
      → (Bytes → Option Certificate)
      → Response Protected Namespaces
      → Result ReaderError (Document Protected Namespaces × X5Chain × Map Str Json)
  unfolding get_document find_x5chain parse_namespaces
  parse from_der device_response = do
    document ← get_document device_response
    x5chain ← find_x5chain from_der document.issuer_auth.inner.unprotected
    parsed_response ← parse_namespaces device_response
    ok (document, x5chain, parsed_response)
