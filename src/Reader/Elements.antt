-- ===== src/Reader/Elements.antt =====
-- src/presentation/reader.rs: the values that are reported of the core namespace.
use isomdl_elevenid.Common.{
  ok_or-eq-ok, ◌≡◌, refl, sym, ap, ◌∙◌, Bool, true, false, List, [], ◌∷◌, map, Option, none, some,
  Result, ok, err, ok-injective, >>=-eq-ok, ok_or, if◌then◌else◌,
}
use isomdl_elevenid.Common.Order.{Str, list_ord, nat_ord, ◌==◌}
use isomdl_elevenid.Common.Int.{ℤ}
use isomdl_elevenid.Common.Map.{Map, get, insert, remove, get-insert}
use isomdl_elevenid.Cbor.{Value}
use isomdl_elevenid.Issuance.Plan.{IssuerSignedItem}
use isomdl_elevenid.Reader.{Item, Document, Response, core_namespace, aamva_namespace}
use isomdl_elevenid.Reader.Json.{
  Json, ParseError, parsing_error, panicked, parse_response, members_of,
}
use isomdl_elevenid.Reader.Parse.{
  insert_parsed, collect_elements, parse_namespace, with_aamva, get_document, parse_namespaces,
}

-- The value of an item, where it is the element and becomes JSON; or what was known before.
abbrev pub newer : Bool → Result ParseError Json → Option Json → Option Json
newer true (ok v) o = some v
newer true (err e) o = o
newer false r o = o

get-nil : (id : Str) → get {V = Json} id [] ≡ none
unfolding get
get-nil id = refl

get-core : (j : Json) → get core_namespace (insert core_namespace j []) ≡ some j
unfolding get insert
get-core j = refl

get-core_aamva :
    (j k : Json)
    → get core_namespace (insert aamva_namespace k (insert core_namespace j [])) ≡ some j
unfolding get insert
get-core_aamva j k = refl

module _ (json_integer : ℤ → Option Json) where
  -- The last item of an element whose value becomes JSON.
  abbrev pub reported : Str → List (IssuerSignedItem Value) → Option Json → Option Json
  reported id [] o = o
  reported id (item ∷ items) o =
      reported id items
        (newer (item.element_identifier == id) (parse_response json_integer item.element_value) o)

  collect_elements-reported :
      (items : List (IssuerSignedItem Value)) (m m' : Map Str Json)
      → collect_elements json_integer items m ≡ ok m'
      → (id : Str) → get id m' ≡ reported id items (get id m)
  unfolding collect_elements
  collect_elements-reported [] m m' h id = ap (get id) (sym (ok-injective m m' h))
  collect_elements-reported (item ∷ items) m m' h id =
      go (parse_response json_integer item.element_value)
        (λ m₁ k. collect_elements-reported items m₁ m' k id) h
    where
      newer-insert :
          (b : Bool) (v : Json) → (if b then some v else get id m) ≡ newer b (ok v) (get id m)
      newer-insert true v = refl
      newer-insert false v = refl

      newer-err : (b : Bool) (e : ParseError) → newer b (err e) (get id m) ≡ get id m
      newer-err true e = refl
      newer-err false e = refl

      go :
          (r : Result ParseError Json)
          → ((m₁ : Map Str Json)
              → collect_elements json_integer items m₁ ≡ ok m'
              → get id m' ≡ reported id items (get id m₁))
          → insert_parsed json_integer item.element_identifier r
              (collect_elements json_integer items)
              m
            ≡ ok m'
          → get id m' ≡ reported id items (newer (item.element_identifier == id) r (get id m))
      go (ok v) rest k =
          rest (insert item.element_identifier v m) k
          ∙ ap (reported id items) (
              get-insert id item.element_identifier v m
              ∙ newer-insert (item.element_identifier == id) v)
      go (err parsing_error) rest k =
          rest m k
          ∙ ap (reported id items) (sym (newer-err (item.element_identifier == id) parsing_error))
      go (err panicked) rest k = absurd cc

  -- The items of the core namespace of the mDL document, and the object that is reported for it.
  pub record ReportsCore {Protected Namespaces : Type 0} (response : Response Protected Namespaces)
      (values : Map Str Json) : Type 0 where
    pub document : Document Protected Namespaces
    pub namespaces : Map Str (List Item)
    pub items : List Item
    pub members : Map Str Json
    pub found : get_document response ≡ ok document
    pub issued : document.issuer_namespaces ≡ some namespaces
    pub core : get core_namespace namespaces ≡ some items
    pub listed : get core_namespace values ≡ some (Json.object (members_of members))
    pub last :
        (id : Str) → get id members ≡ reported id (map (λ (item : Item). item.inner) items) none

  -- The values that are reported for the core namespace are, for each element, that of the last item of
  -- the mDL document for it whose value becomes JSON; an element without one is left out.
  pub parse_namespaces-ReportsCore :
      {Protected Namespaces : Type 0} (response : Response Protected Namespaces)
      (values : Map Str Json)
      → parse_namespaces json_integer response ≡ ok values
      → ReportsCore response values
  unfolding parse_namespaces parse_namespace
  parse_namespaces-ReportsCore response values h =
      let (document, found, h₁) = >>=-eq-ok (get_document response) _ h in
      let (namespaces, issued, h₂) = >>=-eq-ok (ok_or document.issuer_namespaces _) _ h₁ in
      let (items, core, h₃) = >>=-eq-ok (ok_or (get core_namespace namespaces) _) _ h₂ in
      let (json, parsed, h₄) = >>=-eq-ok (parse_namespace json_integer items) _ h₃ in
      let (members, collected, e) =
        >>=-eq-ok (collect_elements json_integer (map (λ (item : Item). item.inner) items) []) _
          parsed in
      record {
        document = document;
        namespaces = namespaces;
        items = items;
        members = members;
        found = found;
        issued = ok_or-eq-ok _ _ _ issued;
        core = ok_or-eq-ok _ _ _ core;
        listed =
            kept (get aamva_namespace (remove core_namespace namespaces)) json h₄
            ∙ ap some (sym (ok-injective (Json.object (members_of members)) json e));
        last = λ id.
            collect_elements-reported _ [] members collected id
            ∙ ap (reported id (map (λ (item : Item). item.inner) items)) (get-nil id);
      }
    where
      kept :
          (o : Option (List Item)) (json : Json)
          → with_aamva json_integer o (insert core_namespace json []) ≡ ok values
          → get core_namespace values ≡ some json
      kept none json k = ap (get core_namespace) (sym (ok-injective _ values k)) ∙ get-core json
      kept (some aamva) json k =
          let (j, parsed, e) = >>=-eq-ok (parse_namespace json_integer aamva) _ k in
          ap (get core_namespace) (sym (ok-injective _ values e)) ∙ get-core_aamva json j
