-- ===== src/Reader/Parsable.antt =====
-- src/presentation/reader.rs: which element values become JSON.
use mathlib.Core.Logic.{◌↔◌}
use isomdl_elevenid.Common.{◌≡◌, refl, Option, none, some, Result, ok, ok_or, >>=-eq-ok}
use isomdl_elevenid.Common.Int.{ℤ}
use isomdl_elevenid.Cbor.{Value, Values, no_values, value, Entries, no_entries, entry}
use isomdl_elevenid.Reader.Json.{
  Json, Jsons, json, Members, no_members, insert_member, ParseError, panicked, parse_tagged,
  parse_entry, parse_response, parse_array, parse_map,
}

unfoldable pub IsText : Value → Type 0
IsText (Value.text d) = Unit
IsText (Value.integer i) = ⊥
IsText (Value.bytes b) = ⊥
IsText (Value.float f) = ⊥
IsText (Value.bool b) = ⊥
IsText Value.null = ⊥
IsText (Value.tag t v) = ⊥
IsText (Value.array vs) = ⊥
IsText (Value.dictionary es) = ⊥

-- What is asked of the value of an entry: nothing, where the key is no text.
unfoldable pub IfText : Value → Type 0 → Type 0
IfText (Value.text d) P = P
IfText (Value.integer i) P = Unit
IfText (Value.bytes b) P = Unit
IfText (Value.float f) P = Unit
IfText (Value.bool b) P = Unit
IfText Value.null P = Unit
IfText (Value.tag t v) P = Unit
IfText (Value.array vs) P = Unit
IfText (Value.dictionary es) P = Unit

module _ (json_integer : ℤ → Option Json) where
  -- No float, no null, only texts under tags, and integers that JSON can represent; also inside arrays
  -- and under the text keys of maps.
  unfoldable mutual
    unfolding IsText IfText

    pub IsParsable : Value → Type 0
    IsParsable (Value.text s) = Unit
    IsParsable (Value.tag t v) = IsText v
    IsParsable (Value.array vs) = AreParsable vs
    IsParsable (Value.dictionary es) = HasParsable es
    IsParsable (Value.bytes b) = Unit
    IsParsable (Value.bool b) = Unit
    IsParsable (Value.integer i) = (j : Json) × (json_integer i ≡ some j)
    IsParsable (Value.float f) = ⊥
    IsParsable Value.null = ⊥

    pub AreParsable : Values → Type 0
    AreParsable no_values = Unit
    AreParsable (value v vs) = IsParsable v × AreParsable vs

    pub HasParsable : Entries → Type 0
    HasParsable no_entries = Unit
    HasParsable (entry k v es) = IfText k (IsParsable v) × HasParsable es

  parse_tagged-ok : (v : Value) → IsText v → (j : Json) × (parse_tagged v ≡ ok j)
  unfolding IsText parse_tagged
  parse_tagged-ok (Value.text d) h = (Json.string d, refl)
  parse_tagged-ok (Value.integer i) h = absurd h
  parse_tagged-ok (Value.bytes b) h = absurd h
  parse_tagged-ok (Value.float f) h = absurd h
  parse_tagged-ok (Value.bool b) h = absurd h
  parse_tagged-ok Value.null h = absurd h
  parse_tagged-ok (Value.tag t v) h = absurd h
  parse_tagged-ok (Value.array vs) h = absurd h
  parse_tagged-ok (Value.dictionary es) h = absurd h

  IsText-parse_tagged : (v : Value) (j : Json) → parse_tagged v ≡ ok j → IsText v
  unfolding IsText parse_tagged
  IsText-parse_tagged (Value.text d) j h = tt
  IsText-parse_tagged (Value.integer i) j h = absurd cc
  IsText-parse_tagged (Value.bytes b) j h = absurd cc
  IsText-parse_tagged (Value.float f) j h = absurd cc
  IsText-parse_tagged (Value.bool b) j h = absurd cc
  IsText-parse_tagged Value.null j h = absurd cc
  IsText-parse_tagged (Value.tag t v) j h = absurd cc
  IsText-parse_tagged (Value.array vs) j h = absurd cc
  IsText-parse_tagged (Value.dictionary es) j h = absurd cc

  ok_or-ok : (o : Option Json) (j : Json) → ok_or o panicked ≡ ok j → (j : Json) × (o ≡ some j)
  ok_or-ok none j h = absurd cc
  ok_or-ok (some a) j h = (a, refl)

  -- One entry, with what is known of its value and of the entries behind it.
  entry-ok :
      (k : Value) (P : Type 0) (parsed : Result ParseError Json)
      (rest : Members → Result ParseError Members)
      → IfText k P
      → (P → (j : Json) × (parsed ≡ ok j))
      → ((m : Members) → (m' : Members) × (rest m ≡ ok m'))
      → (m : Members) → (m' : Members) × (parse_entry k parsed rest m ≡ ok m')
  unfolding IfText parse_entry
  entry-ok (Value.text d) P parsed rest h f g m =
      let (j, e) = f h in let (m', e') = g (insert_member d j m) in (m', rw e e')
  entry-ok (Value.integer i) P parsed rest h f g m = g m
  entry-ok (Value.bytes b) P parsed rest h f g m = g m
  entry-ok (Value.float x) P parsed rest h f g m = g m
  entry-ok (Value.bool b) P parsed rest h f g m = g m
  entry-ok Value.null P parsed rest h f g m = g m
  entry-ok (Value.tag t v) P parsed rest h f g m = g m
  entry-ok (Value.array vs) P parsed rest h f g m = g m
  entry-ok (Value.dictionary es) P parsed rest h f g m = g m

  entry-IfText :
      (k : Value) (P Q : Type 0) (parsed : Result ParseError Json)
      (rest : Members → Result ParseError Members)
      → ((j : Json) → parsed ≡ ok j → P)
      → ((m m' : Members) → rest m ≡ ok m' → Q)
      → (m m' : Members) → parse_entry k parsed rest m ≡ ok m'
      → IfText k P × Q
  unfolding IfText parse_entry
  entry-IfText (Value.text d) P Q parsed rest f g m m' h =
      let (j, e, h') = >>=-eq-ok parsed _ h in (f j e, g (insert_member d j m) m' h')
  entry-IfText (Value.integer i) P Q parsed rest f g m m' h = (tt, g m m' h)
  entry-IfText (Value.bytes b) P Q parsed rest f g m m' h = (tt, g m m' h)
  entry-IfText (Value.float x) P Q parsed rest f g m m' h = (tt, g m m' h)
  entry-IfText (Value.bool b) P Q parsed rest f g m m' h = (tt, g m m' h)
  entry-IfText Value.null P Q parsed rest f g m m' h = (tt, g m m' h)
  entry-IfText (Value.tag t v) P Q parsed rest f g m m' h = (tt, g m m' h)
  entry-IfText (Value.array vs) P Q parsed rest f g m m' h = (tt, g m m' h)
  entry-IfText (Value.dictionary es) P Q parsed rest f g m m' h = (tt, g m m' h)

  mutual
    unfolding IsParsable AreParsable HasParsable parse_response parse_array parse_map

    parses : (v : Value) → IsParsable v → (j : Json) × (parse_response json_integer v ≡ ok j)
    parses (Value.text s) h = (Json.string s, refl)
    parses (Value.tag t v) h = parse_tagged-ok v h
    parses (Value.array vs) h = let (js, e) = parses_array vs h in (Json.array js, rw e)
    parses (Value.dictionary es) h =
        let (m, e) = parses_map es h no_members in (Json.object m, rw e)
    parses (Value.bytes b) h = (_, refl)
    parses (Value.bool b) h = (Json.bool b, refl)
    parses (Value.integer i) (j, e) = (j, rw e)
    parses (Value.float f) h = absurd h
    parses Value.null h = absurd h

    parses_array :
        (vs : Values) → AreParsable vs → (js : Jsons) × (parse_array json_integer vs ≡ ok js)
    parses_array no_values h = (_, refl)
    parses_array (value v vs) (h, hs) =
        let (j, e) = parses v h in let (js, e') = parses_array vs hs in (json j js, rw (e, e'))

    parses_map :
        (es : Entries)
        → HasParsable es
        → (m : Members) → (m' : Members) × (parse_map json_integer es m ≡ ok m')
    parses_map no_entries h m = (m, refl)
    parses_map (entry k v es) (h, hs) m =
        entry-ok k (IsParsable v) (parse_response json_integer v) (parse_map json_integer es) h
          (parses v) (parses_map es hs) m

  mutual
    unfolding IsParsable AreParsable HasParsable parse_response parse_array parse_map

    parsable : (v : Value) (j : Json) → parse_response json_integer v ≡ ok j → IsParsable v
    parsable (Value.text s) j h = tt
    parsable (Value.tag t v) j h = IsText-parse_tagged v j h
    parsable (Value.array vs) j h =
        let (js, e, h') = >>=-eq-ok (parse_array json_integer vs) _ h in parsable_array vs js e
    parsable (Value.dictionary es) j h =
        let (m, e, h') = >>=-eq-ok (parse_map json_integer es no_members) _ h in
        parsable_map es no_members m e
    parsable (Value.bytes b) j h = tt
    parsable (Value.bool b) j h = tt
    parsable (Value.integer i) j h = ok_or-ok (json_integer i) j h
    parsable (Value.float f) j h = absurd cc
    parsable Value.null j h = absurd cc

    parsable_array :
        (vs : Values) (js : Jsons) → parse_array json_integer vs ≡ ok js → AreParsable vs
    parsable_array no_values js h = tt
    parsable_array (value v vs) js h =
        let (j, e, h₁) = >>=-eq-ok (parse_response json_integer v) _ h in
        let (js', e', h₂) = >>=-eq-ok (parse_array json_integer vs) _ h₁ in
        (parsable v j e, parsable_array vs js' e')

    parsable_map :
        (es : Entries) (m m' : Members) → parse_map json_integer es m ≡ ok m' → HasParsable es
    parsable_map no_entries m m' h = tt
    parsable_map (entry k v es) m m' h =
        entry-IfText k (IsParsable v) (HasParsable es) (parse_response json_integer v)
          (parse_map json_integer es) (parsable v) (parsable_map es) m m' h

  -- An element value becomes JSON exactly where it holds no float, no null, no tag but over a text, and
  -- no integer that JSON cannot represent, in arrays and under text keys too.
  pub parse_response-IsParsable :
      (v : Value) → IsParsable v ↔ ((j : Json) × (parse_response json_integer v ≡ ok j))
  parse_response-IsParsable v =
      (parses v, λ (p : (j : Json) × (parse_response json_integer v ≡ ok j)). parsable v p.0 p.1)
