-- ===== src/Reader/Json.antt =====
-- src/presentation/reader.rs: element values in CBOR become JSON. The JSON number of an integer is a
-- parameter: it is `none` where `json!` panics, which serde_json documents for a value that it cannot
-- represent. A JSON object is an ordered map.
use Prim.Native.Nat.{Ordering}
use isomdl_elevenid.Common.{Bool, [], ◌∷◌, Option, Result, ok, err, ◌>>=◌, ok_or}
use isomdl_elevenid.Common.Order.{Str, list_ord, nat_ord, Ord}
use isomdl_elevenid.Common.Int.{ℤ, pos}
use isomdl_elevenid.Common.Map.{Map}
use isomdl_elevenid.Session.{Bytes}
use isomdl_elevenid.Cbor.{Value, Values, no_values, value, Entries, no_entries, entry}

-- `serde_json::Value`, as far as it is built here.
mutual
  pub data Json : Type 0 where
    string : Str → Json
    bool : Bool → Json
    number : ℤ → Json
    array : Jsons → Json
    object : Members → Json

  pub data Jsons : Type 0 where
    no_jsons : Jsons
    json : Json → Jsons → Jsons

  pub data Members : Type 0 where
    no_members : Members
    member : Str → Json → Members → Members

-- `serde_json::Map::insert`
unfoldable pub insert_member : Str → Json → Members → Members
insert_member k v no_members = member k v no_members
insert_member k v (member j w m) = elim (Ord.cmp str_ord k j) [
  | Ordering.lt ↦ member k v (member j w m)
  | Ordering.eq ↦ member k v m
  | Ordering.gt ↦ member j w (insert_member k v m)
]
  where
    str_ord : Ord Str
    str_ord = list_ord

-- `serde_json::to_value` of a map.
unfoldable pub members_of : Map Str Json → Members
members_of [] = no_members
members_of ((k, v) ∷ m) = member k v (members_of m)

-- `json!` of a byte string: an array of numbers.
unfoldable pub json_bytes : Bytes → Jsons
json_bytes [] = no_jsons
json_bytes (b ∷ bs) = json (Json.number (pos b)) (json_bytes bs)

pub data ParseError : Type 0 where
  parsing_error panicked : ParseError

-- `Value::Tag`: only a text may stand under a tag.
unfoldable pub parse_tagged : Value → Result ParseError Json
parse_tagged (Value.text d) = ok (Json.string d)
parse_tagged other = err parsing_error

-- The entry of a map: one whose key is no text is skipped, its value unread.
unfoldable pub parse_entry :
    Value
    → Result ParseError Json
    → (Members → Result ParseError Members)
    → Members
    → Result ParseError Members
parse_entry (Value.text k) parsed rest m = do v ← parsed; rest (insert_member k v m)
parse_entry other parsed rest m = rest m

module _ (json_integer : ℤ → Option Json) where
  unfoldable mutual
    unfolding parse_tagged parse_entry json_bytes

    pub parse_response : Value → Result ParseError Json
    parse_response (Value.text s) = ok (Json.string s)
    parse_response (Value.tag t v) = parse_tagged v
    parse_response (Value.array vs) = parse_array vs >>= λ (js : Jsons). ok (Json.array js)
    parse_response (Value.dictionary es) =
        parse_map es no_members >>= λ (m : Members). ok (Json.object m)
    parse_response (Value.bytes b) = ok (Json.array (json_bytes b))
    parse_response (Value.bool b) = ok (Json.bool b)
    parse_response (Value.integer i) = ok_or (json_integer i) panicked
    parse_response (Value.float f) = err parsing_error
    parse_response Value.null = err parsing_error

    pub parse_array : Values → Result ParseError Jsons
    parse_array no_values = ok no_jsons
    parse_array (value v vs) =
        parse_response v >>= λ (j : Json). parse_array vs >>= λ (js : Jsons). ok (json j js)

    pub parse_map : Entries → Members → Result ParseError Members
    parse_map no_entries m = ok m
    parse_map (entry k v es) m = parse_entry k (parse_response v) (parse_map es) m
