-- ===== src/Provenance/Metadata.antt =====
-- src/provenance.rs: what `capture_source_metadata` reads of a source's JSON.
use mathlib.Core.List.{reverse}
use curator_rs.Prelude.{
  ℕ, Bool, true, false, ◌&&◌, ◌||◌, Option, some, none, List, [], ◌∷◌, ◌==◌, ltb, leb, is_empty,
  or_else, unwrap_or, String, if◌then◌else◌,
}
use curator_rs.Ascii.{
  codes, same, trimmed, lowered, byte_length, after_text, before_byte, after_last,
}
use curator_rs.Provenance.Names.{normalize_tag}

-- `serde_json::Value`; of null, the booleans and the numbers nothing is read.
mutual
  pub data Value : Type 0 where
    other : Value
    string : List ℕ → Value
    array : Values → Value
    object : Fields → Value

  pub data Values : Type 0 where
    no_values : Values
    value_and : Value → Values → Values

  pub data Fields : Type 0 where
    no_fields : Fields
    field_and : List ℕ → Value → Fields → Fields

-- `object.get(key)`
unfoldable pub field_of : String → Fields → Option Value
field_of key no_fields = none
field_of key (field_and k v fields) =
    let rest = field_of key fields in if same k (codes key) then some v else rest

abbrev has_field : String → Fields → Bool
has_field key no_fields = false
has_field key (field_and k v fields) = same k (codes key) || has_field key fields

-- The order of `String`: of the characters' codes.
unfoldable pub is_before : List ℕ → List ℕ → Bool
is_before s [] = false
is_before [] (d ∷ t) = true
is_before (c ∷ s) (d ∷ t) = ltb c d || (c == d && is_before s t)

-- `output.insert(tag)` of a `BTreeSet`.
unfoldable pub insert_tag : List ℕ → List (List ℕ) → List (List ℕ)
insert_tag t [] = t ∷ []
insert_tag t (u ∷ us) =
    let rest = insert_tag t us in
    if same t u then u ∷ us else if is_before t u then t ∷ u ∷ us else u ∷ rest

unfoldable pub insert_name : Option (List ℕ) → List (List ℕ) → List (List ℕ)
insert_name none tags = tags
insert_name (some t) tags = insert_tag t tags

-- The first of four keys that an object has.
abbrev key_of : Fields → Option String
key_of fields =
    if has_field "name" fields
    then some "name"
    else if has_field "tag" fields
    then some "tag"
    else if has_field "label" fields
    then some "label"
    else if has_field "title" fields
    then some "title"
    else none

abbrev is_key : Option String → List ℕ → Bool
is_key none k = false
is_key (some key) k = same k (codes key)

unfoldable mutual
  pub collect_tag_values : Value → List (List ℕ) → List (List ℕ)
  collect_tag_values other output = output
  collect_tag_values (string raw) output = insert_name (normalize_tag raw) output
  collect_tag_values (array values) output = collect_each values output
  collect_tag_values (object fields) output = collect_field (key_of fields) fields output

  pub collect_each : Values → List (List ℕ) → List (List ℕ)
  collect_each no_values output = output
  collect_each (value_and v values) output = collect_each values (collect_tag_values v output)

  pub collect_field : Option String → Fields → List (List ℕ) → List (List ℕ)
  collect_field key no_fields output = output
  collect_field key (field_and k v fields) output =
      let first = collect_tag_values v output in
      let rest = collect_field key fields output in if is_key key k then first else rest

abbrev collect_key : String → Fields → List (List ℕ) → List (List ℕ)
collect_key key fields output = collect_found (field_of key fields) output
  where
    collect_found : Option Value → List (List ℕ) → List (List ℕ)
    collect_found none output = output
    collect_found (some v) output = collect_tag_values v output

abbrev collect_keys : List String → Fields → List (List ℕ) → List (List ℕ)
collect_keys [] members output = output
collect_keys (key ∷ keys) members output =
    collect_keys keys members (collect_key key members output)

unfoldable pub extract_source_tags : Value → List (List ℕ)
extract_source_tags (object fields) =
    collect_keys ("tags" ∷ "tag" ∷ "categories" ∷ "labels" ∷ "keywords" ∷ []) fields []
extract_source_tags v = []

-- A text that is not blank, trimmed.
abbrev text_of : Option Value → Option (List ℕ)
text_of (some (string s)) = if is_empty (trimmed s) then none else some (trimmed s)
text_of v = none

abbrev first_of : List String → Fields → Option (List ℕ)
first_of [] members = none
first_of (key ∷ keys) members = or_else (text_of (field_of key members)) (first_of keys members)

unfoldable pub first_string : Value → List String → Option (List ℕ)
first_string (object fields) keys = first_of keys fields
first_string v keys = none

abbrev drop_dots : List ℕ → List ℕ
drop_dots [] = []
drop_dots (c ∷ s) = let rest = drop_dots s in if c == b'.' then rest else c ∷ s

-- The host: what follows the scheme, up to a slash, without a user before it and a port after it.
unfoldable pub provider_from_url : Option (List ℕ) → List ℕ
provider_from_url none = []
provider_from_url (some url) =
    let rest = unwrap_or (after_text (codes "://") url) url in
    let host = before_byte b':' (after_last b'@' (before_byte b'/' rest)) in
    lowered (reverse (drop_dots (reverse (drop_dots host))))

abbrev short : Option (List ℕ) → Option (List ℕ)
short none = none
short (some s) = if leb (byte_length (lowered s)) 120 then some (lowered s) else none

unfoldable pub provider_from_metadata : Value → Option (List ℕ) → List ℕ
provider_from_metadata metadata url =
    unwrap_or
      (short (first_string metadata ("extractor" ∷ "category" ∷ "site" ∷ "basecategory" ∷ [])))
      (provider_from_url url)
