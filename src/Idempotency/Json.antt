-- ===== src/Idempotency/Json.antt =====
-- The values that JSON.parse yields, and `canonicalize` of services/idempotency.service.ts.
use one_marketplace.Base.{
  ℕ, ◌+◌, ◌/◌, ◌%◌, Bool, true, false, ◌&&◌, ◌||◌, List, [], ◌∷◌, ◌++◌, map, ltb, leb, ◌==◌,
  if◌then◌else◌,
}
use one_marketplace.Base.Text.{Text, codes, text_eq}
use one_marketplace.Base.Texts.{sort_texts, join}

-- A number is the text that JSON.stringify gives for it. The fields of an object are in the order of
-- its creation, each key once.
mutual
  pub data Json : Type 0 where
    null_value : Json
    boolean : Bool → Json
    numeral : Text → Json
    string : Text → Json
    array : Items → Json
    object : Fields → Json

  pub data Items : Type 0 where
    no_items : Items
    item : Json → Items → Items

  pub data Fields : Type 0 where
    no_fields : Fields
    field : Text → Json → Fields → Fields

-- A lower-case hexadecimal digit.
unfoldable pub hex : ℕ → ℕ
hex n = if ltb n 10 then 48 + n else 87 + n

unfoldable pub unicode_escape : ℕ → Text
unicode_escape c =
    92 ∷ 117 ∷ hex (c / 4096 % 16) ∷ hex (c / 256 % 16) ∷ hex (c / 16 % 16) ∷ hex (c % 16) ∷ []

-- One code unit in a quoted string, other than a surrogate.
unfoldable pub quote_unit : ℕ → Text
quote_unit c =
    if c == 34 || c == 92
    then 92 ∷ c ∷ []
    else if c == 8
    then 92 ∷ 98 ∷ []
    else if c == 9
    then 92 ∷ 116 ∷ []
    else if c == 10
    then 92 ∷ 110 ∷ []
    else if c == 12
    then 92 ∷ 102 ∷ []
    else if c == 13
    then 92 ∷ 114 ∷ []
    else if ltb c 32
    then unicode_escape c
    else c ∷ []

unfoldable pub is_high : ℕ → Bool
is_high c = leb 55296 c && leb c 56319

unfoldable pub is_low : ℕ → Bool
is_low c = leb 56320 c && leb c 57343

-- The units between the quotes: a surrogate without its partner is escaped.
unfoldable pub quote_units : Text → Text
quote_units [] = []
quote_units (c ∷ []) = if is_high c || is_low c then unicode_escape c else quote_unit c
quote_units (c ∷ d ∷ text) =
    let after_pair = quote_units text in
    let after_one = quote_units (d ∷ text) in
    if is_high c && is_low d
    then c ∷ d ∷ after_pair
    else (if is_high c || is_low c then unicode_escape c else quote_unit c) ++ after_one

-- JSON.stringify of a string
unfoldable pub quote : Text → Text
quote text = 34 ∷ (quote_units text ++ 34 ∷ [])

-- object[key], of the fields with their canonical texts
unfoldable pub value_at : Text → List (Text × Text) → Text
value_at key [] = []
value_at key ((name, text) ∷ entries) =
    let rest = value_at key entries in if text_eq name key then text else rest

unfoldable pub key_list : List (Text × Text) → List Text
key_list [] = []
key_list ((name, text) ∷ entries) = name ∷ key_list entries

-- `${JSON.stringify(key)}:${canonicalize(object[key])}`
unfoldable pub entry_text : (Text → Text) → Text → Text
entry_text value key = quote key ++ (codes ":" ++ value key)

unfoldable pub object_text : List (Text × Text) → Text
object_text entries =
    codes "{"
    ++ (join (map (entry_text (λ key. value_at key entries)) (sort_texts (key_list entries)))
        ++ codes "}")

unfoldable mutual
  pub canonicalize : Json → Text
  canonicalize null_value = codes "null"
  canonicalize (boolean true) = codes "true"
  canonicalize (boolean false) = codes "false"
  canonicalize (numeral text) = text
  canonicalize (string text) = quote text
  canonicalize (array items) = codes "[" ++ (join (canonicalize_items items) ++ codes "]")
  canonicalize (object fields) = object_text (canonicalize_fields fields)

  pub canonicalize_items : Items → List Text
  canonicalize_items no_items = []
  canonicalize_items (item value items) = canonicalize value ∷ canonicalize_items items

  pub canonicalize_fields : Fields → List (Text × Text)
  canonicalize_fields no_fields = []
  canonicalize_fields (field name value fields) =
      (name, canonicalize value) ∷ canonicalize_fields fields
