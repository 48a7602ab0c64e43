-- ===== src/Clearing/Ontology/Topics.antt =====
-- What one value breaks of a schema, keyword by keyword (ontology.py, `_type_ok` and `_check`).
use ammba_uoc.Prelude.{
  ℕ, zero, suc, String, Bool, true, false, not, ◌&&◌, ◌||◌, Option, none, some, List, [], ◌∷◌, ◌++◌,
  any, length, ltb, ◌==◌, string_eq, bytes_eq, nat_eq, if◌then◌else◌,
}
use ammba_uoc.Arith.{Arith}
use ammba_uoc.Wire.Json.{Json, Fields, null, bool, int, float, string, array, object, has, keys}
use ammba_uoc.Clearing.Ontology.Schemas.{
  Declared, one, many, Keywords, Schema, schema, Properties, keywords, find_property, is_declared,
  Texts, Topic, not_in_enum, bad_uuid, bad_datetime, no_match, too_short, too_long, too_small,
  missing, additional,
}

abbrev is_hex : ℕ → Bool
is_hex c =
    (not (ltb c b'0') && not (ltb b'9' c))
    || (not (ltb c b'A') && not (ltb b'F' c))
    || (not (ltb c b'a') && not (ltb b'f' c))

-- What follows `n` hexadecimal digits, and what follows a dash.
abbrev hex_run : ℕ → List ℕ → Option (List ℕ)
hex_run zero cs = some cs
hex_run (suc n) [] = none
hex_run (suc n) (c ∷ cs) = if is_hex c then hex_run n cs else none

abbrev dash_then_hex : ℕ → Option (List ℕ) → Option (List ℕ)
dash_then_hex n (some (c ∷ cs)) = if c == b'-' then hex_run n cs else none
dash_then_hex n _ = none

-- `$` matches at the end, and before a line break that ends the text.
abbrev at_end : Option (List ℕ) → Bool
at_end (some []) = true
at_end (some (c ∷ [])) = c == 10
at_end _ = false

unfoldable pub is_uuid : List ℕ → Bool
is_uuid text =
    at_end (dash_then_hex 12 (dash_then_hex 4 (dash_then_hex 4 (dash_then_hex 4 (hex_run 8 text)))))

abbrev pub flag : Bool → Topic → List Topic
flag true topic = topic ∷ []
flag false topic = []

abbrev pub types : Declared → List String
types (one name) = name ∷ []
types (many names) = names

-- `schema.get("type") == "object"`
abbrev pub is_one_object : Option Declared → Bool
is_one_object (some (one name)) = name == "object"
is_one_object _ = false

abbrev pub over : (ℕ → ℕ → Bool) → ℕ → Option ℕ → Bool
over test n none = false
over test n (some m) = test n m

module _ ⦃t : Texts⦄ where
  unfoldable pub format_topics : Option String → List ℕ → List Topic
  unfolding is_uuid
  format_topics none s = []
  format_topics (some fmt) s =
      if fmt == "uuid"
      then flag (not (is_uuid s)) bad_uuid
      else if fmt == "date-time"
      then flag (not (t.is_datetime s)) bad_datetime
      else []

  -- An empty pattern counts as none.
  unfoldable pub pattern_topics : Option (List ℕ) → List ℕ → List Topic
  pattern_topics (some (c ∷ cs)) s = flag (not (t.search (c ∷ cs) s)) no_match
  pattern_topics _ s = []

module _ {F : Type 0} where
  abbrev pub is_object : Json F → Bool
  is_object (object d) = true
  is_object _ = false

  abbrev pub is_array : Json F → Bool
  is_array (array xs) = true
  is_array _ = false

  abbrev pub is_string : Json F → Bool
  is_string (string s) = true
  is_string _ = false

  abbrev pub is_int : Json F → Bool
  is_int (int n) = true
  is_int _ = false

  abbrev pub is_number : Json F → Bool
  is_number (int n) = true
  is_number (float x) = true
  is_number _ = false

  abbrev pub is_bool : Json F → Bool
  is_bool (bool b) = true
  is_bool _ = false

  abbrev pub is_none : Json F → Bool
  is_none null = true
  is_none _ = false

  -- A name that is not one of JSON Schema's is met by every value.
  unfoldable pub type_ok : Json F → String → Bool
  type_ok value type_name =
      if type_name == "object"
      then is_object value
      else if type_name == "array"
      then is_array value
      else if type_name == "string"
      then is_string value
      else if type_name == "integer"
      then is_int value
      else if type_name == "number"
      then is_number value
      else if type_name == "boolean"
      then is_bool value
      else if type_name == "null"
      then is_none value
      else true

  abbrev pub has_type : Json F → Option Declared → Bool
  has_type value none = true
  has_type value (some d) = any (λ t. type_ok value t) (types d)

  -- `value in schema["enum"]`
  abbrev pub is_constant : Json F → Option (List ℕ) → Bool
  is_constant null none = true
  is_constant (string s) (some t) = s == t
  is_constant _ _ = false

  unfoldable pub enum_topics : Json F → Option (List (Option (List ℕ))) → List Topic
  enum_topics value none = []
  enum_topics value (some constants) =
      flag (not (any (λ c. is_constant value c) constants)) not_in_enum

  unfoldable pub required_topics : List String → Fields F → List Topic
  required_topics [] d = []
  required_topics (name ∷ names) d =
      flag (not (has name d)) (missing name) ++ required_topics names d

  abbrev pub in_props : String → Properties F → Bool
  in_props key props = elim (find_property key props) [ none ↦ false | some s ↦ true ]

  unfoldable pub additional_topics : List String → Properties F → List Topic
  additional_topics [] props = []
  additional_topics (k ∷ ks) props =
      flag (not (in_props k props)) (additional k) ++ additional_topics ks props

  abbrev pub describes_object : Schema F → Bool
  describes_object (schema k props element) = is_one_object k.declared_type || is_declared props

  unfoldable pub object_topics : Schema F → Fields F → List Topic
  unfolding required_topics additional_topics
  object_topics (schema k props element) d =
      if describes_object (schema k props element)
      then required_topics k.required d
        ++ (if k.closed then additional_topics (keys d) props else [])
      else []

module _ {F : Type 0} ⦃a : Arith F⦄ ⦃t : Texts⦄ where
  unfoldable pub string_topics : Keywords F → List ℕ → List Topic
  unfolding format_topics pattern_topics
  string_topics k s =
      format_topics k.format s
      ++ (pattern_topics k.pattern s
          ++ (flag (over (λ n m. ltb n m) (length s) k.min_length) too_short
              ++ flag (over (λ n m. ltb m n) (length s) k.max_length) too_long))

  abbrev pub beyond : (F → F → Bool) → F → Option F → Bool
  beyond test x none = false
  beyond test x (some m) = test x m

  unfoldable pub number_topics : Keywords F → F → List Topic
  number_topics k x =
      flag (beyond (λ y m. a.lt y m) x k.minimum) too_small
      ++ flag (beyond (λ y m. a.le y m) x k.exclusive_minimum) too_small

  -- the keywords for the kind of the value
  unfoldable pub kind_topics : Json F → Schema F → List Topic
  unfolding string_topics number_topics object_topics
  kind_topics (string text) s = string_topics (keywords s) text
  kind_topics (int n) s = number_topics (keywords s) (a.of_ℤ n)
  kind_topics (float x) s = number_topics (keywords s) x
  kind_topics (object d) s = object_topics s d
  kind_topics _ s = []

  -- What a value breaks itself, once its type is right.
  unfoldable pub own_topics : Json F → Schema F → List Topic
  unfolding enum_topics kind_topics
  own_topics value s = enum_topics value (keywords s).enumeration ++ kind_topics value s
