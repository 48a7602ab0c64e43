-- ===== src/Clearing/Ontology/Schemas.antt =====
-- The keywords of a schema that ontology.py reads, and the messages of its checker.
use ammba_uoc.Prelude.{
  ℕ, String, Bool, true, false, Option, none, some, List, ◌==◌, string_eq, bytes_eq, nat_eq,
  if◌then◌else◌,
}

-- The value of `type`: one name, or a list of them.
pub data Declared : Type 0 where
  one : String → Declared
  many : List String → Declared

-- The keywords of a schema that hold no schema. An `enum` lists texts, or null for `none`.
pub record Keywords (F : Type 0) : Type 0 where
  pub ref : Option (List ℕ)
  pub declared_type : Option Declared
  pub enumeration : Option (List (Option (List ℕ)))
  pub format : Option String
  pub pattern : Option (List ℕ)
  pub min_length : Option ℕ
  pub max_length : Option ℕ
  pub minimum : Option F
  pub exclusive_minimum : Option F
  pub required : List String
  pub closed : Bool

-- A schema, with its `properties` (or no such keyword) and `items`.
mutual
  pub data Schema (F : Type 0) : Type 0 where
    schema : Keywords F → Properties F → Element F → Schema F

  pub data Properties (F : Type 0) : Type 0 where
    undeclared : Properties F
    no_more : Properties F
    property : String → Schema F → Properties F → Properties F

  pub data Element (F : Type 0) : Type 0 where
    any_element : Element F
    each : Schema F → Element F

module _ {F : Type 0} where
  abbrev pub keywords : Schema F → Keywords F
  keywords (schema k props element) = k

  abbrev pub properties : Schema F → Properties F
  properties (schema k props element) = props

  abbrev pub element_of : Schema F → Element F
  element_of (schema k props element) = element

  abbrev pub find_property : String → Properties F → Option (Schema F)
  find_property key undeclared = none
  find_property key no_more = none
  find_property key (property k s props) = if k == key then some s else find_property key props

  abbrev pub is_declared : Properties F → Bool
  is_declared undeclared = false
  is_declared _ = true

-- Functions of the standard library: `re.search(pattern, text)`, and whether
-- `datetime.fromisoformat` takes a text with `Z` written as `+00:00`.
pub record Texts : Type 0 where
  pub search : List ℕ → List ℕ → Bool
  pub is_datetime : List ℕ → Bool

-- A step from a value to one inside it, and a message: where, innermost step first, and about what.
pub data Step : Type 0 where
  member : String → Step
  index : ℕ → Step

pub data Topic : Type 0 where
  wrong_type not_in_enum bad_uuid bad_datetime no_match too_short too_long too_small : Topic
  missing additional : String → Topic

pub record Problem : Type 0 where
  pub path : List Step
  pub topic : Topic
