-- ===== src/Clearing/Ontology/Conformance.antt =====
-- What it means that a value conforms to a schema, keyword by keyword.
use ammba_uoc.Prelude.{
  ℕ, ◌≤◌, ◌≡◌, ◌⊎◌, String, true, false, Option, none, some, List, ◌∷◌, length, All, Any, ◌==◌,
  string_eq, bytes_eq, ok,
}
use ammba_uoc.Arith.{Arith}
use ammba_uoc.Wire.Json.{
  Json, Items, Fields, null, bool, int, float, string, array, object, nil, cons, end, field, has,
  keys,
}
use ammba_uoc.Clearing.Ontology.Schemas.{
  Declared, Keywords, Schema, schema, Properties, Element, any_element, each, keywords, properties,
  element_of, find_property, Texts,
}
use ammba_uoc.Clearing.Ontology.Topics.{is_uuid, type_ok, types, in_props, describes_object}
use ammba_uoc.Clearing.Ontology.{Registry, resolved}

module _ {F : Type 0} where
  -- `type`: the value has one of the types.
  abbrev pub TypeHolds : Json F → Option Declared → Type 0
  TypeHolds value none = Unit
  TypeHolds value (some d) = Any (λ t. type_ok value t ≡ true) (types d)

  abbrev pub constant : Option (List ℕ) → Json F
  constant none = null
  constant (some t) = string t

  -- The value of a property, if the schema declares it.
  abbrev pub MemberConforms : Option (Schema F) → (Schema F → Type 0) → Type 0
  MemberConforms none Inside = Unit
  MemberConforms (some s) Inside = Inside s

  -- `enum`: the value is one of the constants.
  abbrev pub EnumHolds : Json F → Option (List (Option (List ℕ))) → Type 0
  EnumHolds value none = Unit
  EnumHolds value (some constants) = Any (λ c. value ≡ constant c) constants

  -- `required` and `additionalProperties: false`, of an object.
  abbrev pub ObjectHolds : Schema F → Fields F → Type 0
  ObjectHolds (schema k props element) d =
      All (λ name. has name d ≡ true) k.required
      × ((k.closed ≡ false) ⊎ All (λ name. in_props name props ≡ true) (keys d))

module _ ⦃t : Texts⦄ where
  abbrev pub FormatHolds : Option String → List ℕ → Type 0
  FormatHolds none s = Unit
  FormatHolds (some fmt) s =
      (((fmt == "uuid") ≡ false) ⊎ (is_uuid s ≡ true))
      × (((fmt == "date-time") ≡ false) ⊎ (t.is_datetime s ≡ true))

  abbrev pub PatternHolds : Option (List ℕ) → List ℕ → Type 0
  PatternHolds (some (c ∷ cs)) s = t.search (c ∷ cs) s ≡ true
  PatternHolds _ s = Unit

abbrev pub AtLeast : ℕ → Option ℕ → Type 0
AtLeast n none = Unit
AtLeast n (some m) = m ≤ n

abbrev pub AtMost : ℕ → Option ℕ → Type 0
AtMost n none = Unit
AtMost n (some m) = n ≤ m

module _ {F : Type 0} ⦃a : Arith F⦄ where
  abbrev pub MinimumHolds : F → Option F → Type 0
  MinimumHolds x none = Unit
  MinimumHolds x (some m) = a.lt x m ≡ false

  abbrev pub ExclusiveMinimumHolds : F → Option F → Type 0
  ExclusiveMinimumHolds x none = Unit
  ExclusiveMinimumHolds x (some m) = a.le x m ≡ false

module _ {F : Type 0} ⦃a : Arith F⦄ ⦃t : Texts⦄ where
  abbrev pub NumberHolds : Keywords F → F → Type 0
  NumberHolds k x = MinimumHolds x k.minimum × ExclusiveMinimumHolds x k.exclusive_minimum

  abbrev pub StringHolds : Keywords F → List ℕ → Type 0
  StringHolds k s =
      FormatHolds k.format s
      × (PatternHolds k.pattern s
          × (AtLeast (length s) k.min_length × AtMost (length s) k.max_length))

  abbrev pub KindHolds : Json F → Schema F → Type 0
  KindHolds (string text) s = StringHolds (keywords s) text
  KindHolds (int n) s = NumberHolds (keywords s) (a.of_ℤ n)
  KindHolds (float x) s = NumberHolds (keywords s) x
  KindHolds (object d) s = (describes_object s ≡ false) ⊎ ObjectHolds s d
  KindHolds _ s = Unit

  -- The keywords about the value itself.
  abbrev pub Holds : Json F → Schema F → Type 0
  Holds value s =
      TypeHolds value (keywords s).declared_type
      × (EnumHolds value (keywords s).enumeration × KindHolds value s)

  module _ (registry : Registry F) where
    -- The value meets the schema that the given one stands for, and so do the values inside it.
    abbrev pub ConformsWith : Json F → Schema F → (Schema F → Type 0) → Type 0
    ConformsWith value declared Inside =
        (s : Schema F) × ((resolved registry declared ≡ ok s) × (Holds value s × Inside s))

    unfoldable mutual
      pub Conforms : Json F → Schema F → Type 0
      Conforms null s = ConformsWith null s λ r. Unit
      Conforms (bool b) s = ConformsWith (bool b) s λ r. Unit
      Conforms (int n) s = ConformsWith (int n) s λ r. Unit
      Conforms (float x) s = ConformsWith (float x) s λ r. Unit
      Conforms (string text) s = ConformsWith (string text) s λ r. Unit
      Conforms (array xs) s = ConformsWith (array xs) s λ r. ItemsConform xs (element_of r)
      Conforms (object d) s =
          ConformsWith (object d) s
            λ r. (describes_object r ≡ false) ⊎ FieldsConform d (properties r)

      pub ItemsConform : Items F → Element F → Type 0
      ItemsConform nil element = Unit
      ItemsConform (cons x xs) any_element = Unit
      ItemsConform (cons x xs) (each s) = Conforms x s × ItemsConform xs (each s)

      pub FieldsConform : Fields F → Properties F → Type 0
      FieldsConform end props = Unit
      FieldsConform (field k v d) props =
          MemberConforms (find_property k props) (λ s. Conforms v s) × FieldsConform d props
