-- ===== src/Clearing/Ontology/Examples.antt =====
-- The checker on the order schema of the ontology (schemas/intelligent/int.order.schema.v1.json).
use ammba_uoc.Prelude.{
  ℕ, ◌≡◌, ◌↔◌, refl, String, true, false, Option, none, some, List, [], ◌∷◌, map, bytes_eq, ok, err,
  schema_error, key_error,
}
use ammba_uoc.Prelude.Text.{codes}
use ammba_uoc.Arith.Fixed.{Fixed, fixed_arith}
use ammba_uoc.Wire.Json.{Json, Fields, string, float, bool, array, object, nil, cons, end, field}
use ammba_uoc.Clearing.Ontology.Schemas.{
  one, many, Keywords, Schema, schema, Properties, undeclared, no_more, property, any_element, each,
  Texts,
}
use ammba_uoc.Clearing.Ontology.{Registry, load_schema, validate, validate_order}
use ammba_uoc.Clearing.Ontology.Conformance.{Conforms}
use ammba_uoc.Clearing.Ontology.Correctness.{validate_iff}

instance abbrev example_texts : Texts
example_texts = record { search = λ p s. true; is_datetime = λ s. true }

abbrev plain : Keywords Fixed
plain = record {
  ref = none;
  declared_type = none;
  enumeration = none;
  format = none;
  pattern = none;
  min_length = none;
  max_length = none;
  minimum = none;
  exclusive_minimum = none;
  required = [];
  closed = false;
}

abbrev leaf : Keywords Fixed → Schema Fixed
leaf k = schema k undeclared any_element

abbrev string_type : Keywords Fixed
string_type = record plain { declared_type = some (one "string") }

abbrev constants : List String → Option (List (Option (List ℕ)))
constants texts = some (map (λ t. some (codes t)) texts)

abbrev required_keys : List String
required_keys =
    "orderId" ∷ "marketId" ∷ "orderType" ∷ "orderStatus" ∷ "timeSlot" ∷ "quantity" ∷ "priceLimit"
    ∷ "createdBy" ∷ "creationTime" ∷ []

abbrev statuses : List String
statuses =
    "submitted" ∷ "partially_filled" ∷ "filled" ∷ "cancelled" ∷ "expired" ∷ "rejected" ∷ "executed"
    ∷ []

-- The properties that an order must have, and one that it may have.
abbrev order_properties : Properties Fixed
order_properties = property "orderId" (leaf string_type) (
    property "marketId" (leaf string_type) (
      property "orderType"
        (leaf (record string_type { enumeration = constants ("bid" ∷ "offer" ∷ []) }))
        (property "orderStatus" (leaf (record string_type { enumeration = constants statuses })) (
          property "timeSlot" (leaf (record string_type { format = some "date-time" })) (
            property "quantity"
              (leaf (record plain {
                declared_type = some (one "number");
                exclusive_minimum = some (fixed_arith.dec 0 0);
              }))
              (property "priceLimit" (leaf (record plain { declared_type = some (one "number") })) (
                property "createdBy" (leaf string_type) (
                  property "creationTime" (leaf (record string_type { format = some "date-time" }))
                    (property "preferredTradingPartner"
                      (leaf (record plain { declared_type = some (many ("string" ∷ "null" ∷ [])) }))
                      no_more)))))))))

abbrev order_schema : Schema Fixed
order_schema =
    schema
      (record plain {
        declared_type = some (one "object");
        required = required_keys;
        closed = true;
      })
      order_properties any_element

-- A list of orders, by reference.
abbrev orders_schema : Schema Fixed
orders_schema =
    schema (record plain { declared_type = some (one "array") }) undeclared
      (each (leaf (record plain { ref = some (codes "./int.order.schema.v1.json") })))

abbrev registry : Registry Fixed
registry = (codes "int.order.schema.v1.json", order_schema) ∷ (codes "orders", orders_schema) ∷ []

abbrev order_of : ℕ → Fields Fixed → Json Fixed
order_of quantity more = object (
    field "orderId" (string (codes "o")) (
      field "marketId" (string (codes "m")) (
        field "orderType" (string (codes "bid")) (
          field "orderStatus" (string (codes "submitted")) (
            field "timeSlot" (string (codes "2026-01-01T00:00:00Z")) (
              field "quantity" (float (fixed_arith.dec quantity 0)) (
                field "priceLimit" (float (fixed_arith.dec 25 2)) (
                  field "createdBy" (string (codes "a"))
                    (field "creationTime" (string (codes "2026-01-01T00:00:00Z")) more)))))))))

order_accepted : validate_order registry (order_of 2 end) ≡ ok tt
unfolding validate_order
order_accepted = refl

-- A quantity of zero, a key that the schema does not list, and a missing key are refused.
empty_order_refused : validate_order registry (order_of 0 end) ≡ err schema_error
unfolding validate_order
empty_order_refused = refl

additional_key_refused :
    validate_order registry (order_of 2 (field "nonce" (bool true) end)) ≡ err schema_error
unfolding validate_order
additional_key_refused = refl

missing_key_refused : validate_order registry (object end) ≡ err schema_error
unfolding validate_order
missing_key_refused = refl

orders_accepted :
    validate registry (array (cons (order_of 2 end) (cons (order_of 1 end) nil))) (codes "orders")
    ≡ ok tt
unfolding validate
orders_accepted = refl

unknown_schema_raises : validate registry (order_of 2 end) (codes "trades") ≡ err key_error
unfolding validate
unknown_schema_raises = refl

validate_iff_example :
    let orders = array (cons (order_of 2 end) (cons (order_of 0 end) nil)) in
    (validate registry orders (codes "orders") ≡ ok tt) ↔ (
      (s : Schema Fixed) × ((load_schema registry (codes "orders") ≡ ok s)
        × Conforms registry orders s))
validate_iff_example =
    validate_iff registry (array (cons (order_of 2 end) (cons (order_of 0 end) nil)))
      (codes "orders")
