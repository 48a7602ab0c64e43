-- ===== src/Clearing/Ontology/Correctness.antt =====
-- The checker of ontology.py accepts exactly the values that conform.
use ammba_uoc.Prelude.{
  ℕ, ◌≡◌, ◌↔◌, refl, List, [], ◌∷◌, bind-ok_iff, ap, ◌∙◌, string_eq, bytes_eq, Result, ok, suc,
}
use ammba_uoc.Arith.{Arith}
use ammba_uoc.Wire.Json.{
  Json, Items, Fields, null, bool, int, float, string, array, object, nil, cons, end, field,
}
use ammba_uoc.Clearing.Ontology.Schemas.{
  Schema, Properties, Element, any_element, each, properties, element_of, find_property, Texts,
  Step, member, index, Problem,
}
use ammba_uoc.Clearing.Ontology.Topics.{describes_object}
use ammba_uoc.Clearing.Ontology.{
  Registry, load_schema, resolved, check_resolved, report, check_with, check, check_items,
  check_fields, validate,
}
use ammba_uoc.Clearing.Ontology.Conformance.{ConformsWith, Conforms, ItemsConform, FieldsConform}
use ammba_uoc.Clearing.Ontology.Reports.{
  with_member_iff, unless_iff, joined_iff, silent, check_resolved_iff,
}

module _ {F : Type 0} ⦃a : Arith F⦄ ⦃t : Texts⦄ where
  module _ (registry : Registry F) where
    check_with_iff :
        (value : Json F) (path : List Step) (s : Schema F)
        (inside : Schema F → Result (List Problem)) (Inside : Schema F → Type 0)
        → ((r : Schema F) → (inside r ≡ ok []) ↔ Inside r)
        → (check_with registry value path s inside ≡ ok []) ↔ ConformsWith registry value s Inside
    unfolding check_with
    check_with_iff value path s inside Inside h =
        let step =
          bind-ok_iff (resolved registry s) (λ r. check_resolved value path r (inside r)) [] in
        (
          λ e.
              let (r, (found, checked)) = step.0 e in
              let (holds, deeper) = (check_resolved_iff value path r (inside r)).0 checked in
              (r, (found, (holds, (h r).0 deeper))),
          λ (r, (found, (holds, deeper))).
              step.1 (
                r,
                (found, (check_resolved_iff value path r (inside r)).1 (holds, (h r).1 deeper)),
              ),
        )

    mutual
      unfolding check Conforms

      check_iff :
          (v : Json F) (path : List Step) (s : Schema F)
          → (check registry v path s ≡ ok []) ↔ Conforms registry v s
      check_iff null path s = check_with_iff null path s _ _ λ r. (λ _. tt, λ _. refl)
      check_iff (bool b) path s = check_with_iff (bool b) path s _ _ λ r. (λ _. tt, λ _. refl)
      check_iff (int n) path s = check_with_iff (int n) path s _ _ λ r. (λ _. tt, λ _. refl)
      check_iff (float x) path s = check_with_iff (float x) path s _ _ λ r. (λ _. tt, λ _. refl)
      check_iff (string text) path s =
          check_with_iff (string text) path s _ _ λ r. (λ _. tt, λ _. refl)
      check_iff (array xs) path s =
          check_with_iff (array xs) path s _ _ λ r. check_items_iff xs 0 path (element_of r)
      check_iff (object d) path s =
          check_with_iff (object d) path s _ _
            λ r. unless_iff (describes_object r) _ (check_fields_iff d path (properties r))

      check_items_iff :
          (xs : Items F) (i : ℕ) (path : List Step) (element : Element F)
          → (check_items registry xs i path element ≡ ok []) ↔ ItemsConform registry xs element
      check_items_iff nil i path element = (λ _. tt, λ _. refl)
      check_items_iff (cons x xs) i path any_element = (λ _. tt, λ _. refl)
      check_items_iff (cons x xs) i path (each s) =
          joined_iff _ _ (check_iff x (index i ∷ path) s) (check_items_iff xs (suc i) path (each s))

      check_fields_iff :
          (d : Fields F) (path : List Step) (props : Properties F)
          → (check_fields registry d path props ≡ ok []) ↔ FieldsConform registry d props
      check_fields_iff end path props = (λ _. tt, λ _. refl)
      check_fields_iff (field k v d) path props =
          with_member_iff (find_property k props) _ _ _ (λ s. check_iff v (member k ∷ path) s)
            (check_fields_iff d path props)

    -- The checker accepts a value under the name of a schema exactly if the registry has the schema
    -- and the value conforms to it: every keyword that the schema has about the value holds, and
    -- declared properties and items conform to their schemas, references resolved.
    pub validate_iff :
        (v : Json F) (schema_name : List ℕ)
        → (validate registry v schema_name ≡ ok tt)
          ↔ ((s : Schema F) × ((load_schema registry schema_name ≡ ok s) × Conforms registry v s))
    unfolding validate report
    validate_iff v schema_name = (
      λ e.
          let (s, (found, e₁)) = (bind-ok_iff (load_schema registry schema_name) _ tt).0 e in
          let (problems, (checked, e₂)) = (bind-ok_iff (check registry v [] s) _ tt).0 e₁ in
          (s, (found, (check_iff v [] s).0 (checked ∙ ap ok (silent problems e₂)))),
      λ (s, (found, conforms)). rw (found, (check_iff v [] s).1 conforms) refl,
    )
