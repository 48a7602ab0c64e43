-- ===== src/Clearing/Ontology.antt =====
-- amm-clearing-node/src/ontology.py: the checker of the subset of JSON Schema that the ontology uses.
pub mod Schemas
pub mod Topics
pub mod Conformance
mod Reports
pub mod Correctness
mod Examples
use ammba_uoc.Prelude.{
  ℕ, zero, suc, String, Bool, true, false, not, ◌&&◌, ◌||◌, Option, none, some, List, [], ◌∷◌, ◌++◌,
  map, any, length, ltb, ◌==◌, string_eq, bytes_eq, nat_eq, if◌then◌else◌, Result, ok, err,
  key_error, schema_error, or_raise, ◌>>=◌,
}
use ammba_uoc.Prelude.Int.{ℤ}
use ammba_uoc.Prelude.Dict.{Dict, lookup}
use ammba_uoc.Prelude.Text.{codes}
use ammba_uoc.Arith.{Arith}
use ammba_uoc.Wire.Json.{
  Json, Items, Fields, null, bool, int, float, string, array, object, nil, cons, end, field, has,
  keys,
}
use ammba_uoc.Clearing.Ontology.Schemas.{
  Declared, one, many, Keywords, Schema, schema, Properties, undeclared, no_more, property, Element,
  any_element, each, keywords, properties, element_of, find_property, is_declared, Texts, Step,
  member, index, Topic, wrong_type, not_in_enum, bad_uuid, bad_datetime, no_match, too_short,
  too_long, too_small, missing, additional, Problem,
}
use ammba_uoc.Clearing.Ontology.Topics.{
  type_ok, is_uuid, flag, type_ok, types, is_one_object, over, format_topics, pattern_topics,
  has_type, is_constant, enum_topics, required_topics, in_props, additional_topics,
  describes_object, object_topics, string_topics, beyond, number_topics, own_topics,
}

-- `ref.split("/")[-1]`
abbrev last_part : List ℕ → List ℕ → List ℕ
last_part [] part = part
last_part (c ∷ cs) part = if c == b'/' then last_part cs cs else last_part cs part

abbrev pub basename : List ℕ → List ℕ
basename s = last_part s s

abbrev pub Registry : Type 0 → Type 0
Registry F = Dict (List ℕ) (Schema F)

unfoldable pub report : List Problem → Result (Unit {0})
report [] = ok tt
report (p ∷ ps) = err schema_error

module _ {F : Type 0} (registry : Registry F) where
  unfoldable pub load_schema : List ℕ → Result (Schema F)
  load_schema name = or_raise (lookup name registry) key_error

  unfoldable pub resolve_ref : List ℕ → Result (Schema F)
  resolve_ref ref = elim (lookup (basename ref) registry) [
    | some s ↦ ok s
    | none ↦ or_raise (lookup ref registry) key_error
  ]

  unfoldable pub resolved : Schema F → Result (Schema F)
  unfolding resolve_ref
  resolved s = elim (keywords s).ref [ none ↦ ok s | some ref ↦ resolve_ref ref ]

abbrev pub at : List Step → List Topic → List Problem
at path topics = map (λ topic. record { path = path; topic = topic }) topics

module _ {F : Type 0} ⦃a : Arith F⦄ ⦃t : Texts⦄ where
  -- The check of one value against the schema found for it, given that of the values inside it.
  unfoldable pub check_resolved :
      Json F → List Step → Schema F → Result (List Problem) → Result (List Problem)
  unfolding own_topics type_ok
  check_resolved value path s inside =
      if not (has_type value (keywords s).declared_type)
      then ok (at path (wrong_type ∷ []))
      else (do problems ← inside; ok (at path (own_topics value s) ++ problems))

module _ {F : Type 0} where
  -- A property that the schema does not declare is not checked.
  unfoldable pub with_member :
      Option (Schema F)
      → (Schema F → Result (List Problem))
      → Result (List Problem)
      → Result (List Problem)
  with_member none inside rest = rest
  with_member (some s) inside rest = do first ← inside s; others ← rest; ok (first ++ others)

module _ {F : Type 0} ⦃a : Arith F⦄ ⦃t : Texts⦄ (registry : Registry F) where
  unfoldable pub check_with :
      Json F → List Step → Schema F → (Schema F → Result (List Problem)) → Result (List Problem)
  unfolding resolved check_resolved
  check_with value path declared inside = do
    s ← resolved registry declared
    check_resolved value path s (inside s)

  unfoldable mutual
    unfolding check_with with_member

    pub check : Json F → List Step → Schema F → Result (List Problem)
    check null path s = check_with null path s λ r. ok []
    check (bool b) path s = check_with (bool b) path s λ r. ok []
    check (int n) path s = check_with (int n) path s λ r. ok []
    check (float x) path s = check_with (float x) path s λ r. ok []
    check (string text) path s = check_with (string text) path s λ r. ok []
    check (array xs) path s = check_with (array xs) path s λ r. check_items xs 0 path (element_of r)
    check (object d) path s =
        check_with (object d) path s
          λ r. if describes_object r then check_fields d path (properties r) else ok []

    pub check_items : Items F → ℕ → List Step → Element F → Result (List Problem)
    check_items nil i path element = ok []
    check_items (cons x xs) i path any_element = ok []
    check_items (cons x xs) i path (each s) = do
      first ← check x (index i ∷ path) s
      rest ← check_items xs (suc i) path (each s)
      ok (first ++ rest)

    pub check_fields : Fields F → List Step → Properties F → Result (List Problem)
    check_fields end path props = ok []
    check_fields (field k v d) path props =
        with_member (find_property k props) (λ s. check v (member k ∷ path) s)
          (check_fields d path props)

  unfoldable pub validate : Json F → List ℕ → Result (Unit {0})
  unfolding load_schema check report
  validate instance_ schema_name = do
    s ← load_schema registry schema_name
    problems ← check instance_ [] s
    report problems

  unfoldable pub validate_order : Json F → Result (Unit {0})
  unfolding validate
  validate_order order = validate order (codes "int.order.schema.v1.json")

  unfoldable pub validate_trade : Json F → Result (Unit {0})
  unfolding validate
  validate_trade trade = validate trade (codes "int.trade.schema.v1.json")

  unfoldable pub validate_clearing_result : Json F → Result (Unit {0})
  unfolding validate
  validate_clearing_result result = validate result (codes "int.clearing-result.schema.v1.json")
