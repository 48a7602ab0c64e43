-- ===== src/Clearing/Ontology/Reports.antt =====
-- Each part of the checker of ontology.py reports nothing exactly if its keyword holds.
use ammba_uoc.Prelude.{
  ℕ, ◌≡◌, ◌↔◌, ◌⊎◌, inl, inr, refl, String, Bool, true, false, not, if◌then◌else◌, Option, none,
  some, List, [], ◌∷◌, ◌++◌, any, length, All, Any, any_iff, append-nil_iff, Bool-cases,
  Option-cases, bind-ok_iff, ok-injective, ap, ◌∙◌, arith, ltb, ◌==◌, string_eq, bytes_eq, Result,
  ok, ◌>>=◌,
}
use ammba_uoc.Arith.{Arith}
use ammba_uoc.Wire.Json.{Json, Fields, null, bool, int, float, string, array, object, has, keys}
use ammba_uoc.Clearing.Ontology.Schemas.{
  Declared, Keywords, Schema, schema, Properties, keywords, Texts, Step, Topic, bad_uuid,
  bad_datetime, Problem,
}
use ammba_uoc.Clearing.Ontology.Topics.{
  is_uuid, flag, type_ok, types, over, format_topics, pattern_topics, has_type, is_constant,
  enum_topics, required_topics, in_props, additional_topics, describes_object, object_topics,
  string_topics, number_topics, kind_topics, own_topics,
}
use ammba_uoc.Clearing.Ontology.{at, check_resolved, report, with_member}
use ammba_uoc.Clearing.Ontology.Conformance.{
  TypeHolds, EnumHolds, constant, ObjectHolds, FormatHolds, PatternHolds, AtLeast, AtMost,
  NumberHolds, StringHolds, KindHolds, Holds, MemberConforms,
}

flag_iff : (b : _) (topic : Topic) → (flag b topic ≡ []) ↔ (b ≡ false)
flag_iff true topic = ground arith
flag_iff false topic = ground arith

flagged : {P : Type 0} (b : _) (topic : Topic) → ((b ≡ false) ↔ P) → (flag b topic ≡ []) ↔ P
flagged b topic h = (λ e. h.0 ((flag_iff b topic).0 e), λ p. (flag_iff b topic).1 (h.1 p))

both :
    {P Q : Type 0} {A : Type 0} (xs ys : List A)
    → ((xs ≡ []) ↔ P)
    → ((ys ≡ []) ↔ Q)
    → (xs ++ ys ≡ []) ↔ (P × Q)
both xs ys h k = (
  λ e. (h.0 ((append-nil_iff xs ys).0 e).0, k.0 ((append-nil_iff xs ys).0 e).1),
  λ (p, q). (append-nil_iff xs ys).1 (h.1 p, k.1 q),
)

one_format :
    (b c u d : Bool)
    → (b ≡ true → c ≡ false)
    → ((if b then flag (not u) bad_uuid else if c then flag (not d) bad_datetime else []) ≡ [])
      ↔ (((b ≡ false) ⊎ (u ≡ true)) × ((c ≡ false) ⊎ (d ≡ true)))
one_format b c u d h = ground arith

at_iff : (path : List Step) (topics : List Topic) → (at path topics ≡ []) ↔ (topics ≡ [])
at_iff path [] = ground arith
at_iff path (topic ∷ topics) = ground arith

reported_iff :
    (path : List Step) (topics : List Topic) (problems : List Problem)
    → (at path topics ++ problems ≡ []) ↔ ((topics ≡ []) × (problems ≡ []))
reported_iff path topics problems =
    both (at path topics) problems (at_iff path topics) (λ e. e, λ e. e)

-- Two lists of messages in a row.
pub joined_iff :
    {P Q : Type 0} (first rest : Result (List Problem))
    → ((first ≡ ok []) ↔ P)
    → ((rest ≡ ok []) ↔ Q)
    → ((do xs ← first; ys ← rest; ok (xs ++ ys)) ≡ ok []) ↔ (P × Q)
joined_iff first rest h k = (
  λ e.
      let (xs, (e₁, more)) = (bind-ok_iff first _ []).0 e in
      let (ys, (e₂, last)) = (bind-ok_iff rest _ []).0 more in
      let (p, q) = (append-nil_iff xs ys).0 (ok-injective last) in
      (h.0 (e₁ ∙ ap ok p), k.0 (e₂ ∙ ap ok q)),
  λ (p, q). rw (h.1 p, k.1 q) refl,
)

pub silent : (problems : List Problem) → report problems ≡ ok tt → problems ≡ []
unfolding report
silent [] e = refl
silent (p ∷ ps) e = absurd (ground arith)

pub unless_iff :
    {P : Type 0} (b : Bool) (r : Result (List Problem))
    → ((r ≡ ok []) ↔ P)
    → ((if b then r else ok []) ≡ ok []) ↔ ((b ≡ false) ⊎ P)
unless_iff true r h =
    (λ e. inr (h.0 e), λ c. elim c [ inl e ↦ absurd (ground arith) | inr p ↦ h.1 p ])
unless_iff false r h = (λ e. inl refl, λ _. refl)

module _ {F : Type 0} where
  has_type_iff :
      (value : Json F) (d : Option Declared) → (has_type value d ≡ true) ↔ TypeHolds value d
  has_type_iff value none = ground arith
  has_type_iff value (some d) = any_iff (λ t. type_ok value t) (types d)

  is_constant_iff :
      (value : Json F) (c : Option (List ℕ)) → (is_constant value c ≡ true) ↔ (value ≡ constant c)
  is_constant_iff null none = ground arith
  is_constant_iff null (some t) = ground arith
  is_constant_iff (string s) none = ground arith
  is_constant_iff (string s) (some t) = ground (arith, bytes_eq.beq_iff s t)
  is_constant_iff value none = ground arith
  is_constant_iff value (some t) = ground arith

  any-constant_iff :
      (value : Json F) (constants : List (Option (List ℕ)))
      → (any (λ c. is_constant value c) constants ≡ true) ↔ Any (λ c. value ≡ constant c) constants
  any-constant_iff value [] = ground arith
  any-constant_iff value (c ∷ cs) =
      ground (arith, is_constant_iff value c, any-constant_iff value cs)

  pub with_member_iff :
      {Rest : Type 0} (o : Option (Schema F)) (inside : Schema F → Result (List Problem))
      (rest : Result (List Problem)) (Inside : Schema F → Type 0)
      → ((s : Schema F) → (inside s ≡ ok []) ↔ Inside s)
      → ((rest ≡ ok []) ↔ Rest)
      → (with_member o inside rest ≡ ok []) ↔ (MemberConforms o Inside × Rest)
  unfolding with_member
  with_member_iff none inside rest Inside h k = (λ e. (tt, k.0 e), λ (_, r). k.1 r)
  with_member_iff (some s) inside rest Inside h k = joined_iff (inside s) rest (h s) k

  enum_topics_iff :
      (value : Json F) (constants : Option (List (Option (List ℕ))))
      → (enum_topics value constants ≡ []) ↔ EnumHolds value constants
  unfolding enum_topics
  enum_topics_iff value none = ground arith
  enum_topics_iff value (some constants) = ground (arith, any-constant_iff value constants)

  required_topics_iff :
      (names : List String) (d : Fields F)
      → (required_topics names d ≡ []) ↔ All (λ name. has name d ≡ true) names
  unfolding required_topics
  required_topics_iff [] d = ground arith
  required_topics_iff (name ∷ names) d = ground (arith, required_topics_iff names d)

  additional_topics_iff :
      (names : List String) (props : Properties F)
      → (additional_topics names props ≡ []) ↔ All (λ name. in_props name props ≡ true) names
  unfolding additional_topics
  additional_topics_iff [] props = ground arith
  additional_topics_iff (name ∷ names) props = ground (arith, additional_topics_iff names props)

  object_topics_iff :
      (s : Schema F) (d : Fields F)
      → (object_topics s d ≡ []) ↔ ((describes_object s ≡ false) ⊎ ObjectHolds s d)
  unfolding object_topics
  object_topics_iff (schema k props element) d = ground (
    arith,
    append-nil_iff (required_topics k.required d) (additional_topics (keys d) props),
    append-nil_iff (required_topics k.required d) [],
    required_topics_iff k.required d,
    additional_topics_iff (keys d) props,
  )

module _ ⦃t : Texts⦄ where
  format_topics_iff :
      (fmt : Option String) (s : List ℕ) → (format_topics fmt s ≡ []) ↔ FormatHolds fmt s
  unfolding format_topics
  format_topics_iff none s = ground arith
  format_topics_iff (some fmt) s =
      one_format (fmt == "uuid") (fmt == "date-time") (is_uuid s) (t.is_datetime s)
        (λ e. let same = (string_eq.beq_iff fmt "uuid").0 e in rw same refl)

  pattern_topics_iff :
      (pattern_ : Option (List ℕ)) (s : List ℕ)
      → (pattern_topics pattern_ s ≡ []) ↔ PatternHolds pattern_ s
  unfolding pattern_topics
  pattern_topics_iff none s = ground arith
  pattern_topics_iff (some []) s = ground arith
  pattern_topics_iff (some (c ∷ cs)) s = ground arith

  AtLeast-iff : (n : ℕ) (m : Option ℕ) → (over (λ x y. ltb x y) n m ≡ false) ↔ AtLeast n m
  AtLeast-iff n none = ground arith
  AtLeast-iff n (some m) = ground arith

  AtMost-iff : (n : ℕ) (m : Option ℕ) → (over (λ x y. ltb y x) n m ≡ false) ↔ AtMost n m
  AtMost-iff n none = ground arith
  AtMost-iff n (some m) = ground arith

module _ {F : Type 0} ⦃a : Arith F⦄ ⦃t : Texts⦄ where
  number_topics_iff : (k : Keywords F) (x : F) → (number_topics k x ≡ []) ↔ NumberHolds k x
  unfolding number_topics
  number_topics_iff k x = elim (Option-cases k.minimum) [
    | inl e ↦ elim (Option-cases k.exclusive_minimum) [
      | inl e' ↦ rw (e, e') (ground arith)
      | inr (m, e') ↦ rw (e, e') (ground arith)
    ]
    | inr (m, e) ↦ elim (Option-cases k.exclusive_minimum) [
      | inl e' ↦ rw (e, e') (ground arith)
      | inr (m', e') ↦ rw (e, e') (ground arith)
    ]
  ]

  string_topics_iff : (k : Keywords F) (s : List ℕ) → (string_topics k s ≡ []) ↔ StringHolds k s
  unfolding string_topics
  string_topics_iff k s = both (format_topics k.format s) _ (format_topics_iff k.format s) (
      both (pattern_topics k.pattern s) _ (pattern_topics_iff k.pattern s) (
        both (flag (over (λ n m. ltb n m) (length s) k.min_length) Topic.too_short) _
          (flagged _ Topic.too_short (AtLeast-iff (length s) k.min_length))
          (flagged _ Topic.too_long (AtMost-iff (length s) k.max_length))))

  kind_topics_iff : (value : Json F) (s : Schema F) → (kind_topics value s ≡ []) ↔ KindHolds value s
  unfolding kind_topics
  kind_topics_iff null s = (λ _. tt, λ _. refl)
  kind_topics_iff (bool b) s = (λ _. tt, λ _. refl)
  kind_topics_iff (int n) s = number_topics_iff (keywords s) (a.of_ℤ n)
  kind_topics_iff (float x) s = number_topics_iff (keywords s) x
  kind_topics_iff (string text) s = string_topics_iff (keywords s) text
  kind_topics_iff (array xs) s = (λ _. tt, λ _. refl)
  kind_topics_iff (object d) s = object_topics_iff s d

  own_topics_iff :
      (value : Json F) (s : Schema F)
      → (own_topics value s ≡ []) ↔ (EnumHolds value (keywords s).enumeration × KindHolds value s)
  unfolding own_topics
  own_topics_iff value s =
      both (enum_topics value (keywords s).enumeration) (kind_topics value s)
        (enum_topics_iff value (keywords s).enumeration) (kind_topics_iff value s)

  pub check_resolved_iff :
      (value : Json F) (path : List Step) (s : Schema F) (inside : Result (List Problem))
      → (check_resolved value path s inside ≡ ok []) ↔ (Holds value s × (inside ≡ ok []))
  unfolding check_resolved
  check_resolved_iff value path s inside =
      let typed = has_type_iff value (keywords s).declared_type in
      elim (Bool-cases (has_type value (keywords s).declared_type)) [
        | inl right ↦ rw right (
          λ e.
              let (problems, (e', none_left)) = (bind-ok_iff inside _ []).0 e in
              let (mine, theirs) =
                (reported_iff path (own_topics value s) problems).0 (ok-injective none_left) in
              ((typed.0 right, (own_topics_iff value s).0 mine), e' ∙ ap ok theirs),
          λ (holds, e).
              let mine = (own_topics_iff value s).1 holds.1 in
              (bind-ok_iff inside _ []).1
                ([], (e, ap ok ((reported_iff path (own_topics value s) []).1 (mine, refl)))),
        )
        | inr wrong ↦
            rw wrong
              (λ e. absurd (ground arith), λ (holds, e). absurd (ground (arith, typed.1 holds.0)))
      ]
