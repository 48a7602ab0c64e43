-- ===== src/Clearing/Pricing/Kinds.antt =====
-- The types of energy that make an offer green or grey.
use ammba_uoc.Prelude.{
  String, true, false, ◌≡◌, refl, sym, ap, subst, ◌↔◌, Option, none, some, List, [], ◌∷◌, any, Any,
  member_iff, arith, Bool-cases, inl, inr, string_eq,
}
use ammba_uoc.Clearing.Orders.{default_to}
use ammba_uoc.Clearing.Preferences.{member}
use ammba_uoc.Clearing.Pricing.{green_types, grey_types, is_green, is_grey, classify_offer}

-- The attributes of an offer are there, and one of them is among these types.
abbrev pub Names : List String → Option (List String) → Type 0
Names kinds attributes =
    (types : List String) × ((attributes ≡ some types) × Any (λ t. Any (λ k. k ≡ t) kinds) types)

any_kind :
    (kinds types : List String)
    → (any (λ t. member t kinds) types ≡ true) ↔ Any (λ t. Any (λ k. k ≡ t) kinds) types
any_kind kinds [] = ground arith
any_kind kinds (t ∷ ts) = ground (arith, member_iff t kinds, any_kind kinds ts)

not_green :
    (types types' : List String)
    → some types ≡ some types'
    → any (λ t. member t green_types) types ≡ false
    → Any (λ t. Any (λ k. k ≡ t) green_types) types'
    → ⊥
not_green types types' same other h =
    let same_types : types ≡ types' = ap (λ o. default_to o types) same in
    let found : any (λ t. member t green_types) types ≡ true =
      subst (λ ts. any (λ t. member t green_types) ts ≡ true) (sym same_types)
        ((any_kind green_types types').1 h) in
    absurd (ground (arith, other, found))

pub is_green-Names :
    (attributes : Option (List String))
    → is_green (classify_offer attributes) ≡ true
    → Names green_types attributes
unfolding classify_offer
is_green-Names none e = absurd (ground (arith, e))
is_green-Names (some types) e = elim (Bool-cases (any (λ t. member t green_types) types)) [
  | inl green ↦ (types, (refl, (any_kind green_types types).0 green))
  | inr other ↦ elim (Bool-cases (any (λ t. member t grey_types) types)) [
    | inl grey ↦ absurd (ground (arith, rw (other, grey) at e))
    | inr neither ↦ absurd (ground (arith, rw (other, neither) at e))
  ]
]

pub is_grey-Names :
    (attributes : Option (List String))
    → is_grey (classify_offer attributes) ≡ true
    → Names grey_types attributes × (¬ Names green_types attributes)
unfolding classify_offer
is_grey-Names none e = absurd (ground (arith, e))
is_grey-Names (some types) e = elim (Bool-cases (any (λ t. member t green_types) types)) [
  | inl green ↦ absurd (ground (arith, rw green at e))
  | inr other ↦ elim (Bool-cases (any (λ t. member t grey_types) types)) [
    | inl grey ↦ (
      (types, (refl, (any_kind grey_types types).0 grey)),
      λ (types', (same, h)). absurd (not_green types types' same other h),
    )
    | inr neither ↦ absurd (ground (arith, rw (other, neither) at e))
  ]
]
