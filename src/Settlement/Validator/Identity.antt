-- ===== src/Settlement/Validator/Identity.antt =====
-- amm-execution-node/src/validator.py, `_bytes`: when two market ids count as one, and empty texts.
use ammba_uoc.Prelude.{
  ℕ, String, Bool, true, false, ◌≡◌, ◌≢◌, ◌↔◌, refl, sym, ap, ◌∙◌, Option, none, some, List, Result,
  ok, err, Exn, Bool-cases, ◌==◌, bytes_eq, beq_option, arith, inl, inr,
}
use ammba_uoc.Prelude.Text.{truthy}
use ammba_uoc.Settlement.Ids.{uuid_to_bytes16}
use ammba_uoc.Settlement.Validator.{bytes_of}

-- Two texts are ids for the same bytes, or neither is an id.
pub data SameId (x y : String) : Type 0 where
  same_bytes :
      (bytes : List ℕ) → uuid_to_bytes16 x ≡ ok bytes → uuid_to_bytes16 y ≡ ok bytes → SameId x y
  both_refused : (e e' : Exn) → uuid_to_bytes16 x ≡ err e → uuid_to_bytes16 y ≡ err e' → SameId x y

-- the comparison of two parsed ids, as `_bytes` gives them
abbrev same_parsed : Result (List ℕ) → Result (List ℕ) → Bool
same_parsed (ok xs) (ok ys) = xs == ys
same_parsed (ok xs) (err e) = false
same_parsed (err e) (ok ys) = false
same_parsed (err e) (err e') = true

abbrev parsed_of : Result (List ℕ) → Option (List ℕ)
parsed_of (ok bytes) = some bytes
parsed_of (err e) = none

same_parsed_lem : (r q : Result (List ℕ)) → beq_option (parsed_of r) (parsed_of q) ≡ same_parsed r q
same_parsed_lem (ok xs) (ok ys) = refl
same_parsed_lem (ok xs) (err e) = refl
same_parsed_lem (err e) (ok ys) = refl
same_parsed_lem (err e) (err f) = refl

bytes_of_lem :
    (x : String) → (r : Result (List ℕ)) → uuid_to_bytes16 x ≡ r → bytes_of x ≡ parsed_of r
unfolding bytes_of
bytes_of_lem x (ok bytes) e = rw (e, bytes_of) refl
bytes_of_lem x (err f) e = rw (e, bytes_of) refl

bytes_of-parsed :
    (x y : String)
    → beq_option (bytes_of x) (bytes_of y) ≡ same_parsed (uuid_to_bytes16 x) (uuid_to_bytes16 y)
bytes_of-parsed x y =
    ap (λ b. beq_option b (bytes_of y)) (bytes_of_lem x (uuid_to_bytes16 x) refl)
    ∙ ap (λ b. beq_option (parsed_of (uuid_to_bytes16 x)) b)
        (bytes_of_lem y (uuid_to_bytes16 y) refl)
    ∙ same_parsed_lem (uuid_to_bytes16 x) (uuid_to_bytes16 y)

parsed-SameId :
    (x y : String) (r q : Result (List ℕ))
    → uuid_to_bytes16 x ≡ r
    → uuid_to_bytes16 y ≡ q
    → same_parsed r q ≡ true
    → SameId x y
parsed-SameId x y (ok xs) (ok ys) e e' h =
    same_bytes ys (e ∙ ap (λ bs. ok bs) ((bytes_eq.beq_iff xs ys).0 h)) e'
parsed-SameId x y (ok xs) (err f) e e' h = absurd (ground (arith, h))
parsed-SameId x y (err f) (ok ys) e e' h = absurd (ground (arith, h))
parsed-SameId x y (err f) (err g) e e' h = both_refused f g e e'

SameId-parsed :
    (x y : String) → SameId x y → same_parsed (uuid_to_bytes16 x) (uuid_to_bytes16 y) ≡ true
SameId-parsed x y (same_bytes bytes e e') = rw (e, e') ((bytes_eq.beq_iff bytes bytes).1 refl)
SameId-parsed x y (both_refused f g e e') = rw (e, e') refl

pub one_market_iff : (x y : String) → (beq_option (bytes_of x) (bytes_of y) ≡ true) ↔ SameId x y
one_market_iff x y = (
  λ h. parsed-SameId x y _ _ refl refl (sym (bytes_of-parsed x y) ∙ h),
  λ h. bytes_of-parsed x y ∙ SameId-parsed x y h,
)

not_both : (b : Bool) → b ≡ true → b ≡ false → ⊥
not_both b e e' = absurd (ground (arith, e, e'))

blank_text : (s : String) → truthy s ≡ false → s ≡ ""
blank_text String.[] h = refl
blank_text (String.◌∷◌ c cs) h = absurd (ground (arith, h))

pub truthy_iff : (s : String) → (truthy s ≡ true) ↔ (s ≢ "")
truthy_iff s = (
  λ h e. not_both (truthy s) h (ap (λ t. truthy t) e),
  λ h. elim (Bool-cases (truthy s)) [
    | inl full ↦ full
    | inr blank ↦ absurd (h (blank_text s blank))
  ],
)
