-- ===== src/Prelude/Lists.antt =====
-- Lists measured by native numbers, with Boolean predicates, under the library's names.
use Prim.Native.Nat.{ℕ, suc, ◌+◌}
use mathlib.Core.Path.{◌≡◌, refl, sym, subst}
use mathlib.Core.Logic.{◌⊎◌, ◌↔◌, inl, inr}
use mathlib.Core.Bool.{Bool, true, false, ◌||◌}
use mathlib.Core.List.{List, [], ◌∷◌, ◌++◌}
use native.Mathlib.Omega.{arith}
use ammba_uoc.Prelude.Tests.{if◌then◌else◌, Bool-cases, Eq, ◌==◌}

module _ {ℓ} {A : Type ℓ} where
  abbrev pub length : List A → ℕ
  length [] = 0
  length (x ∷ xs) = suc (length xs)

  abbrev pub filter : (A → Bool) → List A → List A
  filter p [] = []
  filter p (x ∷ xs) = if p x then x ∷ filter p xs else filter p xs

  abbrev pub any : (A → Bool) → List A → Bool
  any p [] = false
  any p (x ∷ xs) = p x || any p xs

  abbrev pub concat : List (List A) → List A
  concat [] = []
  concat (xs ∷ xss) = xs ++ concat xss

  -- Every element satisfies the predicate.
  abbrev pub All {κ} : (A → Type κ) → List A → Type κ
  All P [] = Unit
  All P (x ∷ xs) = P x × All P xs

  -- Some element satisfies the predicate.
  abbrev pub Any : (A → Type 0) → List A → Type 0
  Any P [] = ⊥
  Any P (x ∷ xs) = P x ⊎ Any P xs

module _ {ℓ} {A : Type ℓ} where
  pub any_iff : (p : A → Bool) (xs : List A) → (any p xs ≡ true) ↔ Any (λ x. p x ≡ true) xs
  any_iff p [] = ground arith
  any_iff p (x ∷ xs) = ground (arith, any_iff p xs)

  pub append-nil_iff : (xs ys : List A) → (xs ++ ys ≡ []) ↔ ((xs ≡ []) × (ys ≡ []))
  append-nil_iff [] ys = ground arith
  append-nil_iff (x ∷ xs) ys = ground arith

  pub length-append : (xs ys : List A) → length (xs ++ ys) ≡ length xs + length ys
  length-append [] ys = omega arith
  length-append (x ∷ xs) ys = omega (arith, length-append xs ys)

  pub All-append {κ} : (P : A → Type κ) (xs ys : List A) → All P xs → All P ys → All P (xs ++ ys)
  All-append P [] ys _ q = q
  All-append P (x ∷ xs) ys (p, ps) q = (p, All-append P xs ys ps q)

  pub All-mono {κ κ'} :
      (P : A → Type κ) (Q : A → Type κ') (xs : List A) → ((x : A) → P x → Q x) → All P xs → All Q xs
  All-mono P Q [] f _ = tt
  All-mono P Q (x ∷ xs) f (p, ps) = (f x p, All-mono P Q xs f ps)

  pub filter-All : (p : A → Bool) (xs : List A) → All (λ x. p x ≡ true) (filter p xs)
  filter-All p [] = tt
  filter-All p (x ∷ xs) = ground (arith, filter-All p xs)

  pub All-filter {κ} :
      (P : A → Type κ) (p : A → Bool) (xs : List A) → All P xs → All P (filter p xs)
  All-filter P p [] _ = tt
  All-filter P p (x ∷ xs) (h, hs) = elim (Bool-cases (p x)) [
    | inl kept ↦ rw kept (h, All-filter P p xs hs)
    | inr dropped ↦ rw dropped (All-filter P p xs hs)
  ]

-- A test for an element, as Python's `in`, finds an equal one.
pub member_iff :
    {A : Type 0} ⦃e : Eq A⦄ (x : A) (xs : List A)
    → (any (λ y. y == x) xs ≡ true) ↔ Any (λ y. y ≡ x) xs
member_iff x [] = ground arith
member_iff ⦃e⦄ x (y ∷ ys) = ground (arith, e.beq_iff y x, member_iff x ys)

pub All-zip :
    {A : Type 0} (P Q : A → Type 0) (xs : List A) → All P xs → All Q xs → All (λ x. P x × Q x) xs
All-zip P Q [] _ _ = tt
All-zip P Q (x ∷ xs) (p, ps) (q, qs) = ((p, q), All-zip P Q xs ps qs)

-- Every element of a list is among its elements.
pub All-Any : {A : Type 0} (xs : List A) → All (λ s. Any (λ x. x ≡ s) xs) xs
All-Any [] = tt
All-Any (x ∷ xs) = (inl refl, All-mono _ _ xs (λ s h. inr h) (All-Any xs))

pub Any-of :
    {A : Type 0} (P : A → Type 0) (x : A) (xs : List A) → Any (λ y. y ≡ x) xs → P x → Any P xs
Any-of P x [] h p = absurd h
Any-of P x (y ∷ ys) (inl same) p = inl (subst P (sym same) p)
Any-of P x (y ∷ ys) (inr later) p = inr (Any-of P x ys later p)
