-- ===== src/Prelude/Outcome.antt =====
-- Python exceptions as values. `Result A` is the outcome of code that returns an `A` or raises.
use mathlib.Core.Path.{◌≡◌, refl, sym, ap, subst}
use mathlib.Core.Logic.{◌↔◌, ◌⊎◌, inl, inr}
use mathlib.Core.Bool.{Bool, true, false}
use mathlib.Core.List.{List, [], ◌∷◌}
use mathlib.Core.Option.{Option, none, some}
use native.Mathlib.Omega.{arith}
use ammba_uoc.Prelude.Tests.{if◌then◌else◌}

-- The exception classes that the code raises or catches.
pub data Exn : Type 0 where
  value_error key_error type_error zero_division runtime_error ewds_error ewds_timeout : Exn
  schema_error transport_error http_error attribute_error overflow_error json_error : Exn

pub data Result {ℓ} (A : Type ℓ) : Type ℓ where
  ok : A → Result A
  err : Exn → Result A

infixl 5 ◌>>=◌ ◌>>◌
abbrev pub ◌>>=◌ {ℓ κ} : {A : Type ℓ} {B : Type κ} → Result A → (A → Result B) → Result B
err e >>= k = err e
ok x >>= k = k x

abbrev pub ◌>>◌ {ℓ} : {B : Type ℓ} → Result (Unit {0}) → Result B → Result B
first >> second = first >>= λ _. second

abbrev pub raise_if : Bool → Exn → Result (Unit {0})
raise_if true e = err e
raise_if false e = ok tt

-- A loop that stops at the first exception.
unfoldable pub map_result {ℓ κ} :
    {A : Type ℓ} {B : Type κ} → (A → Result B) → List A → Result (List B)
map_result f [] = ok []
map_result f (x ∷ xs) = do y ← f x; ys ← map_result f xs; ok (y ∷ ys)

pub Result-cases {ℓ} :
    {A : Type ℓ} (r : Result A) → ((a : A) × (r ≡ ok a)) ⊎ ((e : Exn) × (r ≡ err e))
Result-cases (ok a) = inl (a, refl)
Result-cases (err e) = inr (e, refl)

-- The value of an option, or the exception of code that finds nothing.
abbrev pub or_raise {ℓ} : {A : Type ℓ} → Option A → Exn → Result A
or_raise none e = err e
or_raise (some a) e = ok a

-- A statement about the value, if code returns one. As a family, so that `search` can apply the rules.
pub data Post {ℓ κ} {A : Type ℓ} (P : A → Type κ) : Result A → Type (ℓ ⊔ κ) where
  returns : {a : A} → P a → Post P (ok a)
  raises : {e : Exn} → Post P (err e)

pub Post->>= {ℓ κ λ'} :
    {A : Type ℓ} {B : Type κ} {P : B → Type λ'} (m : Result A) (f : A → Result B)
    → ((x : A) → Post P (f x))
    → Post P (m >>= f)
Post->>= (ok a) f h = h a
Post->>= (err e) f h = raises

-- The same with what is known of the value of the first part.
pub Post->>=_eq {ℓ κ λ'} :
    {A : Type ℓ} {B : Type κ} {P : B → Type λ'} (m : Result A) (f : A → Result B)
    → ((x : A) → m ≡ ok x → Post P (f x))
    → Post P (m >>= f)
Post->>=_eq (ok a) f h = h a refl
Post->>=_eq (err e) f h = raises

pub Post-ok_intro {ℓ κ} :
    {A : Type ℓ} {P : A → Type κ} (r : Result A) → ((a : A) → r ≡ ok a → P a) → Post P r
Post-ok_intro (ok a) h = returns (h a refl)
Post-ok_intro (err e) h = raises

pub Post-if {ℓ κ} :
    {A : Type ℓ} {P : A → Type κ} (b : Bool) (r s : Result A)
    → Post P r
    → Post P s
    → Post P (if b then r else s)
Post-if true r s h k = h
Post-if false r s h k = k

pub Post-mono {ℓ κ λ'} :
    {A : Type ℓ} {P : A → Type κ} {Q : A → Type λ'} {r : Result A}
    → Post P r
    → ((a : A) → P a → Q a)
    → Post Q r
Post-mono (returns {a = x} h) f = returns (f x h)
Post-mono raises f = raises

Result-value {ℓ} : {A : Type ℓ} → A → Result A → A
Result-value d (ok a) = a
Result-value d (err e) = d

pub Post-ok {ℓ κ} : {A : Type ℓ} {P : A → Type κ} {r : Result A} {a : A} → Post P r → r ≡ ok a → P a
unfolding Result-value
Post-ok {P} {a = b} (returns {a = x} h) e = subst P (ap (Result-value b) e) h
Post-ok {r} raises e = cc

pub ok-injective {ℓ} : {A : Type ℓ} {x y : A} → ok x ≡ ok y → x ≡ y
unfolding Result-value
ok-injective {x} e = ap (Result-value x) e

pub raise_if-ok : (b : Bool) (e : Exn) (x : Unit {0}) → raise_if b e ≡ ok x → b ≡ false
raise_if-ok true e x h = absurd (ground arith)
raise_if-ok false e x h = refl

pub bind-ok_iff {ℓ κ} :
    {A : Type ℓ} {B : Type κ} (m : Result A) (f : A → Result B) (y : B)
    → ((m >>= f) ≡ ok y) ↔ ((x : A) × ((m ≡ ok x) × (f x ≡ ok y)))
bind-ok_iff (ok x) f y =
    (λ e. (x, (refl, e)), λ (z, (e, h)). subst (λ w. f w ≡ ok y) (sym (ok-injective e)) h)
bind-ok_iff (err e) f y = (λ h. absurd (ground arith), λ (z, (e', h)). absurd (ground arith))

pub ruleset post_rules = (Post->>=, Post-if, raises)
