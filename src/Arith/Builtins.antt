-- ===== src/Arith/Builtins.antt =====
-- The operations on floats, the built-in functions of Python over them, and the laws.
use ammba_uoc.Prelude.{
  ℕ, ◌≤◌, ◌≡◌, ◌⊎◌, ◌↔◌, Bool, true, not, ◌&&◌, ◌||◌, List, if◌then◌else◌, Result, ok, err,
  zero_division,
}
use ammba_uoc.Prelude.Int.{ℤ, pos, ◌≤ℤ◌}

pub record Arith (F : Type 0) : Type 0 where
  -- `dec m k` is the literal `m * 10 ** -k`.
  pub dec : ℕ → ℕ → F
  pub inf : F
  pub add : F → F → F
  pub sub : F → F → F
  pub mul : F → F → F
  -- `x / y` for `y` other than zero
  pub div : F → F → F
  pub neg : F → F
  pub exp : F → F
  pub lt : F → F → Bool
  pub le : F → F → Bool
  pub eq : F → F → Bool
  -- `sum(xs)`, which compensates its roundings or not, as the version of Python has it
  pub sum_floats : List F → F
  -- `round(x)`, to an int, and `int(x)`, of a finite number
  pub round : F → ℤ
  pub trunc : F → ℤ
  -- an int where a float is wanted
  pub of_ℤ : ℤ → F

module _ {F : Type 0} ⦃a : Arith F⦄ where
  infix 4 ◌≼◌
  abbrev pub ◌≼◌ : F → F → Type 0
  x ≼ y = a.le x y ≡ true

  abbrev pub nought : F
  nought = a.dec 0 0

  abbrev pub unit : F
  unit = a.dec 1 0

  -- `min(x, y)` and `max(x, y)` keep the first argument unless the second is strictly beyond it.
  abbrev pub min_of : F → F → F
  min_of x y = if a.lt y x then y else x

  abbrev pub max_of : F → F → F
  max_of x y = if a.lt x y then y else x

  abbrev pub abs_of : F → F
  abs_of x = if a.lt x (a.dec 0 0) then a.neg x else x

  -- `x / y`, which raises on zero
  abbrev pub divide : F → F → Result F
  divide x y = if a.eq y (a.dec 0 0) then err zero_division else ok (a.div x y)

  abbrev pub sum : List F → F
  sum = a.sum_floats

  abbrev is_finite : F → Bool
  is_finite x = a.lt (abs_of x) a.inf

  -- `math.isclose(x, y, rel_tol=1e-9)`
  abbrev pub isclose : F → F → Bool
  isclose x y =
      a.eq x y
      || (is_finite x
          && (is_finite y
              && a.le (abs_of (a.sub x y)) (a.mul (a.dec 1 9) (max_of (abs_of x) (abs_of y)))))

-- The comparisons. NaN is the value that is not `<=` itself; with it every comparison fails.
pub record IsOrdered (F : Type 0) ⦃a : Arith F⦄ : Type 0 where
  pub num_of_le : (x y : F) → x ≼ y → (x ≼ x) × (y ≼ y)
  pub num_of_lt : (x y : F) → a.lt x y ≡ true → (x ≼ x) × (y ≼ y)
  pub le_trans : (x y z : F) → x ≼ y → y ≼ z → x ≼ z
  pub le_total : (x y : F) → x ≼ x → y ≼ y → (x ≼ y) ⊎ (y ≼ x)
  pub lt-eq-not-le : (x y : F) → x ≼ x → y ≼ y → a.lt x y ≡ not (a.le y x)
  pub eq_iff_le : (x y : F) → (a.eq x y ≡ true) ↔ ((x ≼ y) × (y ≼ x))
  pub dec_mono : (m n k : ℕ) → m ≤ n → a.dec m k ≼ a.dec n k
  pub zero_lt_one : a.lt (a.dec 0 0) (a.dec 1 0) ≡ true
  pub zero_le-dec : (m k : ℕ) → a.dec 0 0 ≼ a.dec m k

-- Correct rounding is monotone and leaves exact results alone. The laws speak of finite operands
-- and results: overflow to infinity is outside of them.
pub record IsRounded (F : Type 0) ⦃a : Arith F⦄ : Type 0 where
  pub sub_nonneg : (x y : F) → y ≼ x → a.dec 0 0 ≼ a.sub x y
  pub sub_le : (x y : F) → x ≼ x → a.dec 0 0 ≼ y → a.sub x y ≼ x
  pub sub_nonpos : (x y : F) → x ≼ y → a.sub x y ≼ a.dec 0 0
  pub sub_antitone : (x y z : F) → z ≼ z → x ≼ y → a.sub z y ≼ a.sub z x
  pub sub_mono : (x y z : F) → z ≼ z → x ≼ y → a.sub x z ≼ a.sub y z
  pub le_add_right : (x y : F) → x ≼ x → a.dec 0 0 ≼ y → x ≼ a.add x y
  pub le_add_left : (x y : F) → y ≼ y → a.dec 0 0 ≼ x → y ≼ a.add x y
  pub mul_mono : (x y z : F) → x ≼ y → a.dec 0 0 ≼ z → a.mul x z ≼ a.mul y z
  pub mul_mono_right : (x y z : F) → x ≼ y → a.dec 0 0 ≼ z → a.mul z x ≼ a.mul z y
  pub mul_zero_left :
      (x : F) → x ≼ x → (a.mul (a.dec 0 0) x ≼ a.dec 0 0) × (a.dec 0 0 ≼ a.mul (a.dec 0 0) x)
  pub mul_one_left : (x : F) → x ≼ x → (a.mul (a.dec 1 0) x ≼ x) × (x ≼ a.mul (a.dec 1 0) x)
  pub mul_one_right : (x : F) → x ≼ x → (a.mul x (a.dec 1 0) ≼ x) × (x ≼ a.mul x (a.dec 1 0))
  pub div_nonneg : (x y : F) → a.dec 0 0 ≼ x → a.lt (a.dec 0 0) y ≡ true → a.dec 0 0 ≼ a.div x y
  pub div_le_one : (x y : F) → x ≼ y → a.lt (a.dec 0 0) y ≡ true → a.div x y ≼ a.dec 1 0
  pub div_mono : (x y z : F) → x ≼ y → a.lt (a.dec 0 0) z ≡ true → a.div x z ≼ a.div y z
  pub div_antitone :
      (x y z : F) → a.dec 0 0 ≼ z → a.lt (a.dec 0 0) x ≡ true → x ≼ y → a.div z y ≼ a.div z x
  pub neg_mul_antitone : (x y z : F) → x ≼ y → a.dec 0 0 ≼ z → a.mul (a.neg z) y ≼ a.mul (a.neg z) x
  pub neg_antitone : (x y : F) → x ≼ y → a.neg y ≼ a.neg x
  pub exp_mono : (x y : F) → x ≼ y → a.exp x ≼ a.exp y
  pub exp_nonneg : (x : F) → x ≼ x → a.dec 0 0 ≼ a.exp x
  pub exp_le_inf : (x : F) → x ≼ a.dec 500 0 → a.add (a.dec 1 0) (a.exp x) ≼ a.inf
  pub add_mono_right : (x y z : F) → z ≼ z → x ≼ y → a.add z x ≼ a.add z y
  pub round_mono : (x y : F) → x ≼ y → a.round x ≤ℤ a.round y
  -- an int over 10000 and back, which is exact far beyond the energies of a market
  pub round_scaled :
      (n : ℤ) → a.round (a.mul (a.div (a.of_ℤ n) (a.dec 10_000 0)) (a.dec 10_000 0)) ≡ n
  pub trunc_mono : (x y : F) → x ≼ y → a.trunc x ≤ℤ a.trunc y
  pub of_ℤ_mono : (m n : ℤ) → m ≤ℤ n → a.of_ℤ m ≼ a.of_ℤ n
  pub of_ℤ_nonneg : (n : ℕ) → a.dec 0 0 ≼ a.of_ℤ (pos n)
