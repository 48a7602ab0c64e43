-- ===== src/Arith/Fixed.antt =====
-- Numbers with four decimals, rounded toward zero: a value that meets the laws of `Arith`.
use ammba_uoc.Prelude.{foldl, ℕ, suc, ◌+◌, ◌-◌, ◌*◌, ◌/◌, ◌^◌, ◌≤◌, ◌<◌, ◌≡◌, refl, arith}
use ammba_uoc.Prelude.Int.{ℤ, pos, negsuc, pos_part, neg_part, sub_ℕ, ltb_ℤ, leb_ℤ, beq_ℤ}
use mathlib.Core.Bool.{true}
use native.Mathlib.Nat.{
  le-div_iff_mul-le, div-mul-le_self, div-le_of_le-mul, mul-le-mul_left, mul-le-mul_right,
}
use ammba_uoc.Arith.Builtins.{Arith, IsOrdered, IsRounded}

-- the multiples of 1/10000
abbrev pub Fixed : Type 0
Fixed = ℤ

abbrev pub negate : ℤ → ℤ
negate z = sub_ℕ (neg_part z) (pos_part z)

abbrev pub mul_fixed : ℤ → ℤ → ℤ
mul_fixed (pos x) (pos y) = pos (x * y / 10_000)
mul_fixed (pos x) (negsuc y) = sub_ℕ 0 (x * suc y / 10_000)
mul_fixed (negsuc x) (pos y) = sub_ℕ 0 (suc x * y / 10_000)
mul_fixed (negsuc x) (negsuc y) = pos (suc x * suc y / 10_000)

abbrev pub div_fixed : ℤ → ℤ → ℤ
div_fixed (pos x) (pos y) = pos (x * 10_000 / y)
div_fixed (pos x) (negsuc y) = sub_ℕ 0 (x * 10_000 / suc y)
div_fixed (negsuc x) (pos y) = sub_ℕ 0 (suc x * 10_000 / y)
div_fixed (negsuc x) (negsuc y) = pos (suc x * 10_000 / suc y)

-- a coarse exponential: 1 + x, and 0 below -1
abbrev pub exp_fixed : ℤ → ℤ
exp_fixed z = pos (10_000 + pos_part z - neg_part z)

-- to the nearest integer, halves away from zero
abbrev pub round_fixed : ℤ → ℤ
round_fixed (pos x) = pos ((x + 5000) / 10_000)
round_fixed (negsuc x) = sub_ℕ 0 ((suc x + 5000) / 10_000)

abbrev pub trunc_fixed : ℤ → ℤ
trunc_fixed (pos x) = pos (x / 10_000)
trunc_fixed (negsuc x) = sub_ℕ 0 (suc x / 10_000)

abbrev pub of_ℤ_fixed : ℤ → ℤ
of_ℤ_fixed (pos x) = pos (x * 10_000)
of_ℤ_fixed (negsuc x) = sub_ℕ 0 (suc x * 10_000)

instance abbrev pub fixed_arith : Arith Fixed
fixed_arith = record {
  dec = λ m k. pos (m * 10_000 / 10 ^ k);
  inf = pos (10 ^ 20);
  add = λ x y. sub_ℕ (pos_part x + pos_part y) (neg_part x + neg_part y);
  sub = λ x y. sub_ℕ (pos_part x + neg_part y) (neg_part x + pos_part y);
  mul = mul_fixed;
  div = div_fixed;
  neg = negate;
  exp = exp_fixed;
  lt = ltb_ℤ;
  le = leb_ℤ;
  eq = beq_ℤ;
  sum_floats = foldl (λ x y. sub_ℕ (pos_part x + pos_part y) (neg_part x + neg_part y)) (pos 0);
  round = round_fixed;
  trunc = trunc_fixed;
  of_ℤ = of_ℤ_fixed;
}

div-le-div : (x y n : ℕ) → x ≤ y → x / n ≤ y / n
div-le-div x y n h = grind arith

div-le-div_left : (z x y : ℕ) → 0 < x → x ≤ y → z / y ≤ z / x
div-le-div_left z x y p h = (le-div_iff_mul-le p).1 (grind (arith, div-mul-le_self z y))

-- the same for a product with a common factor, on either side
times_mono : (x y z : ℕ) → x ≤ y → x * z / 10_000 ≤ y * z / 10_000
times_mono x y z h = div-le-div (x * z) (y * z) 10_000 (mul-le-mul_right z h)

times_mono_left : (x y z : ℕ) → x ≤ y → z * x / 10_000 ≤ z * y / 10_000
times_mono_left x y z h = div-le-div (z * x) (z * y) 10_000 (mul-le-mul_left z h)

over_mono : (x y z : ℕ) → x ≤ y → x * 10_000 / z ≤ y * 10_000 / z
over_mono x y z h = div-le-div (x * 10_000) (y * 10_000) z (omega arith)

mul_fixed_mono :
    (x y z : ℤ)
    → leb_ℤ x y ≡ true
    → leb_ℤ (pos 0) z ≡ true
    → leb_ℤ (mul_fixed x z) (mul_fixed y z) ≡ true
mul_fixed_mono (pos x) (pos y) (pos z) h k = ground (arith, times_mono x y z)
mul_fixed_mono (negsuc x) (negsuc y) (pos z) h k = ground (arith, times_mono (suc y) (suc x) z)
mul_fixed_mono x y z h k = ground arith

mul_fixed_mono_right :
    (x y z : ℤ)
    → leb_ℤ x y ≡ true
    → leb_ℤ (pos 0) z ≡ true
    → leb_ℤ (mul_fixed z x) (mul_fixed z y) ≡ true
mul_fixed_mono_right (pos x) (pos y) (pos z) h k = ground (arith, times_mono_left x y z)
mul_fixed_mono_right (negsuc x) (negsuc y) (pos z) h k =
    ground (arith, times_mono_left (suc y) (suc x) z)
mul_fixed_mono_right x y z h k = ground arith

neg_mul_fixed_antitone :
    (x y z : ℤ)
    → leb_ℤ x y ≡ true
    → leb_ℤ (pos 0) z ≡ true
    → leb_ℤ (mul_fixed (negate z) y) (mul_fixed (negate z) x) ≡ true
neg_mul_fixed_antitone (pos x) (pos y) (pos (suc z)) h k =
    ground (arith, times_mono_left x y (suc z))
neg_mul_fixed_antitone (negsuc x) (negsuc y) (pos (suc z)) h k =
    ground (arith, times_mono_left (suc y) (suc x) (suc z))
neg_mul_fixed_antitone x y z h k = ground arith

div_fixed_mono :
    (x y z : ℤ)
    → leb_ℤ x y ≡ true
    → ltb_ℤ (pos 0) z ≡ true
    → leb_ℤ (div_fixed x z) (div_fixed y z) ≡ true
div_fixed_mono (pos x) (pos y) (pos z) h k = ground (arith, over_mono x y z)
div_fixed_mono (negsuc x) (negsuc y) (pos z) h k = ground (arith, over_mono (suc y) (suc x) z)
div_fixed_mono x y z h k = ground arith

div_fixed_antitone :
    (x y z : ℤ)
    → leb_ℤ (pos 0) z ≡ true
    → ltb_ℤ (pos 0) x ≡ true
    → leb_ℤ x y ≡ true
    → leb_ℤ (div_fixed z y) (div_fixed z x) ≡ true
div_fixed_antitone (pos x) (pos y) (pos z) h k l = ground (arith, div-le-div_left (z * 10_000) x y)
div_fixed_antitone x y z h k l = ground arith

div_fixed_le_one :
    (x y : ℤ)
    → leb_ℤ x y ≡ true
    → ltb_ℤ (pos 0) y ≡ true
    → leb_ℤ (div_fixed x y) (pos 10_000) ≡ true
div_fixed_le_one (pos x) (pos y) h k =
    ground (arith, div-le_of_le-mul y {m = x * 10_000} {n = 10_000} (ground arith))
div_fixed_le_one x y h k = ground arith

round_scaled_fixed :
    (n : ℤ)
    → round_fixed (mul_fixed (div_fixed (of_ℤ_fixed n) (pos 100_000_000)) (pos 100_000_000)) ≡ n
round_scaled_fixed (pos n) = ground arith
round_scaled_fixed (negsuc n) = ground arith

trunc_fixed_mono :
    (x y : ℤ)
    → leb_ℤ x y ≡ true
    → pos_part (trunc_fixed x) + neg_part (trunc_fixed y)
      ≤ pos_part (trunc_fixed y) + neg_part (trunc_fixed x)
trunc_fixed_mono (pos x) (pos y) h = ground (arith, div-le-div x y 10_000)
trunc_fixed_mono (negsuc x) (negsuc y) h = ground (arith, div-le-div (suc y) (suc x) 10_000)
trunc_fixed_mono (negsuc x) (pos y) h = ground arith
trunc_fixed_mono (pos x) (negsuc y) h = ground arith

of_ℤ_fixed_mono :
    (m n : ℤ)
    → pos_part m + neg_part n ≤ pos_part n + neg_part m
    → leb_ℤ (of_ℤ_fixed m) (of_ℤ_fixed n) ≡ true
of_ℤ_fixed_mono (pos x) (pos y) h = ground arith
of_ℤ_fixed_mono (pos x) (negsuc y) h = ground arith
of_ℤ_fixed_mono (negsuc x) (pos y) h = ground arith
of_ℤ_fixed_mono (negsuc x) (negsuc y) h = ground arith

pub Fixed-IsOrdered : IsOrdered Fixed
Fixed-IsOrdered = record {
  num_of_le = λ x y h. ground arith;
  num_of_lt = λ x y h. ground arith;
  le_trans = λ x y z h k. ground arith;
  le_total = λ x y h k. ground arith;
  lt-eq-not-le = λ x y h k. ground arith;
  eq_iff_le = λ x y. ground arith;
  dec_mono = λ m n k h. ground (arith, div-le-div (m * 10_000) (n * 10_000) (10 ^ k));
  zero_lt_one = refl;
  zero_le-dec = λ m k. ground arith;
}

pub Fixed-IsRounded : IsRounded Fixed
Fixed-IsRounded = record {
  sub_nonneg = λ x y h. ground arith;
  sub_le = λ x y h k. ground arith;
  sub_nonpos = λ x y h. ground arith;
  sub_antitone = λ x y z h k. ground arith;
  sub_mono = λ x y z h k. ground arith;
  le_add_right = λ x y h k. ground arith;
  le_add_left = λ x y h k. ground arith;
  mul_mono = mul_fixed_mono;
  mul_mono_right = mul_fixed_mono_right;
  mul_zero_left = λ x h. ground arith;
  mul_one_left = λ x h. ground arith;
  mul_one_right = λ x h. ground arith;
  neg_antitone = λ x y h. ground arith;
  div_nonneg = λ x y h k. ground arith;
  div_le_one = div_fixed_le_one;
  div_mono = div_fixed_mono;
  div_antitone = div_fixed_antitone;
  neg_mul_antitone = neg_mul_fixed_antitone;
  exp_mono = λ x y h. ground arith;
  exp_nonneg = λ x h. ground arith;
  exp_le_inf = λ x h. ground arith;
  add_mono_right = λ x y z h k. ground arith;
  round_mono = λ x y h. ground arith;
  round_scaled = round_scaled_fixed;
  trunc_mono = trunc_fixed_mono;
  of_ℤ_mono = of_ℤ_fixed_mono;
  of_ℤ_nonneg = λ n. ground arith;
}
