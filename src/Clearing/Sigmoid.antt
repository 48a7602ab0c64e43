-- ===== src/Clearing/Sigmoid.antt =====
-- amm-clearing-node/src/sigmoid.py: the price function and the integer scale of the exchange.
pub mod Shape
use ammba_uoc.Prelude.{ℕ, Bool, if◌then◌else◌}
use ammba_uoc.Prelude.Int.{ℤ}
use ammba_uoc.Arith.{Arith, min_of, max_of}

abbrev pub node_float_scaling_factor : ℕ
node_float_scaling_factor = 10_000

module _ {F : Type 0} ⦃a : Arith F⦄ where
  unfoldable pub to_node_int : F → ℤ
  to_node_int float_val = a.round (a.mul float_val (a.dec node_float_scaling_factor 0))

  unfoldable pub from_node_int : ℤ → F
  from_node_int int_val = a.div (a.of_ℤ int_val) (a.dec node_float_scaling_factor 0)

  -- the guarded denominator `1 + exp(exponent)`
  unfoldable pub denominator : F → F
  denominator exponent =
      if a.lt (a.dec 500 0) exponent
      then a.inf
      else if a.lt exponent (a.neg (a.dec 500 0))
      then a.dec 1 0
      else a.add (a.dec 1 0) (a.exp exponent)

  unfoldable pub sigmoid_price : (ratio k_upper k_lower theta steepness : F) → F
  sigmoid_price ratio k_upper k_lower theta steepness =
      if a.le k_upper k_lower
      then k_lower
      else let d = denominator (a.mul (a.neg steepness) (a.sub ratio theta)) in
        if a.eq d (a.dec 0 0)
        then k_lower
        else max_of k_lower (min_of k_upper (a.sub k_upper (a.div (a.sub k_upper k_lower) d)))
