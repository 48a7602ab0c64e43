-- ===== src/Calibration/Pricing.antt =====
-- amm-calibration/src/pricing.py: the price function without the clamp.
pub mod Agreement
use ammba_uoc.Prelude.{if◌then◌else◌}
use ammba_uoc.Arith.{Arith}

module _ {F : Type 0} ⦃a : Arith F⦄ where
  unfoldable pub sigmoid_price_unclamped : (ratio k_upper k_lower theta steepness : F) → F
  sigmoid_price_unclamped ratio k_upper k_lower theta steepness =
      let exponent = a.mul (a.neg steepness) (a.sub ratio theta) in
      if a.le k_upper k_lower
      then k_lower
      else if a.lt (a.dec 700 0) exponent
      then k_upper
      else if a.lt exponent (a.neg (a.dec 700 0))
      then k_lower
      else a.sub k_upper (a.div (a.sub k_upper k_lower) (a.add (a.dec 1 0) (a.exp exponent)))
