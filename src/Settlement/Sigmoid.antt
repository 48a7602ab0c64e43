-- ===== src/Settlement/Sigmoid.antt =====
-- amm-execution-node/src/sigmoid.py: the price function of the counterfactuals, kept beside the
-- one of the clearing node.
use ammba_uoc.Prelude.{if◌then◌else◌}
use ammba_uoc.Arith.{Arith, min_of, max_of}

module _ {F : Type 0} ⦃a : Arith F⦄ where
  -- the denominator of lines 25 to 30
  unfoldable pub denominator_at : F → F
  denominator_at exponent =
      if a.lt (a.dec 500 0) exponent
      then a.inf
      else if a.lt exponent (a.neg (a.dec 500 0))
      then a.dec 1 0
      else a.add (a.dec 1 0) (a.exp exponent)

  unfoldable pub sigmoid_price : (ratio k_upper k_lower theta steepness : F) → F
  sigmoid_price ratio k_upper k_lower theta steepness =
      if a.le k_upper k_lower
      then k_lower
      else let d = denominator_at (a.mul (a.neg steepness) (a.sub ratio theta)) in
        if a.eq d (a.dec 0 0)
        then k_lower
        else max_of k_lower (min_of k_upper (a.sub k_upper (a.div (a.sub k_upper k_lower) d)))
