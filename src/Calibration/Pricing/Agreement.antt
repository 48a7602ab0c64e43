-- ===== src/Calibration/Pricing/Agreement.antt =====
-- The three price functions of the repository, side by side.
use ammba_uoc.Prelude.{◌≡◌, refl, false, arith}
use ammba_uoc.Arith.{Arith, ◌≼◌, unit, min_of, max_of, IsOrdered, IsRounded}
use ammba_uoc.Arith.Facts
use ammba_uoc.Clearing.Sigmoid as Node
use ammba_uoc.Settlement.Sigmoid as Execution
use ammba_uoc.Calibration.Pricing.{sigmoid_price_unclamped}

module _ {F : Type 0} ⦃a : Arith F⦄ where
  -- The execution node prices its counterfactuals as the clearing node prices a market.
  pub sigmoid_price-execution :
      (ratio k_upper k_lower theta steepness : F)
      → Execution.sigmoid_price ratio k_upper k_lower theta steepness
        ≡ Node.sigmoid_price ratio k_upper k_lower theta steepness
  unfolding Execution.sigmoid_price Node.sigmoid_price Execution.denominator_at Node.denominator
  sigmoid_price-execution ratio k_upper k_lower theta steepness = refl

  module _ (o : IsOrdered F) (r : IsRounded F) where
    -- Where the upper bound exceeds the lower one and the exponent is between -500 and 500, the
    -- clearing price is the price that the calibration works with, clamped into the band.
    pub sigmoid_price-unclamped :
        (ratio k_upper k_lower theta steepness : F)
        → a.le k_upper k_lower ≡ false
        → a.neg (a.dec 500 0) ≼ a.mul (a.neg steepness) (a.sub ratio theta)
        → a.mul (a.neg steepness) (a.sub ratio theta) ≼ a.dec 500 0
        → Node.sigmoid_price ratio k_upper k_lower theta steepness
          ≡ max_of k_lower
              (min_of k_upper (sigmoid_price_unclamped ratio k_upper k_lower theta steepness))
    unfolding Node.sigmoid_price Node.denominator sigmoid_price_unclamped
    sigmoid_price-unclamped ratio k_upper k_lower theta steepness band low high =
        let x = a.mul (a.neg steepness) (a.sub ratio theta) in
        let z = a.dec 500 0 in
        let top = a.dec 700 0 in
        let more = o.dec_mono 500 700 0 (omega arith) in
        let (nl, nx) = o.num_of_le (a.neg z) x low in
        let (_, nz) = o.num_of_le x z high in
        let (nl', _) = o.num_of_le _ _ (r.neg_antitone z top more) in
        let (_, nt) = o.num_of_le z top more in
        let one = r.le_add_right unit (a.exp x) (Facts.one_num o) (r.exp_nonneg x nx) in
        ground (
          arith,
          o.lt-eq-not-le z x nz nx,
          o.lt-eq-not-le x (a.neg z) nx nl,
          o.lt-eq-not-le top x nt nx,
          o.lt-eq-not-le x (a.neg top) nx nl',
          o.le_trans x z top high more,
          o.le_trans (a.neg top) (a.neg z) x (r.neg_antitone z top more) low,
          Facts.ne_zero_of_pos o _ (Facts.pos_of-one_le o _ one),
        )
