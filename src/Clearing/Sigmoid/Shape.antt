-- ===== src/Clearing/Sigmoid/Shape.antt =====
-- The price lies in the community's band, and falls as supply grows.
use ammba_uoc.Prelude.{◌≡◌, false, arith}
use ammba_uoc.Arith.{Arith, ◌≼◌, nought, unit, min_of, max_of, IsOrdered, IsRounded}
use ammba_uoc.Arith.Facts
use ammba_uoc.Clearing.Sigmoid.{denominator, sigmoid_price}

module _ {F : Type 0} ⦃a : Arith F⦄ (o : IsOrdered F) where
  open o use {num_of_le, le_trans, zero_le-dec}

  clamp_bounds :
      (lo hi x : F) → lo ≼ hi → (lo ≼ max_of lo (min_of hi x)) × (max_of lo (min_of hi x) ≼ hi)
  clamp_bounds lo hi x h =
      let n = num_of_le lo hi h in
      (
        Facts.le-max_of_left o lo (min_of hi x) n.0,
        Facts.max_of-le o lo (min_of hi x) hi h (Facts.min_of-le_left o hi x n.1),
      )

  -- The price of the clearing node lies between the lower and the upper bound of a community's
  -- band, for every ratio, midpoint and steepness, NaN included.
  pub sigmoid_price_bounds :
      (ratio k_upper k_lower theta steepness : F)
      → k_lower ≼ k_upper
      → (k_lower ≼ sigmoid_price ratio k_upper k_lower theta steepness)
        × (sigmoid_price ratio k_upper k_lower theta steepness ≼ k_upper)
  unfolding sigmoid_price
  sigmoid_price_bounds ratio k_upper k_lower theta steepness h =
      let n = num_of_le k_lower k_upper h in
      let d = denominator (a.mul (a.neg steepness) (a.sub ratio theta)) in
      ground
        (arith, clamp_bounds k_lower k_upper (a.sub k_upper (a.div (a.sub k_upper k_lower) d)) h)

  module _ (r : IsRounded F) where
    open r use {
      sub_mono, sub_antitone, sub_nonneg, neg_mul_antitone, exp_mono, exp_nonneg, exp_le_inf,
      add_mono_right, le_add_right, div_antitone,
    }

    one_le-inf : unit ≼ a.inf
    one_le-inf =
        let n = Facts.zero_num o in
        le_trans unit _ a.inf
          (le_add_right unit (a.exp nought) (Facts.one_num o) (exp_nonneg nought n))
          (exp_le_inf nought (zero_le-dec 500 0))

    one_le-denominator : (x : F) → x ≼ x → unit ≼ denominator x
    unfolding denominator
    one_le-denominator x n = ground (
      arith,
      Facts.one_num o,
      one_le-inf,
      le_add_right unit (a.exp x) (Facts.one_num o) (exp_nonneg x n),
    )

    denominator_mono : (x y : F) → x ≼ y → denominator x ≼ denominator y
    unfolding denominator
    denominator_mono x y h =
        let n = num_of_le x y h in
        let m = num_of_le nought (a.dec 500 0) (zero_le-dec 500 0) in
        ground (
          arith,
          num_of_le unit a.inf one_le-inf,
          Facts.one_num o,
          one_le-inf,
          le_add_right unit (a.exp y) (Facts.one_num o) (exp_nonneg y n.1),
          Facts.lt_of_lt-le o (a.dec 500 0) x y,
          Facts.lt_of_le-lt o x y (a.neg (a.dec 500 0)),
          λ (e : a.lt (a.dec 500 0) x ≡ false).
              exp_le_inf x (Facts.le_of_not-lt o (a.dec 500 0) x m.1 n.0 e),
          add_mono_right (a.exp x) (a.exp y) unit (Facts.one_num o) (exp_mono x y h),
        )

    abbrev raw : F → F → F → F
    raw hi lo d = max_of lo (min_of hi (a.sub hi (a.div (a.sub hi lo) d)))

    raw_mono : (hi lo d d' : F) → lo ≼ hi → unit ≼ d → d ≼ d' → raw hi lo d ≼ raw hi lo d'
    raw_mono hi lo d d' h p e =
        let n = num_of_le lo hi h in
        let span =
          div_antitone d d' (a.sub hi lo) (sub_nonneg hi lo h) (Facts.pos_of-one_le o d p) e in
        Facts.max_of_mono o _ _ lo n.0
          (Facts.min_of_mono o _ _ hi n.1 (sub_antitone _ _ hi n.1 span))

    -- A higher ratio of supply to demand never raises the price of the clearing node, for a band
    -- whose lower bound is at most its upper bound, a midpoint that is no NaN and a steepness of
    -- zero or more.
    pub sigmoid_price_antitone :
        (ratio ratio' k_upper k_lower theta steepness : F)
        → k_lower ≼ k_upper
        → theta ≼ theta
        → nought ≼ steepness
        → ratio ≼ ratio'
        → sigmoid_price ratio' k_upper k_lower theta steepness
          ≼ sigmoid_price ratio k_upper k_lower theta steepness
    unfolding sigmoid_price
    sigmoid_price_antitone ratio ratio' hi lo theta steepness h t s e =
        let x = a.mul (a.neg steepness) (a.sub ratio' theta) in
        let y = a.mul (a.neg steepness) (a.sub ratio theta) in
        let less : x ≼ y = neg_mul_antitone _ _ steepness (sub_mono ratio ratio' theta t e) s in
        let n = num_of_le x y less in
        let p = one_le-denominator x n.0 in
        let q = one_le-denominator y n.1 in
        ground (
          arith,
          num_of_le lo hi h,
          Facts.ne_zero_of_pos o _ (Facts.pos_of-one_le o (denominator x) p),
          Facts.ne_zero_of_pos o _ (Facts.pos_of-one_le o (denominator y) q),
          raw_mono hi lo (denominator x) (denominator y) h p (denominator_mono x y less),
        )
