-- ===== src/Calibration/Optimizer/Refinement.antt =====
-- amm-calibration/src/optimizer.py, `optimize_params`: a coarse search, and a fine one around its point.
use ammba_uoc.Prelude.{
  ℕ, ◌≤◌, ◌≡◌, ◌∙◌, ap, Option, some, List, length, Result, ok, type_error, or_raise, ◌>>=◌,
}
use ammba_uoc.Arith.{Arith, ◌≼◌, min_of, max_of, IsOrdered}
use ammba_uoc.Calibration.Optimizer.{Slot, Point, valid, point_at, grid_min}
use ammba_uoc.Calibration.Optimizer.Grid.{grid_min_lem}

-- What `optimize_params` returns.
pub record Calibrated (F : Type 0) : Type 0 where
  pub theta : F
  pub steepness : F
  pub objective : F
  pub alpha : F
  pub n_slots : ℕ

-- A range of one of the parameters.
pub record Range (F : Type 0) : Type 0 where
  pub lo : F
  pub hi : F

module _ {F : Type 0} ⦃a : Arith F⦄ where
  -- `DEFAULT_ALPHA`
  unfoldable pub default_alpha : F
  default_alpha = a.dec 5 1

  -- the range of both parameters in `DEFAULT_BOUNDS`
  unfoldable pub default_bounds : Range F
  default_bounds = record { lo = a.dec 0 0; hi = a.dec 50 0 }

  -- The part of a range within one coarse step of a value.
  unfoldable pub around : Range F → F → Range F
  around range value =
      let width = a.div (a.sub range.hi range.lo) (a.dec 50 0) in
      record { lo = max_of range.lo (a.sub value width); hi = min_of range.hi (a.add value width) }

  abbrev pub search_box : List (Slot F) → F → Range F → Range F → ℕ → Option (Point F)
  search_box slots alpha theta b steps = grid_min slots alpha theta.lo theta.hi b.lo b.hi steps

  abbrev pub box_point : List (Slot F) → F → Range F → Range F → ℕ → ℕ → ℕ → Point F
  box_point slots alpha theta b steps i j =
      point_at slots alpha theta.lo theta.hi b.lo b.hi steps i j

  -- `round(x, 4)` is a parameter.
  unfoldable pub calibrated : (F → F) → List (Slot F) → F → Point F → Calibrated F
  unfolding valid
  calibrated round4 slots alpha fine = record {
    theta = round4 fine.theta;
    steepness = round4 fine.steepness;
    objective = fine.value;
    alpha = alpha;
    n_slots = length (valid slots);
  }

  -- The fine search, around a point of the coarse one.
  abbrev pub search_around : List (Slot F) → F → Range F → Range F → Point F → Option (Point F)
  search_around slots alpha theta b coarse =
      search_box slots alpha (around theta coarse.theta) (around b coarse.steepness) 40

  -- A search that found nothing cannot be unpacked.
  unfoldable pub refined :
      (F → F) → List (Slot F) → F → Range F → Range F → Point F → Result (Calibrated F)
  unfolding grid_min around calibrated
  refined round4 slots alpha theta b coarse = do
    fine ← or_raise (search_around slots alpha theta b coarse) type_error
    ok (calibrated round4 slots alpha fine)

  unfoldable pub optimize_params :
      (F → F) → List (Slot F) → F → Range F → Range F → Result (Calibrated F)
  unfolding refined grid_min
  optimize_params round4 slots alpha theta b =
      or_raise (search_box slots alpha theta b 50) type_error >>= refined round4 slots alpha theta b

  module _ (o : IsOrdered F) (round4 : F → F) (slots : List (Slot F)) (alpha : F)
      (theta b : Range F)
      (coarse_numbers : (i j : ℕ)
        → i ≤ 50
        → j ≤ 50
        → (box_point slots alpha theta b 50 i j).value
          ≼ (box_point slots alpha theta b 50 i j).value)
      (fine_numbers : (coarse : Point F)
        → search_box slots alpha theta b 50 ≡ some coarse
        → (k l : ℕ) → k ≤ 40
        → l ≤ 40
        → (box_point slots alpha
            (around theta coarse.theta)
            (around b coarse.steepness)
            40
            k
            l).value
          ≼ (box_point slots alpha
              (around theta coarse.theta)
              (around b coarse.steepness)
              40
              k
              l).value) where
    returned :
        (coarse fine : Point F)
        → search_box slots alpha theta b 50 ≡ some coarse
        → search_around slots alpha theta b coarse ≡ some fine
        → optimize_params round4 slots alpha theta b ≡ ok (calibrated round4 slots alpha fine)
    unfolding optimize_params refined
    returned coarse fine e e' =
        ap (λ found. or_raise found type_error >>= refined round4 slots alpha theta b) e
        ∙ ap (λ found. do p ← or_raise found type_error; ok (calibrated round4 slots alpha p)) e'

    -- If the objective is a number at the points of the coarse grid, and at those of the fine grid around
    -- the point that the coarse search returns, a calibration returns: it reports the point of the fine
    -- search around the point of the coarse one. The coarse point is no worse than any point of the
    -- coarse grid, and the fine point no worse than any of the fine grid.
    pub optimize_params_lem :
        (i j k l : ℕ)
        → i ≤ 50
        → j ≤ 50
        → k ≤ 40
        → l ≤ 40
        → (coarse : Point F) × ((fine : Point F) × ((search_box slots alpha theta b 50
                ≡ some coarse)
              × ((search_around slots alpha theta b coarse ≡ some fine)
                  × ((optimize_params round4 slots alpha theta b
                        ≡ ok (calibrated round4 slots alpha fine))
                      × ((coarse.value ≼ (box_point slots alpha theta b 50 i j).value)
                          × (fine.value
                              ≼ (box_point slots alpha
                                  (around theta coarse.theta)
                                  (around b coarse.steepness)
                                  40
                                  k
                                  l).value))))))
    unfolding optimize_params
    optimize_params_lem i j k l pi pj pk pl =
        let (coarse, e, least) =
          grid_min_lem o slots alpha theta.lo theta.hi b.lo b.hi 50 i j coarse_numbers pi pj in
        let t = around theta coarse.theta in
        let s = around b coarse.steepness in
        let (fine, e', least') =
          grid_min_lem o slots alpha t.lo t.hi s.lo s.hi 40 k l (fine_numbers coarse e) pk pl in
        (coarse, (fine, (e, (e', (returned coarse fine e e', (least, least'))))))
