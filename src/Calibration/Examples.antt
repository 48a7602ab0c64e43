-- ===== src/Calibration/Examples.antt =====
-- The theorems of the calibration at concrete inputs, with the numbers of `Fixed`.
use ammba_uoc.Prelude.{ok, ℕ, ◌≡◌, refl, some, List, [], ◌∷◌, arith}
use ammba_uoc.Arith.{◌≼◌, max_of, min_of}
use ammba_uoc.Arith.Fixed.{Fixed, fixed_arith, Fixed-IsOrdered, Fixed-IsRounded}
use ammba_uoc.Clearing.Sigmoid as Node
use ammba_uoc.Calibration.Pricing.{sigmoid_price_unclamped}
use ammba_uoc.Calibration.Pricing.Agreement.{sigmoid_price-unclamped}
use ammba_uoc.Calibration.Optimizer.{Slot, Point}
use ammba_uoc.Calibration.Optimizer.Refinement.{
  default_alpha, default_bounds, around, search_box, box_point, calibrated, optimize_params,
  search_around, optimize_params_lem,
}

abbrev num : ℕ → Fixed
num n = fixed_arith.dec n 0

sigmoid_price-unclamped_example :
    Node.sigmoid_price (num 2) (num 28) (num 8) (num 1) (num 3)
    ≡ max_of
        (num 8)
        (min_of (num 28) (sigmoid_price_unclamped (num 2) (num 28) (num 8) (num 1) (num 3)))
sigmoid_price-unclamped_example =
    sigmoid_price-unclamped Fixed-IsOrdered Fixed-IsRounded (num 2) (num 28) (num 8) (num 1) (num 3)
      refl refl refl

abbrev slots : List (Slot Fixed)
slots =
    record { total_supply = num 3; total_demand = num 5; k_upper = num 28; k_lower = num 8 } ∷ []

fixed_number : (x : Fixed) → x ≼ x
fixed_number x = ground arith

-- `round(x, 4)` leaves a decimal of four places.
abbrev round4 : Fixed → Fixed
round4 x = x

optimize_params_example :
    (coarse : Point Fixed) × ((fine : Point Fixed) × ((search_box slots default_alpha default_bounds
            default_bounds 50
          ≡ some coarse)
        × ((search_around slots default_alpha default_bounds default_bounds coarse ≡ some fine)
            × ((optimize_params round4 slots default_alpha default_bounds default_bounds
                  ≡ ok (calibrated round4 slots default_alpha fine))
                × ((coarse.value
                      ≼ (box_point slots default_alpha default_bounds default_bounds 50 1 2).value)
                    × (fine.value
                        ≼ (box_point slots default_alpha
                            (around default_bounds coarse.theta)
                            (around default_bounds coarse.steepness)
                            40
                            3
                            4).value))))))
optimize_params_example =
    optimize_params_lem Fixed-IsOrdered round4 slots default_alpha default_bounds default_bounds
      (λ i j _ _.
        fixed_number (box_point slots default_alpha default_bounds default_bounds 50 i j).value)
      (λ coarse _ k l _ _.
        fixed_number
          (box_point slots default_alpha (around default_bounds coarse.theta)
            (around default_bounds coarse.steepness) 40 k l).value)
      1 2 3 4 (omega arith) (omega arith) (omega arith) (omega arith)
