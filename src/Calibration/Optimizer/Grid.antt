-- ===== src/Calibration/Optimizer/Grid.antt =====
-- The grid search returns a point, and none of the grid is better.
use mathlib.Core.Path.{subst}
use ammba_uoc.Prelude.{ℕ, zero, suc, ◌+◌, ◌≤◌, ◌<◌, ◌≡◌, refl, Option, none, some, List, arith}
use ammba_uoc.Arith.{Arith, ◌≼◌, IsOrdered}
use ammba_uoc.Arith.Facts
use ammba_uoc.Calibration.Optimizer.{
  Slot, Point, better, search_row, search_grid, point_at, grid_min,
}

plus_zero : (j : ℕ) → j + 0 ≡ j
plus_zero j = omega arith

plus_suc : (j k : ℕ) → j + suc k ≡ suc j + k
plus_suc j k = omega arith

zero_plus : (j : ℕ) → 0 + j ≡ j
zero_plus j = omega arith

module _ {F : Type 0} ⦃a : Arith F⦄ (o : IsOrdered F) where
  -- The point so far, if any, is a number and at most the other value.
  abbrev pub IsAtMost : Option (Point F) → F → Type 0
  IsAtMost none x = Unit
  IsAtMost (some p) x = p.value ≼ x

  abbrev pub Beats : Option (Point F) → F → Type 0
  Beats none x = ⊥
  Beats (some p) x = p.value ≼ x

  abbrev pub IsNumber : Option (Point F) → Type 0
  IsNumber none = Unit
  IsNumber (some p) = p.value ≼ p.value

  better-number :
      (best : Option (Point F)) (p : Point F)
      → IsNumber best
      → p.value ≼ p.value
      → (better best p).value ≼ (better best p).value
  better-number none p n m = m
  better-number (some b) p n m = ground arith

  better-beats :
      (best : Option (Point F)) (p : Point F)
      → IsNumber best
      → p.value ≼ p.value
      → (better best p).value ≼ p.value
  better-beats none p n m = m
  better-beats (some b) p n m = ground (arith, Facts.le_of_not-lt o p.value b.value m n)

  better_keeps :
      (best : Option (Point F)) (p : Point F) (x : F) → Beats best x → (better best p).value ≼ x
  better_keeps none p x h = absurd h
  better_keeps (some b) p x h = ground (
    arith,
    Facts.le_of_lt o p.value b.value,
    λ (e : p.value ≼ b.value). o.le_trans p.value b.value x e h,
  )

  module _ (at : ℕ → Point F) (columns : ℕ)
      (n : (j : ℕ) → j < columns → (at j).value ≼ (at j).value) where
    row-IsNumber :
        (left j : ℕ) (best : Option (Point F))
        → j + left ≤ columns
        → IsNumber best
        → IsNumber (search_row at left j best)
    unfolding search_row
    row-IsNumber zero j best fits h = h
    row-IsNumber (suc left) j best fits h =
        row-IsNumber left (suc j) _ (omega (arith, fits))
          (better-number best (at j) h (n j (omega (arith, fits))))

    row_keeps :
        (left j : ℕ) (best : Option (Point F)) (x : F)
        → Beats best x
        → Beats (search_row at left j best) x
    unfolding search_row
    row_keeps zero j best x h = h
    row_keeps (suc left) j best x h = row_keeps left (suc j) _ x (better_keeps best (at j) x h)

    row-Beats :
        (left j k : ℕ) (best : Option (Point F))
        → j + left ≤ columns
        → IsNumber best
        → k < left
        → Beats (search_row at left j best) (at (j + k)).value
    unfolding search_row
    row-Beats zero j k best fits h lt = absurd (omega arith)
    row-Beats (suc left) j zero best fits h lt =
        rw (plus_zero j)
          (row_keeps left (suc j) _ _ (better-beats best (at j) h (n j (omega (arith, fits)))))
    row-Beats (suc left) j (suc k) best fits h lt = rw (plus_suc j k) (
        row-Beats left (suc j) k _ (omega (arith, fits))
          (better-number best (at j) h (n j (omega (arith, fits)))) (omega arith))

  module _ (at : ℕ → ℕ → Point F) (rows columns : ℕ)
      (n : (i j : ℕ) → i < rows → j < columns → (at i j).value ≼ (at i j).value) where
    grid_keeps :
        (left i : ℕ) (best : Option (Point F)) (x : F)
        → i + left ≤ rows
        → Beats best x
        → Beats (search_grid at columns left i best) x
    unfolding search_grid
    grid_keeps zero i best x fits h = h
    grid_keeps (suc left) i best x fits h =
        grid_keeps left (suc i) _ x (omega (arith, fits))
          (row_keeps (at i) columns (λ j. n i j (omega (arith, fits))) columns 0 best x h)

    grid-Beats :
        (left i k l : ℕ) (best : Option (Point F))
        → i + left ≤ rows
        → IsNumber best
        → k < left
        → l < columns
        → Beats (search_grid at columns left i best) (at (i + k) (0 + l)).value
    unfolding search_grid
    grid-Beats zero i k l best fits h lt lt' = absurd (omega arith)
    grid-Beats (suc left) i zero l best fits h lt lt' = rw (plus_zero i) (
        grid_keeps left (suc i) _ _ (omega (arith, fits)) (
          row-Beats (at i) columns (λ j. n i j (omega (arith, fits))) columns 0 l best (omega arith)
            h lt'))
    grid-Beats (suc left) i (suc k) l best fits h lt lt' = rw (plus_suc i k) (
        grid-Beats left (suc i) k l _ (omega (arith, fits))
          (row-IsNumber (at i) columns (λ j. n i j (omega (arith, fits))) columns 0 best
            (omega arith) h)
          (omega arith) lt')

  found_point :
      (m : Option (Point F)) (x : F)
      → Beats m x
      → (best : Point F) × (m ≡ some best) × (best.value ≼ x)
  found_point none x h = absurd h
  found_point (some best) x h = (best, refl, h)

  -- With values that are numbers at all points of the grid, the search returns a point, and its
  -- value is at most the value at each of the points.
  pub grid_min_lem :
      (slots : List (Slot F)) (alpha theta_lo theta_hi b_lo b_hi : F) (steps i j : ℕ)
      → ((i j : ℕ)
          → i ≤ steps
          → j ≤ steps
          → (point_at slots alpha theta_lo theta_hi b_lo b_hi steps i j).value
            ≼ (point_at slots alpha theta_lo theta_hi b_lo b_hi steps i j).value)
      → i ≤ steps
      → j ≤ steps
      → (best : Point F) × (grid_min slots alpha theta_lo theta_hi b_lo b_hi steps ≡ some best)
        × (best.value ≼ (point_at slots alpha theta_lo theta_hi b_lo b_hi steps i j).value)
  unfolding grid_min
  grid_min_lem slots alpha theta_lo theta_hi b_lo b_hi steps i j n p q =
      let at = point_at slots alpha theta_lo theta_hi b_lo b_hi steps in
      let found =
        grid-Beats at (suc steps) (suc steps)
          (λ i j p q. n i j (omega (arith, p)) (omega (arith, q))) (suc steps) 0 i j none
          (omega arith) tt (omega arith) (omega arith) in
      found_point _ _ (
        subst (λ k. Beats (search_grid at (suc steps) (suc steps) 0 none) (at k j).value)
          (zero_plus i)
          (subst (λ k. Beats (search_grid at (suc steps) (suc steps) 0 none) (at (0 + i) k).value)
            (zero_plus j) found))
