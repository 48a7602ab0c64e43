-- ===== src/Calibration/Optimizer.antt =====
-- amm-calibration/src/optimizer.py and measurements.py: the objective and the grid search.
pub mod Grid
pub mod Refinement
use ammba_uoc.Prelude.{
  ℕ, zero, suc, String, Bool, true, false, not, ◌&&◌, ◌||◌, Option, none, some, List, [], ◌∷◌, ◌++◌,
  map, filter, any, length, foldl, ◌==◌, string_eq, beq_option, if◌then◌else◌, Result, ok, err,
  value_error,
}
use ammba_uoc.Prelude.Int.{ℤ, pos}
use ammba_uoc.Prelude.Dict.{Dict, lookup, insert}
use ammba_uoc.Prelude.Text.{sorted}
use ammba_uoc.Arith.{Arith, min_of, max_of, sum}
use ammba_uoc.Clearing.Orders.{default_to}
use ammba_uoc.Calibration.Pricing.{sigmoid_price_unclamped}

pub record Slot (F : Type 0) : Type 0 where
  pub total_supply : F
  pub total_demand : F
  pub k_upper : F
  pub k_lower : F

-- `int:Measurement`; a slot key is its text
pub record Measurement (F : Type 0) : Type 0 where
  pub community_uuid : Option String
  pub time_slot : String
  pub energy_kwh : F

pub record Totals (F : Type 0) : Type 0 where
  pub demand : Dict String F
  pub supply : Dict String F

-- An entry of `_valid`, and a point of the grid with its value.
pub record Rated (F : Type 0) : Type 0 where
  pub ratio : F
  pub slot : Slot F

pub record Point (F : Type 0) : Type 0 where
  pub theta : F
  pub steepness : F
  pub value : F

abbrev pub is_for : Option String → Option String → Bool
is_for none community = true
is_for (some wanted) community = beq_option community (some wanted)

abbrev pub union : List String → List String → List String
union [] ys = ys
union (x ∷ xs) ys = if any (λ y. y == x) ys then union xs ys else x ∷ union xs ys

module _ {F : Type 0} ⦃a : Arith F⦄ where
  -- `d[slot] = d.get(slot, 0.0) + energy`
  abbrev pub add_to : String → F → Dict String F → Dict String F
  add_to slot energy d = insert slot (a.add (default_to (lookup slot d) (a.dec 0 0)) energy) d

  unfoldable pub add_measurement : Option String → Bool → Totals F → Measurement F → Totals F
  add_measurement community positive_is_consumption t m =
      let consumption = (if positive_is_consumption then m.energy_kwh else a.neg m.energy_kwh) in
      if is_for community m.community_uuid
      then (if a.le (a.dec 0 0) consumption
          then record t { demand = add_to m.time_slot consumption t.demand }
          else record t { supply = add_to m.time_slot (a.neg consumption) t.supply })
      else t

  unfoldable pub aggregate_slots :
      List (Measurement F) → F → F → Option String → Bool → List (Slot F)
  unfolding add_measurement
  aggregate_slots measurements k_upper k_lower community positive_is_consumption =
      let t =
        foldl (add_measurement community positive_is_consumption)
          (record { demand = []; supply = [] }) measurements in
      map
        (λ key. record {
          total_supply = default_to (lookup key t.supply) (a.dec 0 0);
          total_demand = default_to (lookup key t.demand) (a.dec 0 0);
          k_upper = k_upper;
          k_lower = k_lower;
        })
        (sorted (union (map (λ p. p.0) t.demand) (map (λ p. p.0) t.supply)))

  abbrev pub can_trade : Slot F → Bool
  can_trade s = not (
      a.le s.k_upper s.k_lower
      || a.le s.total_supply (a.dec 0 0)
      || a.le s.total_demand (a.dec 0 0))

  unfoldable pub valid : List (Slot F) → List (Rated F)
  valid slots =
      map (λ s. record { ratio = a.div s.total_supply s.total_demand; slot = s })
        (filter can_trade slots)

  unfoldable pub min_return : F → F → Rated F → F
  min_return theta steepness v =
      let price = sigmoid_price_unclamped v.ratio v.slot.k_upper v.slot.k_lower theta steepness in
      min_of (a.sub v.slot.k_upper price) (a.sub price v.slot.k_lower)

  -- `min` by ratio and `max` of the ratios, which keep the first among equals
  abbrev pub lowest : Rated F → List (Rated F) → Rated F
  lowest v [] = v
  lowest v (w ∷ ws) = lowest (if a.lt w.ratio v.ratio then w else v) ws

  abbrev pub highest : F → List (Rated F) → F
  highest x [] = x
  highest x (w ∷ ws) = highest (if a.lt x w.ratio then w.ratio else x) ws

  unfoldable pub penalty : F → F → F → Slot F → (r_min r_max : F) → F
  penalty theta steepness alpha s r_min r_max =
      a.add
        (a.mul alpha (
          max_of (a.dec 0 0)
            (a.sub (sigmoid_price_unclamped r_max s.k_upper s.k_lower theta steepness) s.k_lower)))
        (a.mul alpha (
          max_of (a.dec 0 0)
            (a.sub s.k_upper (sigmoid_price_unclamped r_min s.k_upper s.k_lower theta steepness))))

  unfoldable pub objective_of : List (Rated F) → F → F → F → F
  unfolding min_return penalty
  objective_of [] theta steepness alpha = a.dec 0 0
  objective_of (v ∷ vs) theta steepness alpha =
      let low = lowest v vs in
      let min_returns = map (min_return theta steepness) (v ∷ vs) in
      a.add (a.neg (a.div (sum min_returns) (a.of_ℤ (pos (length min_returns)))))
        (penalty theta steepness alpha low.slot low.ratio (highest v.ratio vs))

  unfoldable pub objective : List (Slot F) → F → F → F → F
  unfolding objective_of valid
  objective slots theta steepness alpha = objective_of (valid slots) theta steepness alpha

  -- `lo + (hi - lo) * i / steps`
  abbrev pub grid_point : F → F → ℕ → ℕ → F
  grid_point lo hi steps i =
      a.add lo (a.div (a.mul (a.sub hi lo) (a.of_ℤ (pos i))) (a.of_ℤ (pos steps)))

  abbrev pub better : Option (Point F) → Point F → Point F
  better none p = p
  better (some best) p = if a.lt p.value best.value then p else best

  unfoldable pub search_row : (ℕ → Point F) → ℕ → ℕ → Option (Point F) → Option (Point F)
  search_row at zero j best = best
  search_row at (suc left) j best = search_row at left (suc j) (some (better best (at j)))

  unfoldable pub search_grid : (ℕ → ℕ → Point F) → ℕ → ℕ → ℕ → Option (Point F) → Option (Point F)
  unfolding search_row
  search_grid at columns zero i best = best
  search_grid at columns (suc left) i best =
      search_grid at columns left (suc i) (search_row (at i) columns 0 best)

  unfoldable pub point_at :
      List (Slot F) → F → (theta_lo theta_hi b_lo b_hi : F) → ℕ → ℕ → ℕ → Point F
  point_at slots alpha theta_lo theta_hi b_lo b_hi steps i j =
      let theta = grid_point theta_lo theta_hi steps i in
      let steepness = grid_point b_lo b_hi steps j in
      record { theta = theta; steepness = steepness; value = objective slots theta steepness alpha }

  unfoldable pub grid_min :
      List (Slot F) → F → (theta_lo theta_hi b_lo b_hi : F) → ℕ → Option (Point F)
  unfolding search_grid point_at
  grid_min slots alpha theta_lo theta_hi b_lo b_hi steps =
      search_grid (point_at slots alpha theta_lo theta_hi b_lo b_hi steps) (suc steps) (suc steps) 0
        none
