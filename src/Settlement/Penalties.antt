-- ===== src/Settlement/Penalties.antt =====
-- amm-execution-node/src/penalties.py: the three penalties of a settled market slot.
pub mod Bounds
use ammba_uoc.Prelude.{
  String, Bool, true, false, ◌&&◌, ◌||◌, Option, none, some, List, [], ◌∷◌, ◌==◌, nat_eq, string_eq,
  ℕ, if◌then◌else◌, Result, ok, err, or_raise, key_error, map_result, ◌>>=◌,
}
use ammba_uoc.Prelude.Dict.{Dict, lookup}
use ammba_uoc.Prelude.Text.{codes}
use ammba_uoc.Arith.{Arith, min_of, max_of, divide, isclose}
use ammba_uoc.Settlement.Sigmoid.{sigmoid_price}

-- `d.get(key, default)`
abbrev pub default_to : {A : Type 0} → Option A → A → A
default_to none x = x
default_to (some y) x = y

starts_with : List ℕ → List ℕ → Bool
starts_with [] ys = true
starts_with (x ∷ xs) [] = false
starts_with (x ∷ xs) (y ∷ ys) = x == y && starts_with xs ys

occurs_in : List ℕ → List ℕ → Bool
unfolding starts_with
occurs_in xs [] = starts_with xs []
occurs_in xs (y ∷ ys) = starts_with xs (y ∷ ys) || occurs_in xs ys

-- `needle in text`
unfoldable pub is_part_of : String → String → Bool
unfolding occurs_in
is_part_of needle text = occurs_in (codes needle) (codes text)

-- `trade["parameters"]`
pub record TradeParameters (F : Type 0) : Type 0 where
  pub total_supply_kwh : Option F
  pub total_demand_kwh : Option F
  pub energy_rate : Option F
  pub theta : Option F
  pub steepness : Option F
  pub selected_energy : Option F

-- A settled trade, as the off-chain storage has it.
pub record SettledTrade (F : Type 0) : Type 0 where
  pub trade_uuid : Option String
  pub buyer : Option String
  pub seller : Option String
  pub parameters : TradeParameters F
  pub offer_area_uuid : Option String
  pub bid_area_uuid : Option String

-- `community_config`
pub record PriceBounds (F : Type 0) : Type 0 where
  pub k_upper : Option F
  pub k_lower : Option F
  pub theta : Option F
  pub steepness : Option F

pub record PenaltyResult (F : Type 0) : Type 0 where
  pub trade_uuid : String
  pub seller_shortfall_penalty : F
  pub seller_externality_penalty : F
  pub buyer_externality_penalty : F
  pub total_penalty : F

-- What the loop over the trades reads of the slot.
pub record Round (F : Type 0) : Type 0 where
  pub total_supply : F
  pub total_demand : F
  pub clearing_price : F
  pub k_upper : F
  pub k_lower : F
  pub theta : F
  pub steepness : F
  pub gamma : F
  pub eta : F

module _ {F : Type 0} ⦃a : Arith F⦄ where
  unfoldable pub compute_seller_shortfall_penalty :
      (energy_traded actual_delivered k_upper gamma eta : F) → F
  compute_seller_shortfall_penalty energy_traded actual_delivered k_upper gamma eta =
      a.mul (a.mul gamma k_upper)
        (max_of (a.dec 0 0) (a.sub (a.sub energy_traded actual_delivered) eta))

  unfoldable pub compute_seller_externality_penalty :
      (actual_deliverable energy_traded total_supply total_demand clearing_price traded_quantity
        k_upper k_lower theta steepness eta : F)
      → Result F
  compute_seller_externality_penalty actual_deliverable energy_traded total_supply total_demand
        clearing_price traded_quantity k_upper k_lower theta steepness eta =
      let withheld = a.sub (a.sub actual_deliverable energy_traded) eta in
      if a.le withheld (a.dec 0 0) then ok (a.dec 0 0) else do
        cf_ratio ← divide (a.add total_supply withheld) total_demand
        ok (
            max_of (a.dec 0 0) (
              a.mul (a.sub clearing_price (sigmoid_price cf_ratio k_upper k_lower theta steepness))
                traded_quantity))

  unfoldable pub compute_buyer_externality_penalty :
      (actual_demand reported_demand total_supply total_demand clearing_price traded_quantity
        k_upper k_lower theta steepness : F)
      → Result F
  compute_buyer_externality_penalty actual_demand reported_demand total_supply total_demand
        clearing_price traded_quantity k_upper k_lower theta steepness =
      let withheld = a.sub actual_demand reported_demand in
      if a.le withheld (a.dec 0 0) then ok (a.dec 0 0) else do
        cf_ratio ← divide total_supply (a.add total_demand withheld)
        ok (
            max_of (a.dec 0 0) (
              a.mul (a.sub (sigmoid_price cf_ratio k_upper k_lower theta steepness) clearing_price)
                traded_quantity))

  abbrev pub traded_quantity : Round F → F
  traded_quantity r = min_of r.total_supply r.total_demand

  unfoldable pub round_of : TradeParameters F → PriceBounds F → F → F → Result (Round F)
  round_of first c gamma eta = do
    k_upper ← or_raise c.k_upper key_error
    k_lower ← or_raise c.k_lower key_error
    ok (record {
      total_supply = default_to first.total_supply_kwh (a.dec 0 0);
      total_demand = default_to first.total_demand_kwh (a.dec 0 0);
      clearing_price = default_to first.energy_rate (a.dec 0 0);
      k_upper = k_upper;
      k_lower = k_lower;
      theta = default_to first.theta (default_to c.theta (a.dec 1 0));
      steepness = default_to first.steepness (default_to c.steepness (a.dec 25 1));
      gamma = gamma;
      eta = eta;
    })

  abbrev pub penalty_result : String → F → F → F → PenaltyResult F
  penalty_result uuid shortfall seller_ext buyer_ext = record {
    trade_uuid = uuid;
    seller_shortfall_penalty = shortfall;
    seller_externality_penalty = seller_ext;
    buyer_externality_penalty = buyer_ext;
    total_penalty = a.add (a.add shortfall seller_ext) buyer_ext;
  }

  -- The body of the loop: a seller's trade, else a buyer's trade, else neither.
  unfoldable pub seller_penalties : Round F → F → F → String → Result (PenaltyResult F)
  seller_penalties r selected_energy actual_delivered uuid = do
    ext ←
        (if isclose (traded_quantity r) r.total_supply
          then compute_seller_externality_penalty actual_delivered selected_energy r.total_supply
              r.total_demand r.clearing_price (traded_quantity r) r.k_upper r.k_lower r.theta
              r.steepness r.eta
          else ok (a.dec 0 0))
    ok (
        penalty_result uuid
          (compute_seller_shortfall_penalty selected_energy actual_delivered r.k_upper r.gamma
            r.eta)
          ext (a.dec 0 0))

  unfoldable pub buyer_penalties : Round F → F → F → String → Result (PenaltyResult F)
  buyer_penalties r selected_energy actual_demand uuid = do
    ext ←
        (if isclose (traded_quantity r) r.total_demand
          then compute_buyer_externality_penalty actual_demand selected_energy r.total_supply
              r.total_demand r.clearing_price (traded_quantity r) r.k_upper r.k_lower r.theta
              r.steepness
          else ok (a.dec 0 0))
    ok (penalty_result uuid (a.dec 0 0) (a.dec 0 0) ext)

  unfoldable pub trade_penalties :
      Dict String F → Round F → SettledTrade F → Result (PenaltyResult F)
  trade_penalties measurements r trade =
      let selected_energy = default_to trade.parameters.selected_energy (a.dec 0 0) in
      let uuid = default_to trade.trade_uuid "" in
      if is_part_of "AMM_POOL" (default_to trade.buyer "")
      then seller_penalties r selected_energy
          (default_to (lookup (default_to trade.offer_area_uuid "") measurements) selected_energy)
          uuid
      else if is_part_of "AMM_POOL" (default_to trade.seller "")
      then buyer_penalties r selected_energy
          (default_to (lookup (default_to trade.bid_area_uuid "") measurements) selected_energy)
          uuid
      else ok (penalty_result uuid (a.dec 0 0) (a.dec 0 0) (a.dec 0 0))

  unfoldable pub compute_penalties_for_trades :
      List (SettledTrade F)
      → Dict String F
      → PriceBounds F
      → F
      → F
      → Result (List (PenaltyResult F))
  compute_penalties_for_trades [] measurements c gamma eta = ok []
  compute_penalties_for_trades (t ∷ ts) measurements c gamma eta = do
    r ← round_of t.parameters c gamma eta
    map_result (trade_penalties measurements r) (t ∷ ts)
