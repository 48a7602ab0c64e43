-- ===== src/Clearing/Run.antt =====
-- amm-clearing-node/src/clearing.py: the full cycle for a market slot.
pub mod Prices
pub mod Publication
use ammba_uoc.Prelude.{
  ℕ, String, Bool, true, false, not, ◌&&◌, ◌||◌, Option, none, some, List, [], ◌∷◌, ◌++◌, map,
  filter, concat, length, ◌==◌, beq_option, string_eq, bytes_eq, if◌then◌else◌, Result, ok, err,
  map_result, Exn, schema_error, ◌>>=◌,
}
use ammba_uoc.Prelude.Int.{ℤ, ◌+ℤ◌}
use ammba_uoc.Prelude.Dict.{Dict, lookup}
use ammba_uoc.Prelude.Text.{codes}
use ammba_uoc.Arith.{Arith, min_of, sum}
use ammba_uoc.Wire.{Host, IntOrder, IntTrade, IntClearingResult}
use ammba_uoc.Clearing.Orders.{Order, default_to}
use ammba_uoc.Clearing.Sigmoid.{sigmoid_price}
use ammba_uoc.Clearing.Adapters.{
  ct_to_eur, int_order_to_internal, pool_order_uuid, build_direct_int_trade,
  build_buyer_pool_int_trade, build_pool_seller_int_trade, build_int_clearing_result,
}
use ammba_uoc.Clearing.Preferences.{allocated, apply_preference_allocation}
use ammba_uoc.Clearing.Pricing.{
  EnergyTypeMultipliers, Provenance, is_allocated, compute_seller_price_adjustments,
}

-- `CommunityConfig` of config.py, the fields that the clearing reads.
pub record CommunityConfig (F : Type 0) : Type 0 where
  pub k_upper_ct_per_kwh : F
  pub k_lower_ct_per_kwh : F
  pub theta : F
  pub steepness : F
  pub pool_actor_uuid : String
  pub green_subsidy_rate : F
  pub grey_levy_rate : F
  pub levy_cap_ct_per_kwh : F

-- The services that the clearing calls: the off-chain storage, the JSON schemas of the ontology, the
-- chain (if there is a client) with market, community, slot, supply, demand and price, and the clock.
pub record Services (F : Type 0) : Type 0 where
  pub get_trades : String → Result (List (IntTrade F))
  pub get_orders : String → ℤ → ℤ → Result (List (IntOrder F))
  pub post_trades : List (IntTrade F) → Result (Unit {0})
  pub post_clearing_result : Option (IntClearingResult F → Result (Unit {0}))
  pub validate_order : IntOrder F → Result (Unit {0})
  pub validate_trade : IntTrade F → Result (Unit {0})
  pub validate_clearing_result : IntClearingResult F → Result (Unit {0})
  pub clear_market : Option (String → String → ℤ → F → F → F → Result String)
  pub now : ℤ

-- What a run sends to the storage, in order; an attempt counts also if the storage raises.
pub data Effect (F : Type 0) : Type 0 where
  put_trades : List (IntTrade F) → Effect F
  put_result : IntClearingResult F → Effect F

-- The summary that a run returns.
pub data Summary (F : Type 0) : Type 0 where
  skipped on_chain_tx_failed : Summary F
  no_trade : (total_supply_kwh total_demand_kwh : F) → Summary F
  cleared :
      (total_supply_kwh total_demand_kwh clearing_price_ct clearing_price_eur traded_quantity : F)
      → ℕ
      → String
      → Option (Provenance F)
      → Summary F

abbrev pub Run : Type 0 → Type 0
Run F = Result (Summary F) × List (Effect F)

module _ {F : Type 0} ⦃h : Host⦄ where
  -- an order that cannot be converted is dropped
  unfoldable pub converted : Result (Order F) → List (Order F)
  converted (ok order) = order ∷ []
  converted (err e) = []

  -- An order that fails validation is dropped, unless validation is lax. Another exception of the
  -- validation ends the run.
  unfoldable pub kept_order : Bool → Result (Unit {0}) → Result (Order F) → Result (List (Order F))
  unfolding converted
  kept_order strict (ok _) order = ok (converted order)
  kept_order true (err schema_error) order = ok []
  kept_order false (err schema_error) order = ok (converted order)
  kept_order strict (err e) order = err e

  unfoldable pub internal_orders : Services F → Bool → List (IntOrder F) → Result (List (Order F))
  unfolding kept_order
  internal_orders s strict [] = ok []
  internal_orders s strict (raw ∷ raws) = do
    kept ← kept_order strict (s.validate_order raw) (int_order_to_internal raw)
    rest ← internal_orders s strict raws
    ok (kept ++ rest)

module _ {F : Type 0} where
  abbrev pub is_open : Order F → Bool
  is_open o = beq_option o.status (some "Open")

  abbrev pub bids_of : List (Order F) → List (Order F)
  bids_of = filter λ o. is_open o && o.order_type == codes "Bid"

  abbrev pub offers_of : List (Order F) → List (Order F)
  offers_of = filter λ o. is_open o && o.order_type == codes "Offer"

module _ {F : Type 0} ⦃a : Arith F⦄ where
  unfoldable pub total_energy : List (Order F) → F
  total_energy os = sum (map (λ o. o.energy) os)

  -- Step 5. The total is not zero here.
  unfoldable pub pro_rata : F → F → F → F
  pro_rata energy total traded_quantity = a.mul (a.div energy total) traded_quantity

  unfoldable pub allocate : F → F → Order F → Order F
  unfolding pro_rata
  allocate total traded_quantity o = record o {
    allocated_energy = some (pro_rata o.energy total traded_quantity);
  }

  -- `x or y`: a float is true unless it is zero
  unfoldable pub multipliers_of : CommunityConfig F → Option (EnergyTypeMultipliers F)
  multipliers_of c =
      if a.eq c.green_subsidy_rate (a.dec 0 0) && a.eq c.grey_levy_rate (a.dec 0 0)
      then none
      else some (record {
        green_subsidy_rate = c.green_subsidy_rate;
        grey_levy_rate = c.grey_levy_rate;
        levy_cap_ct_per_kwh = c.levy_cap_ct_per_kwh;
      })

module _ {F : Type 0} ⦃a : Arith F⦄ ⦃h : Host⦄ where
  -- Step 7
  unfoldable pub direct_trades : String → F → String → List (Order F) → List (IntTrade F)
  direct_trades market_id price_eur traded_at bids = concat (
      map
        (λ b.
          map (λ m. build_direct_int_trade m market_id price_eur traded_at) b.preference_matches)
        bids)

  unfoldable pub buyer_trades : String → String → F → String → List (Order F) → List (IntTrade F)
  buyer_trades market_id pool_actor price_eur traded_at bids =
      map
        (λ b.
          build_buyer_pool_int_trade b pool_actor (pool_order_uuid market_id "offer") market_id
            price_eur traded_at)
        (filter (λ b. a.lt (a.dec 1 9) (allocated b)) bids)

  unfoldable pub seller_trades :
      String → String → Dict String F → F → String → List (Order F) → List (IntTrade F)
  seller_trades market_id pool_actor adjusted price_ct traded_at offers =
      map
        (λ o.
          build_pool_seller_int_trade o pool_actor (pool_order_uuid market_id "bid") market_id
            (ct_to_eur (default_to (lookup o.order_id adjusted) price_ct)) traded_at)
        (filter (λ o. a.lt (a.dec 1 9) (allocated o)) offers)

  unfoldable pub market_trades :
      String
      → String
      → Dict String F
      → F
      → String
      → List (Order F)
      → List (Order F)
      → List (IntTrade F)
  unfolding direct_trades buyer_trades seller_trades
  market_trades market_id pool_actor adjusted price_ct traded_at bids offers =
      direct_trades market_id (ct_to_eur price_ct) traded_at bids
      ++ (buyer_trades market_id pool_actor (ct_to_eur price_ct) traded_at bids
          ++ seller_trades market_id pool_actor adjusted price_ct traded_at offers)

module _ {F : Type 0} where
  abbrev pub answer_of : Summary F → Result (Unit {0}) → Result (Summary F)
  answer_of summary (ok _) = ok summary
  answer_of summary (err e) = err e

  -- the storage may have no way to take a result
  unfoldable pub send_valid :
      Option (IntClearingResult F → Result (Unit {0}))
      → IntClearingResult F
      → Summary F
      → List (Effect F)
      → Run F
  send_valid none r summary sent = (ok summary, sent)
  send_valid (some post) r summary sent = (answer_of summary (post r), sent ++ (put_result r ∷ []))

  unfoldable pub send_validated :
      Services F → IntClearingResult F → Summary F → List (Effect F) → Result (Unit {0}) → Run F
  unfolding send_valid
  send_validated s r summary sent (err e) = (err e, sent)
  send_validated s r summary sent (ok _) = send_valid s.post_clearing_result r summary sent

  -- `_post_clearing_result`, and then the summary
  unfoldable pub send_result :
      Services F → IntClearingResult F → Summary F → List (Effect F) → Run F
  unfolding send_validated
  send_result s r summary sent = send_validated s r summary sent (s.validate_clearing_result r)

  unfoldable pub send_posted :
      Services F → List (IntTrade F) → IntClearingResult F → Summary F → Result (Unit {0}) → Run F
  unfolding send_result
  send_posted s trades r summary (err e) = (err e, put_trades trades ∷ [])
  send_posted s trades r summary (ok _) = send_result s r summary (put_trades trades ∷ [])

  unfoldable pub send_trades :
      Services F
      → List (IntTrade F)
      → IntClearingResult F
      → Summary F
      → Result (List (Unit {0}))
      → Run F
  unfolding send_posted
  send_trades s trades r summary (err e) = (err e, [])
  send_trades s trades r summary (ok _) = send_posted s trades r summary (s.post_trades trades)

  -- Step 8: every trade is valid before the first is posted
  unfoldable pub send_all : Services F → List (IntTrade F) → IntClearingResult F → Summary F → Run F
  unfolding send_trades
  send_all s trades r summary = send_trades s trades r summary (map_result s.validate_trade trades)

-- Step 4: without a client the transaction is "0x0"
abbrev pub record_on_chain :
    {F : Type 0}
    → Option (String → String → ℤ → F → F → F → Result String)
    → (market_id community_uuid : String) → ℤ
    → F
    → F
    → F
    → Result String
record_on_chain none market_id community_uuid time_slot supply demand price = ok "0x0"
record_on_chain (some clear) market_id community_uuid time_slot supply demand price =
    clear market_id community_uuid time_slot supply demand price

-- Steps 5 to 8, once the price is known and recorded.
module _ {F : Type 0} ⦃a : Arith F⦄ ⦃h : Host⦄ (s : Services F) (c : CommunityConfig F)
    (market_id : String) where
  unfoldable pub settle_market : F → F → F → String → List (Order F) → List (Order F) → Run F
  settle_market supply demand price_ct tx_hash bids offers =
      let traded_quantity = min_of supply demand in
      let (bids', offers') =
        apply_preference_allocation (map (allocate demand traded_quantity) bids)
          (map (allocate supply traded_quantity) offers) in
      let (adjusted, provenance) =
        compute_seller_price_adjustments offers' price_ct (multipliers_of c) in
      let trades =
        market_trades market_id c.pool_actor_uuid adjusted price_ct (h.render_iso s.now) bids'
          offers' in
      send_all s trades
        (build_int_clearing_result market_id "final" (ct_to_eur price_ct) supply demand
          traded_quantity (length trades) tx_hash (h.render_iso s.now) none)
        (cleared supply demand price_ct (ct_to_eur price_ct) traded_quantity (length trades) tx_hash
          provenance)

  unfoldable pub clearing_price : F → F → F
  clearing_price supply demand =
      sigmoid_price (a.div supply demand) c.k_upper_ct_per_kwh c.k_lower_ct_per_kwh c.theta
        c.steepness

  unfoldable pub clear_recorded : F → F → List (Order F) → List (Order F) → Result String → Run F
  unfolding settle_market
  clear_recorded supply demand bids offers (err e) = (ok on_chain_tx_failed, [])
  clear_recorded supply demand bids offers (ok tx_hash) =
      settle_market supply demand (clearing_price supply demand) tx_hash bids offers

  -- Steps 2 to 8
  unfoldable pub clear_orders : String → ℤ → List (Order F) → List (Order F) → Run F
  unfolding clear_recorded
  clear_orders community_uuid time_slot bids offers =
      let supply = total_energy offers in
      let demand = total_energy bids in
      if a.eq supply (a.dec 0 0) || a.eq demand (a.dec 0 0)
      then send_result s
          (build_int_clearing_result market_id "no_bid" (a.dec 0 0) supply demand (a.dec 0 0) 0
            "0x0" (h.render_iso s.now) (some "invalid_inputs"))
          (no_trade supply demand) []
      else clear_recorded supply demand bids offers (
          record_on_chain s.clear_market market_id community_uuid time_slot supply demand
            (clearing_price supply demand))

  unfoldable pub clear_internal : String → ℤ → Result (List (Order F)) → Run F
  clear_internal community_uuid time_slot (err e) = (err e, [])
  clear_internal community_uuid time_slot (ok orders) =
      clear_orders community_uuid time_slot (bids_of orders) (offers_of orders)

  unfoldable pub clear_raw : String → ℤ → Bool → Result (List (IntOrder F)) → Run F
  unfolding internal_orders clear_internal
  clear_raw community_uuid time_slot strict (err e) = (err e, [])
  clear_raw community_uuid time_slot strict (ok raw_orders) =
      clear_internal community_uuid time_slot (internal_orders s strict raw_orders)

  -- Step 0
  unfoldable pub clear_unless_traded : String → ℤ → ℤ → Bool → Result (List (IntTrade F)) → Run F
  unfolding clear_raw
  clear_unless_traded community_uuid time_slot time_slot_sec strict (err e) = (err e, [])
  clear_unless_traded community_uuid time_slot time_slot_sec strict (ok (t ∷ ts)) = (ok skipped, [])
  clear_unless_traded community_uuid time_slot time_slot_sec strict (ok []) =
      clear_raw community_uuid time_slot strict
        (s.get_orders market_id time_slot (time_slot +ℤ time_slot_sec))

  unfoldable pub run_clearing : String → ℤ → ℤ → Bool → Run F
  run_clearing community_uuid time_slot time_slot_sec strict =
      clear_unless_traded community_uuid time_slot time_slot_sec strict (s.get_trades market_id)
