-- ===== src/Settlement/Builder.antt =====
-- amm-execution-node/src/match_builder.py: market settlements from the trades of a clearing.
pub mod Accounting
use ammba_uoc.Prelude.{
  ℕ, String, Bool, true, false, not, ◌&&◌, Option, none, some, List, [], ◌∷◌, ◌++◌, length, ◌==◌,
  string_eq, bytes_eq, if◌then◌else◌, Result, ok, err, value_error, key_error, or_raise, raise_if,
  ◌>>=◌, ◌>>◌,
}
use ammba_uoc.Prelude.Int.{ℤ, pos, ltb_ℤ, ◌-ℤ◌}
use ammba_uoc.Prelude.Dict.{Dict, lookup, insert}
use ammba_uoc.Prelude.Text.{lower, append}
use ammba_uoc.Arith.{Arith}
use ammba_uoc.Wire.{Host, Time, IntOrder, IntTrade, IntClearingResult}
use ammba_uoc.Settlement.Ids.{uuid_to_bytes16}
use ammba_uoc.Settlement.Structs.{
  OrderParams, Match, ClearingResult, MarketSettlement, scale, residual, scaling_factor,
  match_type_standard, match_type_preferred,
}

pub record BuildResult (F : Type 0) : Type 0 where
  pub settlements : List (MarketSettlement F)
  pub pool_orders : List (OrderParams F)

-- What the loop over the trades carries: the current form of each order, the matches by market,
-- and the pool orders.
pub record Building (F : Type 0) : Type 0 where
  pub live : Dict String (OrderParams F)
  pub matches_by_market : Dict (List ℕ) (List (Match F))
  pub pool_orders : List (OrderParams F)

abbrev pub no_building : {F : Type 0} → Building F
no_building = record { live = []; matches_by_market = []; pool_orders = [] }

module _ ⦃h : Host⦄ where
  abbrev pub pool_settle_ns : String
  pool_settle_ns = h.uuid5 "6ba7b811-9dad-11d1-80b4-00c04fd430c8" "https://ammba.uoc/settlement"

  unfoldable pub pool_settle_order_uuid : String → String
  pool_settle_order_uuid trade_id = h.uuid5 pool_settle_ns (append "pool-order:" trade_id)

  unfoldable pub residual_order_uuid : String → String → String
  residual_order_uuid order_id trade_id =
      h.uuid5 pool_settle_ns (append "residual:" (append order_id (append ":" trade_id)))

module _ {F : Type 0} where
  -- `matches_by_market.setdefault(market, []).append(match)`
  abbrev pub append_match :
      List ℕ → Match F → Dict (List ℕ) (List (Match F)) → Dict (List ℕ) (List (Match F))
  append_match k m [] = (k, m ∷ []) ∷ []
  append_match k m ((j, ms) ∷ d) =
      if j == k then (j, ms ++ (m ∷ [])) ∷ d else (j, ms) ∷ append_match k m d

module _ {F : Type 0} ⦃a : Arith F⦄ ⦃h : Host⦄ where
  unfoldable pub to_unix : Time F → Result ℤ
  to_unix (Time.number value) = ok (a.trunc value)
  to_unix (Time.text value) = h.parse_iso value

  -- `order.get("creationTime", order.get("createdAt"))`; `str(None)` is no timestamp
  abbrev pub creation_of : Option (Time F) → Option (Time F) → Result ℤ
  creation_of (some t) _ = to_unix t
  creation_of none (some t) = to_unix t
  creation_of none none = err value_error

  unfoldable pub participant_params : IntOrder F → Bool → Result (OrderParams F)
  unfolding to_unix
  participant_params order is_bid = do
    time_slot ← to_unix order.time_slot
    creation_time ← creation_of order.creation_time order.created_at
    ok (record {
      order_id = order.order_id;
      created_by = order.created_by;
      market_id = order.market_id;
      time_slot = time_slot;
      creation_time = creation_time;
      energy_kwh = order.quantity;
      energy_rate = order.price_limit;
      is_bid = is_bid;
      energy_source_preference = order.energy_source_preference;
      energy_type = order.energy_type;
      preferred_trading_partner = order.preferred_trading_partner;
      preferred_energy_rate = order.preferred_energy_rate;
    })

  -- The schema requires `tradeQuantity`, so the other spelling is not looked at.
  unfoldable pub clearing_result : IntClearingResult F → ℕ → ClearingResult F
  clearing_result result num_trades = record {
    market_id = result.market_id;
    clearing_status = lower result.clearing_status;
    clearing_price = result.clearing_price;
    total_supply_kwh = result.total_supply;
    total_demand_kwh = result.total_demand;
    traded_quantity_kwh = result.trade_quantity;
    num_trades = num_trades;
  }

  -- `live.get(key) or _participant_params(order, is_bid)`
  abbrev pub current_form : Dict String (OrderParams F) → IntOrder F → Bool → Result (OrderParams F)
  current_form live order is_bid = elim (lookup order.order_id live) [
    | some current ↦ ok current
    | none ↦ participant_params order is_bid
  ]

  -- what the order has left after a match, in the integers of the chain
  unfoldable pub remaining : OrderParams F → F → ℤ
  remaining current quantity = scale current.energy_kwh -ℤ scale quantity

  -- The order, or its residual, that a match consumes, the residual id that it leaves, and the
  -- forms of the orders from now on.
  unfoldable pub take_form :
      OrderParams F
      → String
      → F
      → String
      → Dict String (OrderParams F)
      → OrderParams F × Option String × Dict String (OrderParams F)
  take_form current key quantity trade_id live =
      if ltb_ℤ (pos 0) (remaining current quantity)
      then (
        current,
        some (residual_order_uuid key trade_id),
        insert key
            (residual current (residual_order_uuid key trade_id)
              (a.div (a.of_ℤ (remaining current quantity)) (a.dec scaling_factor 0)))
            live,
      )
      else (current, none, insert key current live)

  unfoldable pub take :
      IntOrder F
      → Bool
      → F
      → String
      → Dict String (OrderParams F)
      → Result (OrderParams F × Option String × Dict String (OrderParams F))
  unfolding take_form
  take order is_bid quantity trade_id live = do
    current ← current_form live order is_bid
    ok (take_form current order.order_id quantity trade_id live)

  -- the synthetic order of the pool against a participant's order
  unfoldable pub pool_order : String → String → OrderParams F → F → F → Bool → OrderParams F
  pool_order trade_id pool_actor other quantity rate is_bid = record {
    order_id = pool_settle_order_uuid trade_id;
    created_by = pool_actor;
    market_id = other.market_id;
    time_slot = other.time_slot;
    creation_time = other.creation_time;
    energy_kwh = quantity;
    energy_rate = rate;
    is_bid = is_bid;
    energy_source_preference = none;
    energy_type = none;
    preferred_trading_partner = none;
    preferred_energy_rate = none;
  }

  -- the `Match` of a trade, filed under its market
  unfoldable pub add_match :
      IntTrade F
      → OrderParams F
      → Option String
      → OrderParams F
      → Option String
      → ℕ
      → Dict String (OrderParams F)
      → List (OrderParams F)
      → Dict (List ℕ) (List (Match F))
      → Result (Building F)
  add_match trade bid residual_bid offer residual_offer match_type live pool_orders by_market = do
    market ← uuid_to_bytes16 trade.market_id
    ok (record {
      live = live;
      pool_orders = pool_orders;
      matches_by_market =
          append_match market
            (record {
              trade_id = trade.trade_id;
              bid = bid;
              offer = offer;
              selected_energy_kwh = trade.trade_quantity;
              clearing_price = trade.trade_price;
              residual_bid_id = residual_bid;
              residual_offer_id = residual_offer;
              match_type = match_type;
            })
            by_market;
    })

  module _ (orders_by_id : Dict String (IntOrder F)) (pool_actor : String)
      (k_upper k_lower : F) where
    -- a direct trade of two participants: the bid is taken first
    unfoldable pub build_direct : IntTrade F → Building F → Result (Building F)
    build_direct trade b = do
      bid_order ← or_raise (lookup trade.bid_id orders_by_id) key_error
      taken_bid ← take bid_order true trade.trade_quantity trade.trade_id b.live
      offer_order ← or_raise (lookup trade.offer_id orders_by_id) key_error
      taken ← take offer_order false trade.trade_quantity trade.trade_id taken_bid.2
      add_match trade taken_bid.0 taken_bid.1 taken.0 taken.1 match_type_preferred taken.2
          b.pool_orders b.matches_by_market

    -- buyer to pool: the pool's offer is priced at the floor
    unfoldable pub build_buyer_pool : IntTrade F → Building F → Result (Building F)
    build_buyer_pool trade b = do
      order ← or_raise (lookup trade.bid_id orders_by_id) key_error
      taken ← take order true trade.trade_quantity trade.trade_id b.live
      let offer = pool_order trade.trade_id pool_actor taken.0 trade.trade_quantity k_lower false
      add_match trade taken.0 taken.1 offer none match_type_standard taken.2
          (b.pool_orders ++ (offer ∷ [])) b.matches_by_market

    -- pool to seller: the pool's bid is priced at the ceiling
    unfoldable pub build_pool_seller : IntTrade F → Building F → Result (Building F)
    build_pool_seller trade b = do
      order ← or_raise (lookup trade.offer_id orders_by_id) key_error
      taken ← take order false trade.trade_quantity trade.trade_id b.live
      let bid = pool_order trade.trade_id pool_actor taken.0 trade.trade_quantity k_upper true
      add_match trade bid none taken.0 taken.1 match_type_standard taken.2
          (b.pool_orders ++ (bid ∷ [])) b.matches_by_market

    -- one round of the loop over the trades
    unfoldable pub build_trade : IntTrade F → Building F → Result (Building F)
    build_trade trade b =
        let buyer_is_pool = trade.buyer_id == pool_actor in
        let seller_is_pool = trade.seller_id == pool_actor in
        if buyer_is_pool && seller_is_pool
        then err value_error
        else if not buyer_is_pool && not seller_is_pool
        then build_direct trade b
        else if seller_is_pool
        then build_buyer_pool trade b
        else build_pool_seller trade b

    unfoldable pub build_trades : List (IntTrade F) → Building F → Result (Building F)
    build_trades [] b = ok b
    build_trades (trade ∷ trades) b = do b' ← build_trade trade b; build_trades trades b'

  -- `{uuid_to_bytes16(r["marketId"]): r for r in clearing_results}`
  unfoldable pub index_results :
      List (IntClearingResult F)
      → Dict (List ℕ) (IntClearingResult F)
      → Result (Dict (List ℕ) (IntClearingResult F))
  index_results [] d = ok d
  index_results (r ∷ rs) d = do
    market ← uuid_to_bytes16 r.market_id
    index_results rs (insert market r d)

  unfoldable pub settle_markets :
      Dict (List ℕ) (IntClearingResult F)
      → Dict (List ℕ) (List (Match F))
      → Result (List (MarketSettlement F))
  settle_markets results [] = ok []
  settle_markets results ((market, matches) ∷ rest) = do
    result ← or_raise (lookup market results) value_error
    settlements ← settle_markets results rest
    ok (
        record {
          market_id = result.market_id;
          matches = matches;
          clearing_result = clearing_result result (length matches);
        }
        ∷ settlements)

  unfoldable pub build_settlements :
      List (IntTrade F)
      → Dict String (IntOrder F)
      → List (IntClearingResult F)
      → String
      → F
      → F
      → Result (BuildResult F)
  unfolding build_trades index_results settle_markets
  build_settlements trades orders_by_id clearing_results pool_actor k_upper k_lower = do
    results ← index_results clearing_results []
    b ← build_trades orders_by_id pool_actor k_upper k_lower trades no_building
    settlements ← settle_markets results b.matches_by_market
    ok (record { settlements = settlements; pool_orders = b.pool_orders })
