-- ===== src/Settlement/Structs.antt =====
-- amm-execution-node/src/structs.py: the structs of the settlement contracts and their encoding.
use ammba_uoc.Prelude.{
  ℕ, String, Bool, Option, none, some, List, [], ◌∷◌, bytes_eq, if◌then◌else◌, Result, ok,
  value_error, key_error, or_raise, map_result, ◌>>=◌,
}
use ammba_uoc.Prelude.Int.{ℤ, pos}
use ammba_uoc.Prelude.Dict.{Dict, lookup}
use ammba_uoc.Prelude.Text.{codes, upper, present}
use ammba_uoc.Arith.{Arith}
use ammba_uoc.Wire.{Host}
use ammba_uoc.Settlement.Ids.{zero_bytes16, uuid_to_bytes16, actor_onchain_id}

abbrev pub scaling_factor : ℕ
scaling_factor = 10_000

abbrev pub energy_type_codes : Dict (List ℕ) ℕ
energy_type_codes =
    (codes "NONE", 0)
    ∷ (codes "GREEN", 1)
    ∷ (codes "PV", 2)
    ∷ (codes "HYDRO", 3)
    ∷ (codes "BIOMASS", 4)
    ∷ (codes "BATTERY", 5)
    ∷ []

abbrev pub match_type_standard : ℕ
match_type_standard = 0

abbrev pub match_type_preferred : ℕ
match_type_preferred = 1

abbrev pub clearing_status_codes : Dict (List ℕ) ℕ
clearing_status_codes =
    (codes "final", 1) ∷ (codes "partial", 2) ∷ (codes "rejected", 3) ∷ (codes "no_bid", 4) ∷ []

-- `OrderParams`: an order as registered on the chain.
pub record OrderParams (F : Type 0) : Type 0 where
  pub order_id : String
  pub created_by : String
  pub market_id : String
  pub time_slot : ℤ
  pub creation_time : ℤ
  pub energy_kwh : F
  pub energy_rate : F
  pub is_bid : Bool
  pub energy_source_preference : Option String
  pub energy_type : Option String
  pub preferred_trading_partner : Option String
  pub preferred_energy_rate : Option F

pub record OrderTuple : Type 0 where
  pub order_id : List ℕ
  pub created_by : List ℕ
  pub market_id : List ℕ
  pub time_slot : ℤ
  pub creation_time : ℤ
  pub energy : ℤ
  pub energy_rate : ℤ
  pub energy_source_preference : ℕ
  pub energy_type : ℕ
  pub is_bid : Bool
  pub preferred_trading_partner : List ℕ
  pub preferred_energy_rate : ℤ

-- `Match`: a bid and an offer that can be settled.
pub record Match (F : Type 0) : Type 0 where
  pub trade_id : String
  pub bid : OrderParams F
  pub offer : OrderParams F
  pub selected_energy_kwh : F
  pub clearing_price : F
  pub residual_bid_id : Option String
  pub residual_offer_id : Option String
  pub match_type : ℕ

pub record MatchTuple : Type 0 where
  pub trade_id : List ℕ
  pub bid : OrderTuple
  pub offer : OrderTuple
  pub residual_bid_id : List ℕ
  pub residual_offer_id : List ℕ
  pub selected_energy : ℤ
  pub clearing_price : ℤ
  pub match_type : ℕ

pub record ClearingResult (F : Type 0) : Type 0 where
  pub market_id : String
  pub clearing_status : List ℕ
  pub clearing_price : F
  pub total_supply_kwh : F
  pub total_demand_kwh : F
  pub traded_quantity_kwh : F
  pub num_trades : ℕ

pub record ResultTuple : Type 0 where
  pub market_id : List ℕ
  pub clearing_status : ℕ
  pub clearing_price : ℤ
  pub total_supply : ℤ
  pub total_demand : ℤ
  pub traded_quantity : ℤ
  pub num_trades : ℕ

-- `MarketSettlement`: the matches of one market and its result.
pub record MarketSettlement (F : Type 0) : Type 0 where
  pub market_id : String
  pub matches : List (Match F)
  pub clearing_result : ClearingResult F

abbrev pub SettlementTuple : Type 0
SettlementTuple = List MatchTuple × ResultTuple

unfoldable pub energy_type_code : Option String → Result ℕ
energy_type_code none = ok 0
energy_type_code (some value) = or_raise (lookup (upper value) energy_type_codes) value_error

-- the bytes of an optional id, or zeros
abbrev pub id_or_zero : Option String → Result (List ℕ)
id_or_zero none = ok zero_bytes16
id_or_zero (some value) = if present (some value) then uuid_to_bytes16 value else ok zero_bytes16

module _ ⦃h : Host⦄ where
  abbrev pub partner_bytes : Option String → List ℕ
  partner_bytes none = zero_bytes16
  partner_bytes (some p) = if present (some p) then actor_onchain_id p else zero_bytes16

module _ {F : Type 0} ⦃a : Arith F⦄ where
  unfoldable pub scale : F → ℤ
  scale value = a.round (a.mul value (a.dec scaling_factor 0))

  -- `if order.preferred_energy_rate`: present and not zero
  abbrev pub rate_set : Option F → Option F
  rate_set none = none
  rate_set (some r) = if a.eq r (a.dec 0 0) then none else some r

  abbrev pub scaled_rate : Option F → ℤ
  scaled_rate none = pos 0
  scaled_rate (some r) = scale r

  -- The order that the registry creates for the unfilled rest of this one.
  abbrev pub residual : OrderParams F → String → F → OrderParams F
  residual order residual_order_id energy_kwh = record order {
    order_id = residual_order_id;
    energy_kwh = energy_kwh;
  }

  module _ ⦃h : Host⦄ where
    unfoldable pub order_tuple : OrderParams F → Result OrderTuple
    order_tuple o = do
      order_id ← uuid_to_bytes16 o.order_id
      market_id ← uuid_to_bytes16 o.market_id
      source ← energy_type_code o.energy_source_preference
      kind ← energy_type_code o.energy_type
      ok (record {
        order_id = order_id;
        created_by = actor_onchain_id o.created_by;
        market_id = market_id;
        time_slot = o.time_slot;
        creation_time = o.creation_time;
        energy = scale o.energy_kwh;
        energy_rate = scale o.energy_rate;
        energy_source_preference = source;
        energy_type = kind;
        is_bid = o.is_bid;
        preferred_trading_partner = partner_bytes o.preferred_trading_partner;
        preferred_energy_rate = scaled_rate (rate_set o.preferred_energy_rate);
      })

    unfoldable pub match_tuple : Match F → Result MatchTuple
    unfolding order_tuple
    match_tuple m = do
      trade_id ← uuid_to_bytes16 m.trade_id
      bid ← order_tuple m.bid
      offer ← order_tuple m.offer
      residual_bid_id ← id_or_zero m.residual_bid_id
      residual_offer_id ← id_or_zero m.residual_offer_id
      ok (record {
        trade_id = trade_id;
        bid = bid;
        offer = offer;
        residual_bid_id = residual_bid_id;
        residual_offer_id = residual_offer_id;
        selected_energy = scale m.selected_energy_kwh;
        clearing_price = scale m.clearing_price;
        match_type = m.match_type;
      })

    unfoldable pub result_tuple : ClearingResult F → Result ResultTuple
    result_tuple r = do
      market_id ← uuid_to_bytes16 r.market_id
      status ← or_raise (lookup r.clearing_status clearing_status_codes) key_error
      ok (record {
        market_id = market_id;
        clearing_status = status;
        clearing_price = scale r.clearing_price;
        total_supply = scale r.total_supply_kwh;
        total_demand = scale r.total_demand_kwh;
        traded_quantity = scale r.traded_quantity_kwh;
        num_trades = r.num_trades;
      })

    unfoldable pub settlement_tuple : MarketSettlement F → Result SettlementTuple
    unfolding match_tuple result_tuple
    settlement_tuple s = do
      matches ← map_result match_tuple s.matches
      result ← result_tuple s.clearing_result
      ok (matches, result)
