-- ===== src/Clearing/Adapters.antt =====
-- amm-clearing-node/src/adapters.py: from the wire's `int:` objects to the internal order and back.
use ammba_uoc.Prelude.{
  ℕ, String, ◌||◌, Option, none, some, List, [], ◌∷◌, map, any, ◌==◌, string_eq, if◌then◌else◌,
  Result, ok, err, or_raise, key_error, type_error, ◌>>=◌,
}
use ammba_uoc.Prelude.Int.{ℤ}
use ammba_uoc.Prelude.Text.{codes, lower_code, upper_code, present, append}
use ammba_uoc.Arith.{Arith}
use ammba_uoc.Wire.{Host, Time, number, text, IntOrder, IntTrade, IntClearingResult}
use ammba_uoc.Clearing.Orders.{Order, Requirements, PreferenceMatch, default_to}

abbrev pub matchable_order_statuses : List String
matchable_order_statuses = "submitted" ∷ "expired" ∷ []

abbrev pub cleared_trade_status : String
cleared_trade_status = "matched"

-- the namespace for URLs, of RFC 4122
abbrev pub namespace_url : String
namespace_url = "6ba7b811-9dad-11d1-80b4-00c04fd430c8"

-- `s.capitalize()`, on ASCII
unfoldable pub capitalize : List ℕ → List ℕ
capitalize [] = []
capitalize (c ∷ cs) = upper_code c ∷ map lower_code cs

-- `"Open"` for the statuses that may match, and any other status as it is
unfoldable pub internal_status : Option String → Option String
internal_status none = none
internal_status (some s) =
    if any (λ x. x == s) matchable_order_statuses then some "Open" else some s

-- the list of one text, or none for a field that is absent or empty
abbrev pub listed : Option String → List String
listed none = []
listed (some s) = if present (some s) then s ∷ [] else []

unfoldable pub requirements_of : Option String → Option String → Option Requirements
requirements_of partner source =
    if present partner || present source
    then some (record { trading_partner_id = listed partner; energy_source = listed source })
    else none

unfoldable pub attributes_of : Option String → Option (List String)
attributes_of energy_type = if present energy_type then some (listed energy_type) else none

module _ {F : Type 0} ⦃a : Arith F⦄ where
  unfoldable pub ct_to_eur : F → F
  ct_to_eur value_ct = a.div value_ct (a.dec 100 0)

module _ ⦃h : Host⦄ where
  abbrev pub ammba_ns : String
  ammba_ns = h.uuid5 namespace_url "https://ammba.uoc/ontology"

  unfoldable pub pool_order_uuid : String → String → String
  pool_order_uuid market_id side =
      h.uuid5 ammba_ns (append "pool-order:" (append side (append ":" market_id)))

  unfoldable pub trade_uuid : String → String → String → String
  trade_uuid market_id kind key =
      h.uuid5 ammba_ns
        (append "trade:" (append market_id (append ":" (append kind (append ":" key)))))

  -- `iso_to_unix`; a number has no `replace`
  unfoldable pub iso_to_unix : {F : Type 0} → Time F → Result ℤ
  iso_to_unix (number n) = err type_error
  iso_to_unix (text s) = h.parse_iso s

module _ {F : Type 0} ⦃h : Host⦄ where
  unfoldable pub int_order_to_internal : IntOrder F → Result (Order F)
  unfolding iso_to_unix capitalize internal_status requirements_of attributes_of
  int_order_to_internal order = do
    time_slot ← iso_to_unix order.time_slot
    created ← or_raise order.creation_time key_error
    creation_time ← iso_to_unix created
    ok (record {
      order_id = order.order_id;
      market_id = order.market_id;
      order_type = capitalize (codes order.order_type);
      status = internal_status order.order_status;
      created_by = order.created_by;
      area_uuid = order.created_by;
      time_slot = time_slot;
      creation_time = creation_time;
      energy = order.quantity;
      energy_rate = some order.price_limit;
      requirements = requirements_of order.preferred_trading_partner order.energy_source_preference;
      attributes = attributes_of order.energy_type;
      allocated_energy = none;
      preference_matches = [];
    })

module _ {F : Type 0} where
  unfoldable pub int_trade :
      (trade_id market_id bid_id buyer_id offer_id seller_id : String) → F → F → String → IntTrade F
  int_trade trade_id market_id bid_id buyer_id offer_id seller_id quantity price_eur traded_at_iso =
      record {
        trade_id = trade_id;
        market_id = market_id;
        bid_id = bid_id;
        buyer_id = buyer_id;
        offer_id = offer_id;
        seller_id = seller_id;
        trade_status = cleared_trade_status;
        trade_quantity = quantity;
        trade_price = price_eur;
        timestamp = traded_at_iso;
      }

module _ {F : Type 0} ⦃a : Arith F⦄ ⦃h : Host⦄ where
  unfoldable pub build_direct_int_trade : PreferenceMatch F → String → F → String → IntTrade F
  unfolding int_trade
  build_direct_int_trade m market_id price_eur traded_at_iso =
      int_trade (trade_uuid market_id "pref" (append m.bid_order_id (append ":" m.offer_order_id)))
        market_id m.bid_order_id m.buyer m.offer_order_id m.seller m.energy price_eur traded_at_iso

  unfoldable pub build_buyer_pool_int_trade :
      Order F → String → String → String → F → String → IntTrade F
  unfolding int_trade
  build_buyer_pool_int_trade bid pool_actor pool_offer_id market_id price_eur traded_at_iso =
      int_trade (trade_uuid market_id "buyer-pool" bid.order_id) market_id bid.order_id
        bid.created_by pool_offer_id pool_actor (default_to bid.allocated_energy (a.dec 0 0))
        price_eur traded_at_iso

  unfoldable pub build_pool_seller_int_trade :
      Order F → String → String → String → F → String → IntTrade F
  unfolding int_trade
  build_pool_seller_int_trade offer pool_actor pool_bid_id market_id price_eur traded_at_iso =
      int_trade (trade_uuid market_id "pool-seller" offer.order_id) market_id pool_bid_id pool_actor
        offer.order_id offer.created_by (default_to offer.allocated_energy (a.dec 0 0)) price_eur
        traded_at_iso

module _ {F : Type 0} where
  unfoldable pub build_int_clearing_result :
      (market_id clearing_status : String)
      (clearing_price_eur total_supply_kwh total_demand_kwh traded_quantity_kwh : F)
      → ℕ
      → String
      → String
      → Option String
      → IntClearingResult F
  build_int_clearing_result market_id clearing_status clearing_price_eur total_supply_kwh
        total_demand_kwh traded_quantity_kwh num_trades tx_hash created_at_iso no_bid_reason =
      record {
        market_id = market_id;
        clearing_status = clearing_status;
        no_bid_reason = no_bid_reason;
        clearing_price = clearing_price_eur;
        total_supply = total_supply_kwh;
        total_demand = total_demand_kwh;
        trade_quantity = traded_quantity_kwh;
        num_trades = num_trades;
        tx_hash = tx_hash;
        created_at = created_at_iso;
      }
