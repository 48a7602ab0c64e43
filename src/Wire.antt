-- ===== src/Wire.antt =====
-- The `int:` ontology objects that the services exchange (amm-clearing-node/schemas/intelligent),
-- and what the code takes from the standard library and cannot compute here.
pub mod Json
use ammba_uoc.Prelude.{ℕ, String, Option, List, Result}
use ammba_uoc.Prelude.Int.{ℤ}

-- A timestamp on the wire: a JSON number or an ISO-8601 text.
pub data Time (F : Type 0) : Type 0 where
  number : F → Time F
  text : String → Time F

-- `none` is an absent field, or one that is null where the schema lets it be.
pub record IntOrder (F : Type 0) : Type 0 where
  pub order_id : String
  pub market_id : String
  pub order_type : String
  pub order_status : Option String
  pub created_by : String
  pub time_slot : Time F
  pub creation_time : Option (Time F)
  pub created_at : Option (Time F)
  pub quantity : F
  pub price_limit : F
  pub preferred_trading_partner : Option String
  pub energy_source_preference : Option String
  pub energy_type : Option String
  pub preferred_energy_rate : Option F

pub record IntTrade (F : Type 0) : Type 0 where
  pub trade_id : String
  pub market_id : String
  pub bid_id : String
  pub buyer_id : String
  pub offer_id : String
  pub seller_id : String
  pub trade_status : String
  pub trade_quantity : F
  pub trade_price : F
  pub timestamp : String

pub record IntClearingResult (F : Type 0) : Type 0 where
  pub market_id : String
  pub clearing_status : String
  pub no_bid_reason : Option String
  pub clearing_price : F
  pub total_supply : F
  pub total_demand : F
  pub trade_quantity : F
  pub num_trades : ℕ
  pub tx_hash : String
  pub created_at : String

-- Functions of the standard library, as parameters: version 5 UUIDs (namespace, name), the
-- 16-byte blake2b hash of a text, and ISO-8601 times as unix seconds.
pub record Host : Type 0 where
  pub uuid5 : String → String → String
  pub blake2b : String → List ℕ
  pub parse_iso : String → Result ℤ
  pub render_iso : ℤ → String
