-- ===== src/Settlement/Examples.antt =====
-- The theorems of the execution node at concrete inputs, with the numbers of `Fixed`.
use ammba_uoc.Prelude.{
  ◌⊎◌, map_result, ℕ, ◌<◌, ◌≡◌, refl, ◌↔◌, String, Bool, true, false, string_eq, none, some, List,
  [], ◌∷◌, ◌++◌, map, length, concat, All, arith, Result, ok, err,
}
use ammba_uoc.Prelude.Int.{pos, ◌+ℤ◌, ◌-ℤ◌, sum_ℤ}
use ammba_uoc.Prelude.Text.{codes}
use ammba_uoc.Prelude.Dict.{Dict, lookup, contains}
use ammba_uoc.Arith.Fixed.{Fixed, fixed_arith, Fixed-IsOrdered, Fixed-IsRounded}
use ammba_uoc.Wire.{Host, IntOrder, IntTrade, text}
use ammba_uoc.Settlement.Ids.{
  parse_codes, parse_uuid_or_hex_bytes16, uuid_to_bytes16, from_hex, actor_onchain_id,
  bytes16_to_hex, bytes16_to_uuid, to_hex,
}
use ammba_uoc.Settlement.Ids.Roundtrip.{
  parse_codes-bytes16_to_hex, parse_codes-bytes16_to_uuid, parse_codes_blanks,
}
use ammba_uoc.Settlement.Structs.{
  OrderParams, Match, MarketSettlement, scale, energy_type_code, match_tuple, order_tuple,
  result_tuple, settlement_tuple,
}
use ammba_uoc.Settlement.Builder.{
  BuildResult, Building, no_building, take_form, take, to_unix, add_match, participant_params,
  remaining, build_trade, build_direct, build_buyer_pool, build_pool_seller, build_trades,
  residual_order_uuid,
}
use ammba_uoc.Settlement.Builder.Accounting.{
  Leaves, take_form_lem, match_entry, matches_of, trades_of, build_trades_lem,
}
use ammba_uoc.Settlement.Validator.{
  validate_match, validate_settlement, validate_batch, validate_from, check_params, check_price,
  check_standard, check_energy, bytes_of, flag,
}
use ammba_uoc.Settlement.Validator.Acceptance.{
  IsSettleable, selected_sum, validate_match_iff, validate_settlement_iff,
}
use ammba_uoc.Settlement.Validator.Batch.{validate_batch_lem}
use ammba_uoc.Settlement.Engine.{
  Ledger, is_settled, Respond, pack, pack_loop, settle, settle_fresh, register_actors, place_orders,
  settle_chunks, settle_chunk, mark_settled, mark_each,
}
use ammba_uoc.Settlement.Engine.Packing.{IsBounded, pack_lem}
use ammba_uoc.Settlement.Engine.Safety.{IsDue, IsCallFor, settle-calls, settle_mono}
use ammba_uoc.Settlement.Engine.Confirmed.{Confirmation, settle-Confirmation}
use ammba_uoc.Settlement.Engine.Again.{AllSettled, due, settle-done, settle-again}
use ammba_uoc.Settlement.Penalties.{
  SettledTrade, PriceBounds, PenaltyResult, compute_penalties_for_trades,
}
use ammba_uoc.Settlement.Penalties.Bounds.{AreResultsOf, compute_penalties_for_trades_lem}

abbrev num : ℕ → Fixed
num n = fixed_arith.dec n 0

abbrev bytes : List ℕ
bytes = 1 ∷ 2 ∷ 3 ∷ 4 ∷ 5 ∷ 6 ∷ 7 ∷ 8 ∷ 9 ∷ 10 ∷ 11 ∷ 12 ∷ 13 ∷ 14 ∷ 15 ∷ 255 ∷ []

instance abbrev example_host : Host
example_host = record {
  uuid5 = λ namespace name. name;
  blake2b = λ s. bytes;
  parse_iso = λ s. ok (pos 0);
  render_iso = λ t. "2026-01-01T00:00:00Z";
}

abbrev market_bytes : List ℕ
market_bytes = 0 ∷ 1 ∷ 2 ∷ 3 ∷ 4 ∷ 5 ∷ 6 ∷ 7 ∷ 8 ∷ 9 ∷ 10 ∷ 11 ∷ 12 ∷ 13 ∷ 14 ∷ 15 ∷ []

abbrev fourteen : List ℕ
fourteen = 2 ∷ 3 ∷ 4 ∷ 5 ∷ 6 ∷ 7 ∷ 8 ∷ 9 ∷ 10 ∷ 11 ∷ 12 ∷ 13 ∷ 14 ∷ 15 ∷ []

bytes_small : All (λ b. b < 256) bytes
bytes_small = ground arith

fifteen_small : All (λ b. b < 256) (1 ∷ fourteen)
fifteen_small = ground arith

parse_codes-bytes16_to_hex_example : parse_codes (bytes16_to_hex bytes) ≡ ok bytes
parse_codes-bytes16_to_hex_example = parse_codes-bytes16_to_hex bytes refl bytes_small

abbrev uuid_text : List ℕ
uuid_text = codes "01020304-0506-0708-090a-0b0c0d0e0fff"

parse_codes-bytes16_to_uuid_example : parse_codes uuid_text ≡ ok bytes
unfolding bytes16_to_uuid
parse_codes-bytes16_to_uuid_example =
    parse_codes-bytes16_to_uuid bytes uuid_text refl bytes_small refl

parse_codes_blanks_example :
    (length (1 ∷ fourteen) ≡ 15)
    × (parse_codes (b'0' ∷ b'x' ∷ (to_hex (1 ∷ []) ++ (b' ' ∷ b' ' ∷ to_hex fourteen)))
        ≡ ok (1 ∷ fourteen))
parse_codes_blanks_example = parse_codes_blanks 1 fourteen refl fifteen_small

abbrev params : String → String → Bool → ℕ → OrderParams Fixed
params id creator is_bid energy = record {
  order_id = id;
  created_by = creator;
  market_id = "0x000102030405060708090a0b0c0d0e0f";
  time_slot = pos 0;
  creation_time = pos 0;
  energy_kwh = num energy;
  energy_rate = num 1;
  is_bid = is_bid;
  energy_source_preference = none;
  energy_type = none;
  preferred_trading_partner = none;
  preferred_energy_rate = none;
}

take_form_example :
    let (taken, residual_id, live) = take_form (params "b" "alice" true 5) "b" (num 3) "t" [] in
    (taken ≡ params "b" "alice" true 5)
    × ((next : OrderParams Fixed) × (lookup "b" live ≡ some next)
        × Leaves (params "b" "alice" true 5) (num 3) (residual_order_uuid "b" "t") residual_id next)
    × (lookup "c" live ≡ none)
take_form_example =
    take_form_lem Fixed-IsRounded (params "b" "alice" true 5) "b" "c" "t" (num 3) []
      (ground (arith, string_eq.beq_iff "b" "c"))

abbrev trade : String → String → String → String → String → ℕ → IntTrade Fixed
trade id bid buyer offer seller quantity = record {
  trade_id = id;
  market_id = "0x000102030405060708090a0b0c0d0e0f";
  bid_id = bid;
  buyer_id = buyer;
  offer_id = offer;
  seller_id = seller;
  trade_status = "matched";
  trade_quantity = num quantity;
  trade_price = num 1;
  timestamp = "2026-01-01T00:00:00Z";
}

abbrev int_order : String → String → String → ℕ → IntOrder Fixed
int_order id kind creator energy = record {
  order_id = id;
  market_id = "0x000102030405060708090a0b0c0d0e0f";
  order_type = kind;
  order_status = some "submitted";
  created_by = creator;
  time_slot = text "2026-01-01T00:00:00Z";
  creation_time = some (text "2026-01-01T00:00:00Z");
  created_at = none;
  quantity = num energy;
  price_limit = num 1;
  preferred_trading_partner = none;
  energy_source_preference = none;
  energy_type = none;
  preferred_energy_rate = none;
}

abbrev orders : Dict String (IntOrder Fixed)
orders = ("b", int_order "b" "bid" "alice" 5) ∷ ("o", int_order "o" "offer" "bob" 5) ∷ []

abbrev trades : List (IntTrade Fixed)
trades = trade "t" "b" "alice" "o" "bob" 3 ∷ trade "u" "b" "alice" "p" "pool" 1 ∷ []

abbrev value_or : {A : Type 0} → A → Result A → A
value_or x (ok y) = y
value_or x (err e) = x

abbrev built : Building Fixed
unfolding build_trades build_trade build_direct build_buyer_pool build_pool_seller take take_form
    add_match participant_params to_unix uuid_to_bytes16 parse_uuid_or_hex_bytes16 parse_codes
    from_hex remaining scale ◌-ℤ◌
built = value_or no_building (build_trades orders "pool" (num 28) (num 8) trades no_building)

build_trades_example :
    map match_entry (matches_of market_bytes built.matches_by_market)
    ≡ trades_of market_bytes trades
unfolding build_trades build_trade build_direct build_buyer_pool build_pool_seller take take_form
    add_match participant_params to_unix uuid_to_bytes16 parse_uuid_or_hex_bytes16 parse_codes
    from_hex remaining scale ◌-ℤ◌
build_trades_example =
    build_trades_lem orders "pool" (num 28) (num 8) trades built market_bytes refl

abbrev match : Match Fixed
match = record {
  trade_id = "0x0001020304050607080900000000000a";
  bid = params "0x0001020304050607080900000000000b" "alice" true 5;
  offer = params "0x0001020304050607080900000000000c" "bob" false 5;
  selected_energy_kwh = num 3;
  clearing_price = num 1;
  residual_bid_id = none;
  residual_offer_id = none;
  match_type = 0;
}

abbrev market : MarketSettlement Fixed
market = record {
  market_id = "0x000102030405060708090a0b0c0d0e0f";
  matches = match ∷ [];
  clearing_result = record {
    market_id = "0x000102030405060708090a0b0c0d0e0f";
    clearing_status = codes "final";
    clearing_price = num 1;
    total_supply_kwh = num 5;
    total_demand_kwh = num 5;
    traded_quantity_kwh = num 3;
    num_trades = 1;
  };
}

validate_match_iff_example : (validate_match match ≡ []) ↔ IsSettleable match
validate_match_iff_example = validate_match_iff match

-- A trade id of sixteen zero bytes, and two market ids that are no ids, pass.
zero_id_passes :
    validate_match (record match {
      trade_id = "00000000-0000-0000-0000-000000000000";
      bid = record (match.bid) { market_id = "market-a" };
      offer = record (match.offer) { market_id = "market-b" };
    })
    ≡ []
unfolding validate_match check_params check_price check_standard check_energy bytes_of flag
    uuid_to_bytes16 parse_uuid_or_hex_bytes16 parse_codes from_hex scale ◌-ℤ◌
zero_id_passes = refl

validate_settlement_iff_example :
    (validate_settlement market ≡ [])
    ↔ (All IsSettleable (match ∷ []) × (selected_sum (match ∷ []) ≡ scale (num 3)))
validate_settlement_iff_example = validate_settlement_iff market

validate_batch_example :
    All
      (λ s.
        (contains s.market_id (validate_batch (market ∷ [])) ≡ true) ⊎ (validate_settlement s ≡ []))
      (market ∷ [])
validate_batch_example = validate_batch_lem (market ∷ [])

pack_example :
    (concat (pack (market ∷ market ∷ market ∷ []) 2) ≡ market ∷ market ∷ market ∷ [])
    × All (IsBounded 2) (pack (market ∷ market ∷ market ∷ []) 2)
pack_example = pack_lem (market ∷ market ∷ market ∷ []) 2

abbrev build : BuildResult Fixed
build = record { settlements = market ∷ []; pool_orders = [] }

abbrev respond : Respond
respond calls c = ok "0xabc"

abbrev empty_ledger : Ledger
empty_ledger = record { settled = []; placed_orders = [] }

abbrev old_ledger : Ledger
old_ledger = record { settled = ("m", "0x1") ∷ []; placed_orders = [] }

settle-calls_example :
    All
      (IsCallFor Fixed (IsDue Fixed build empty_ledger))
      (settle respond true 50 build [] empty_ledger).1.calls
settle-calls_example = settle-calls Fixed respond true 50 build empty_ledger

settle_mono_example : is_settled "m" (settle respond true 50 build [] old_ledger).1.ledger ≡ true
settle_mono_example = settle_mono Fixed respond true 50 build [] old_ledger "m" refl

run_ok : (settle respond false 50 build [] empty_ledger).0 ≡ ok tt
unfolding settle settle_fresh validate_batch validate_from validate_settlement validate_match
    check_params check_price check_standard check_energy bytes_of flag uuid_to_bytes16
    parse_uuid_or_hex_bytes16 parse_codes from_hex actor_onchain_id scale sum_ℤ ◌+ℤ◌ register_actors
    place_orders settle_chunks pack pack_loop settle_chunk map_result energy_type_code match_tuple
    order_tuple result_tuple settlement_tuple
run_ok = refl

market_settled :
    is_settled "0x000102030405060708090a0b0c0d0e0f"
      (settle respond false 50 build [] empty_ledger).1.ledger
    ≡ true
unfolding settle settle_fresh validate_batch validate_from validate_settlement validate_match
    check_params check_price check_standard check_energy bytes_of flag uuid_to_bytes16
    parse_uuid_or_hex_bytes16 parse_codes from_hex actor_onchain_id scale sum_ℤ ◌+ℤ◌ register_actors
    place_orders settle_chunks pack pack_loop settle_chunk map_result energy_type_code match_tuple
    order_tuple result_tuple settlement_tuple mark_settled mark_each
market_settled = refl

settle-Confirmation_example :
    (is_settled "0x000102030405060708090a0b0c0d0e0f" empty_ledger ≡ true)
    ⊎ Confirmation Fixed respond "0x000102030405060708090a0b0c0d0e0f" build empty_ledger
        (settle respond false 50 build [] empty_ledger).1.calls
settle-Confirmation_example =
    settle-Confirmation Fixed respond "0x000102030405060708090a0b0c0d0e0f" false 50 build
      empty_ledger market_settled

settle-done_example :
    AllSettled Fixed
      (settle respond false 50 build [] empty_ledger).1.ledger
      (due Fixed build empty_ledger)
settle-done_example = settle-done Fixed respond false 50 build [] empty_ledger run_ok

settle-again_example :
    let l = (settle respond false 50 build [] empty_ledger).1.ledger in
    let again = settle respond false 10 build [] l in
    (again.0 ≡ ok tt) × (again.1.calls ≡ []) × (again.1.ledger ≡ l)
settle-again_example =
    settle-again Fixed respond respond false false 50 10 build [] [] empty_ledger run_ok

abbrev settled : SettledTrade Fixed
settled = record {
  trade_uuid = some "t";
  buyer = some "AMM_POOL_1";
  seller = some "bob";
  parameters = record {
    total_supply_kwh = some (num 3);
    total_demand_kwh = some (num 5);
    energy_rate = some (num 20);
    theta = none;
    steepness = none;
    selected_energy = some (num 3);
  };
  offer_area_uuid = some "a";
  bid_area_uuid = none;
}

abbrev bounds : PriceBounds Fixed
bounds = record { k_upper = some (num 28); k_lower = some (num 8); theta = none; steepness = none }

compute_penalties_for_trades_example :
    (ps : List (PenaltyResult Fixed)) × (compute_penalties_for_trades
        (settled ∷ [])
        (("a", num 2) ∷ [])
        bounds
        (num 1)
        (num 0)
      ≡ ok ps)
    × AreResultsOf Fixed-IsOrdered Fixed-IsRounded (settled ∷ []) ps
compute_penalties_for_trades_example =
    compute_penalties_for_trades_lem Fixed-IsOrdered Fixed-IsRounded settled [] (("a", num 2) ∷ [])
      bounds (num 28) (num 8) (num 1) (num 0) refl refl refl refl refl (refl, tt)
