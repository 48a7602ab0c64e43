-- ===== src/Clearing/Ewds/Client.antt =====
-- amm-clearing-node/src/ewds_client.py: the reads of the client, each one query.
use ammba_uoc.Prelude.{
  ℕ, String, Bool, false, Option, none, some, List, [], ◌∷◌, map, concat, ◌==◌, bytes_eq,
  if◌then◌else◌, Result, ok, err, key_error, type_error, ewds_error, map_result, ◌>>=◌,
}
use ammba_uoc.Prelude.Int.{ℤ}
use ammba_uoc.Prelude.Text.{codes, present}
use ammba_uoc.Arith.{Arith}
use ammba_uoc.Wire.Json.{
  Json, Fields, string, array, object, cons, end, field, get, keys, to_list, of_list, truth,
  or_else,
}
use ammba_uoc.Clearing.MarketIds.{Python, storage_market_id}
use ammba_uoc.Clearing.Dialects.{
  Printer, str_of, fields_of, InternalMarket, ewds_order_to_int_order, ewds_market_to_internal,
}
use ammba_uoc.Clearing.Ewds.{EwdsConfig, Bus, query}

module _ {F : Type 0} where
  -- What a loop over a value goes through.
  unfoldable pub elements : Json F → Result (List (Json F))
  elements (array xs) = ok (to_list xs)
  elements (object d) = ok (map (λ k. string (codes k)) (keys d))
  elements (string cs) = ok (map (λ c. string (c ∷ [])) cs)
  elements _ = err type_error

  -- A DTO that fails is skipped; the log line reads its id, which only a dict has.
  unfoldable pub kept {ℓ} : {A : Type ℓ} → (Fields F → Result A) → Json F → Result (List A)
  unfolding fields_of
  kept normalize dto = do
    d ← fields_of dto
    elim (normalize d) [ ok x ↦ ok (x ∷ []) | err e ↦ ok [] ]

  -- `for dto in data`, with the DTOs that can be normalized, in order
  unfoldable pub normalized_each {ℓ} :
      {A : Type ℓ} → (Fields F → Result A) → Json F → Result (List A)
  unfolding elements kept
  normalized_each normalize received = do
    dtos ← elements received
    xss ← map_result (kept normalize) dtos
    ok (concat xss)

  -- `[x for x in xs if test(x)]`, where the test reads a dict
  unfoldable pub filter_result : (Json F → Result Bool) → List (Json F) → Result (List (Json F))
  filter_result test [] = ok []
  filter_result test (x ∷ xs) = do
    keeps ← test x
    rest ← filter_result test xs
    ok (if keeps then x ∷ rest else rest)

  abbrev pub is_text : List ℕ → Json F → Bool
  is_text text (string s) = s == text
  is_text text _ = false

module _ {F : Type 0} where
  -- `data[0]`
  unfoldable pub first_element : Json F → Result (Json F)
  first_element (array (cons x xs)) = ok x
  first_element (object d) = err key_error
  first_element (string (c ∷ cs)) = ok (string (c ∷ []))
  first_element _ = err type_error

  unfoldable pub of_community : List ℕ → Json F → Result Bool
  unfolding fields_of
  of_community community_uuid measurement = do
    m ← fields_of measurement
    ok (is_text community_uuid (get "communityUuid" m))

  unfoldable pub in_community : Option String → Json F → Result (Json F)
  unfolding elements filter_result of_community
  in_community none received = ok received
  in_community (some uuid) received =
      if present (some uuid)
      then (do
        ms ← elements received
        own ← filter_result (λ m. of_community (codes uuid) m) ms
        ok (array (of_list own)))
      else ok received

  abbrev pub given_text : String → Option String → Fields F → Fields F
  given_text key none rest = rest
  given_text key (some text) rest =
      if present (some text) then field key (string (codes text)) rest else rest

module _ {F : Type 0} ⦃py : Python⦄ where
  -- a text under a key, for an argument that is given
  abbrev pub given_time : String → Option ℤ → Fields F → Result (Fields F)
  given_time key none rest = ok rest
  given_time key (some time) rest = do iso ← py.unix_to_iso time; ok (field key (string iso) rest)

module _ {F : Type 0} ⦃a : Arith F⦄ ⦃py : Python⦄ ⦃p : Printer F⦄ where
  -- `storage_market_id(str(t.get("marketId") or t.get("market_id") or "")) == wanted`
  unfoldable pub trades_market : List ℕ → Json F → Result Bool
  unfolding storage_market_id fields_of
  trades_market wanted trade = do
    t ← fields_of trade
    let id = or_else (or_else (get "marketId" t) (get "market_id" t)) (string [])
    ok (storage_market_id (str_of id) == wanted)

module _ {F : Type 0} ⦃a : Arith F⦄ ⦃py : Python⦄ ⦃p : Printer F⦄ (bus : Bus F)
    (config : EwdsConfig) where
  unfoldable pub get_orders : List ℕ → ℤ → ℤ → Result (List (Fields F))
  unfolding storage_market_id query normalized_each ewds_order_to_int_order
  get_orders market_id start_time end_time = do
    start ← py.unix_to_iso start_time
    stop ← py.unix_to_iso end_time
    received ← query bus config "orders.query" (
        field "marketId" (string (storage_market_id market_id))
          (field "startTime" (string start) (field "endTime" (string stop) end)))
    normalized_each (λ dto. ewds_order_to_int_order dto) received

  unfoldable pub get_trades : List ℕ → Result (List (Json F))
  unfolding query elements filter_result trades_market
  get_trades market_id = do
    let wanted = storage_market_id market_id
    received ← query bus config "trades.query" (field "marketId" (string wanted) end)
    trades ← elements received
    filter_result (λ t. trades_market wanted t) trades

  unfoldable pub get_markets :
      Option String → Option ℤ → Option ℤ → Result (List (InternalMarket F))
  unfolding query normalized_each ewds_market_to_internal
  get_markets community_id start_time end_time = do
    until ← given_time "endTime" end_time end
    since ← given_time "startTime" start_time until
    received ← query bus config "markets.query" (given_text "communityId" community_id since)
    normalized_each (λ dto. ewds_market_to_internal dto) received

  -- Without a community to filter by, the data are returned as they are.
  unfoldable pub get_measurements : ℤ → ℤ → Option String → Option String → Result (Json F)
  unfolding query in_community
  get_measurements start_time end_time community_uuid facility_id = do
    start ← py.unix_to_iso start_time
    stop ← py.unix_to_iso end_time
    received ← query bus config "measurements.query" (
        field "startTime" (string start)
          (field "endTime" (string stop) (given_text "facility_id" facility_id end)))
    in_community community_uuid received

  unfoldable pub get_or_create_onchain_id : List ℕ → Result (Json F)
  unfolding query first_element
  get_or_create_onchain_id offchain_id = do
    received ← query bus config "ids.query" (field "offchainId" (string offchain_id) end)
    if truth received then first_element received else err ewds_error
