-- ===== src/Clearing/Ewds/Examples.antt =====
-- The client of the gateway and its dialects at concrete inputs.
use ammba_uoc.Prelude.{
  ℕ, zero, suc, ◌≤◌, ◌+◌, ◌≡◌, refl, String, true, false, Option, none, some, List, [], ◌∷◌, All,
  length, arith, inl, inr, ◌==◌, bytes_eq, if◌then◌else◌, ok, err, attribute_error, ewds_timeout,
  map_result,
}
use ammba_uoc.Prelude.Int.{ℤ, pos, ◌≤ℤ◌, ◌<ℤ◌, ◌+ℤ◌, sum_ℤ}
use ammba_uoc.Prelude.Text.{codes}
use ammba_uoc.Arith.Fixed.{Fixed, fixed_arith, Fixed-IsOrdered, Fixed-IsRounded}
use ammba_uoc.Wire.Json.{
  Json, Fields, null, bool, int, float, string, array, object, nil, cons, end, field, truth,
}
use ammba_uoc.Clearing.MarketIds.{Python}
use ammba_uoc.Clearing.Dialects.{Printer, is_empty, str_of, ewds_order_to_int_order}
use ammba_uoc.Clearing.Dialects.Canonical.{ewds_order_to_int_order_idem}
use ammba_uoc.Clearing.Retry.{response}
use ammba_uoc.Clearing.Ewds.{EwdsConfig, Bus}
use ammba_uoc.Clearing.Ewds.Delays.{poll_delays_ms, max_ℤ, poll_delays_ms_lem}
use ammba_uoc.Clearing.Ewds.Messages.{Gateway, request, payload_of, is_own, read_messages}
use ammba_uoc.Clearing.Ewds.Polling.{poll_loop}
use ammba_uoc.Clearing.Ewds.Answers.{NoneIn, DeliversResponse, poll_loop_complete, poll_loop_sound}
use ammba_uoc.Clearing.Ewds.Client.{get_orders}
use ammba_uoc.Clearing.Ewds.Canonical.{get_orders-Canonical}

-- A second, one and a half, two and a quarter, with a limit of two seconds and a timeout of five.
delays_computed :
    poll_delays_ms {F = Fixed} (pos 1000) (pos 2000) (pos 5000) (fixed_arith.dec 15 1)
    ≡ some (pos 1000 ∷ pos 1500 ∷ pos 2000 ∷ [])
unfolding poll_delays_ms ◌+ℤ◌
delays_computed = refl

poll_delays_ms_example :
    (delays : List ℤ) × ((poll_delays_ms {F = Fixed}
          (pos 1000)
          (pos 2000)
          (pos 5000)
          (fixed_arith.dec 15 1)
        ≡ some delays)
      × (All (λ d. (pos 1000 ≤ℤ d) × (d ≤ℤ max_ℤ (pos 2000) (pos 1000))) delays
          × ((sum_ℤ delays ≤ℤ pos 5000)
              × (pos 5000 <ℤ sum_ℤ delays +ℤ max_ℤ (pos 2000) (pos 1000)))))
poll_delays_ms_example =
    poll_delays_ms_lem Fixed-IsOrdered Fixed-IsRounded (pos 1000) (pos 2000) (pos 5000)
      (fixed_arith.dec 15 1) (omega arith) (omega arith) refl refl

abbrev order_dto : Fields Fixed
order_dto = field "order_id" (string (codes "o")) (
    field "market_id" (string (codes "m")) (
      field "order_type" (string (codes "Bid")) (
        field "status" (string (codes "Open")) (
          field "time_slot" (int (pos 3600)) (
            field "energy" (float (fixed_arith.dec 2 0)) (
              field "energy_rate" (float (fixed_arith.dec 25 2)) (
                field "created_by" (string (codes "a")) (
                  field "created_at" (int (pos 0)) (
                    field "attributes" (object (field "energy_type" (string (codes " pv ")) end))
                      end)))))))))

abbrev canonical_order : Fields Fixed
canonical_order = field "orderId" (string (codes "o")) (
    field "marketId" (string (codes "m")) (
      field "orderType" (string (codes "bid")) (
        field "orderStatus" (string (codes "submitted")) (
          field "timeSlot" (string (codes "t")) (
            field "quantity" (float (fixed_arith.dec 2 0)) (
              field "priceLimit" (float (fixed_arith.dec 25 2)) (
                field "createdBy" (string (codes "a")) (
                  field "creationTime" (string (codes "t"))
                    (field "energyType" (string (codes "PV")) end)))))))))

instance abbrev example_python : Python
example_python = record {
  unix_to_iso = λ n. ok (codes "t");
  iso_to_unix = λ s. ok (pos 0);
  uuid_hex = λ s. none;
  is_hex_int = λ s. false;
}

instance abbrev example_printer : Printer Fixed
example_printer = record { str = λ v. codes "value" }

order_normalized : ewds_order_to_int_order order_dto ≡ ok canonical_order
unfolding ewds_order_to_int_order
order_normalized = refl

example_printed : (v : Json Fixed) → truth v ≡ true → is_empty (str_of v) ≡ false
example_printed (string []) h = absurd (ground arith)
example_printed (string (c ∷ cs)) h = refl
example_printed v h = refl

ewds_order_to_int_order_idem_example : ewds_order_to_int_order canonical_order ≡ ok canonical_order
ewds_order_to_int_order_idem_example =
    ewds_order_to_int_order_idem example_printed order_dto canonical_order order_normalized

-- The own response is the second message of the second poll.
abbrev own_response : Fields Fixed
own_response =
    field "requestId" (string (codes "r"))
      (field "success" (bool true) (field "data" (array (cons (object order_dto) nil)) end))

abbrev other_response : Fields Fixed
other_response = field "requestId" (string (codes "q")) (field "success" (bool true) end)

abbrev example_loads : List ℕ → Option (Json Fixed)
example_loads text =
    if text == codes "own"
    then some (object own_response)
    else if text == codes "other"
    then some (object other_response)
    else if text == codes "[]"
    then some (array nil)
    else none

abbrev message : String → Json Fixed
message text = object (field "payload" (string (codes text)) end)

abbrev bodies : ℕ → List (Json Fixed)
bodies zero = message "other" ∷ null ∷ []
bodies (suc n) = message "other" ∷ message "own" ∷ []

abbrev example_gateway : Gateway Fixed
example_gateway = record {
  publish = λ n. response 202;
  fetch = λ n k. response 200;
  body = λ n. ok (bodies n);
  loads = example_loads;
  publish_uniform = λ k. fixed_arith.dec 1 0;
  fetch_uniform = λ n k. fixed_arith.dec 1 0;
  started = fixed_arith.dec 0 0;
  before = λ n. fixed_arith.dec n 0;
  after = λ n. fixed_arith.dec n 0;
}

abbrev example_config : EwdsConfig
example_config = record {
  request_fqcn = codes "requests";
  response_fqcn = codes "responses";
  topic_owner = codes "owner";
  topic_version = codes "1.0.0";
  client_id = codes "ammclearingnode";
  timeout_ms = pos 5000;
  poll_interval_ms = pos 1000;
  poll_max_interval_ms = pos 2000;
  topics =
      ("orders.query", (codes "ordersQuery", codes "ordersQueryResponse"))
      ∷ ("trades.query", (codes "tradesQuery", codes "tradesQueryResponse"))
      ∷ [];
}

abbrev example_bus : Bus Fixed
example_bus = record {
  request_id = λ operation. codes "r";
  dumps = λ v. [];
  gateway = λ sent polled. example_gateway;
}

abbrev two_delays : List ℤ
two_delays = pos 1000 ∷ pos 1500 ∷ []

-- The first poll delivers nothing of its own, the second one does.
first_delivers_none : NoneIn example_gateway (codes "r") (pos 5000) 0 1
unfolding request payload_of is_own
first_delivers_none = (
  (
    bodies 0,
    ((refl, (200, (refl, (refl, refl)))), (inr (other_response, (refl, refl)), (inl refl, tt))),
  ),
  tt,
)

second_delivers :
    DeliversResponse example_gateway (codes "r") (pos 5000) 1 (array (cons (object order_dto) nil))
unfolding request payload_of is_own
second_delivers = (
  bodies 1,
  (
    (refl, (200, (refl, (refl, refl)))),
    (
      message "other" ∷ [],
      (
        message "own",
        (
          [],
          (
            refl,
            (
              (inr (other_response, (refl, refl)), tt),
              (own_response, (refl, (refl, (refl, refl)))),
            ),
          ),
        ),
      ),
    ),
  ),
)

poll_loop_complete_example :
    let polled = poll_loop example_gateway (codes "r") (pos 5000) two_delays 0 in
    (polled.answer ≡ ok (array (cons (object order_dto) nil))) × (length polled.sleeps ≡ 1)
poll_loop_complete_example =
    poll_loop_complete example_gateway (codes "r") (pos 5000) two_delays 0 1
      (array (cons (object order_dto) nil)) (omega arith) first_delivers_none second_delivers

answer_found :
    (poll_loop example_gateway (codes "r") (pos 5000) two_delays 0).answer
    ≡ ok (array (cons (object order_dto) nil))
unfolding poll_loop
answer_found = refl

poll_loop_sound_example :
    (k : ℕ) × ((k ≤ 2)
      × (NoneIn example_gateway (codes "r") (pos 5000) 0 k
          × DeliversResponse example_gateway
              (codes "r")
              (pos 5000)
              (0 + k)
              (array (cons (object order_dto) nil))))
poll_loop_sound_example =
    poll_loop_sound example_gateway (codes "r") (pos 5000) two_delays 0
      (array (cons (object order_dto) nil)) answer_found

orders_received :
    get_orders example_bus example_config (codes "m") (pos 0) (pos 900) ≡ ok (canonical_order ∷ [])
unfolding get_orders ◌+ℤ◌ map_result
orders_received = refl

get_orders-Canonical_example : All (λ n. ewds_order_to_int_order n ≡ ok n) (canonical_order ∷ [])
get_orders-Canonical_example =
    get_orders-Canonical example_bus example_config example_printed (codes "m") (pos 0) (pos 900)
      (canonical_order ∷ []) orders_received

-- A message of another consumer whose payload is JSON but no object ends the query.
foreign_list_raises :
    read_messages example_loads (codes "r") (message "[]" ∷ message "own" ∷ [])
    ≡ err attribute_error
unfolding read_messages
foreign_list_raises = refl

unanswered_times_out :
    (poll_loop
      (record example_gateway { body = λ n. ok [] })
      (codes "r")
      (pos 5000)
      two_delays
      0).answer
    ≡ err ewds_timeout
unfolding poll_loop
unanswered_times_out = refl
