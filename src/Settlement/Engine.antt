-- ===== src/Settlement/Engine.antt =====
-- amm-execution-node/src/engine.py: validate, register actors, place pool orders, settle. The chain
-- and the registrar answer from outside; the calls made to them are recorded in order.
mod Pack
pub mod Packing
pub mod Safety
pub mod Again
pub mod Confirmed
unfoldable pub use Pack.*
use ammba_uoc.Prelude.{
  ℕ, String, Bool, true, false, not, ◌&&◌, Option, none, some, List, [], ◌∷◌, ◌++◌, map, filter,
  any, concat, ◌==◌, string_eq, if◌then◌else◌, Result, ok, err, Exn, map_result,
}
use ammba_uoc.Prelude.Dict.{Dict, lookup, insert, contains}
use ammba_uoc.Prelude.Text.{present, sorted, truthy}
use ammba_uoc.Arith.{Arith}
use ammba_uoc.Wire.{Host}
use ammba_uoc.Settlement.Structs.{
  OrderParams, OrderTuple, Match, MarketSettlement, SettlementTuple, order_tuple, settlement_tuple,
}
use ammba_uoc.Settlement.Builder.{BuildResult}
use ammba_uoc.Settlement.Validator.{Violation, validate_batch}

abbrev pub default_batch_size : ℕ
default_batch_size = 50

-- `SettlementLedger`: the transaction of each settled market, and the placed orders.
pub record Ledger : Type 0 where
  pub settled : Dict String String
  pub placed_orders : List String

abbrev pub member : String → List String → Bool
member x = any λ y. y == x

abbrev pub is_settled : String → Ledger → Bool
is_settled market_id l = contains market_id l.settled

abbrev pub is_placed : String → Ledger → Bool
is_placed order_id l = member order_id l.placed_orders

unfoldable pub mark_each : List String → String → Dict String String → Dict String String
mark_each [] tx_hash d = d
mark_each (m ∷ ms) tx_hash d = mark_each ms tx_hash (insert m tx_hash d)

unfoldable pub mark_settled : List String → String → Ledger → Ledger
unfolding mark_each
mark_settled market_ids tx_hash l = record l { settled = mark_each market_ids tx_hash l.settled }

unfoldable pub mark_placed : String → Ledger → Ledger
mark_placed order_id l = record l {
  placed_orders = if is_placed order_id l then l.placed_orders else order_id ∷ l.placed_orders;
}

pub record SettlementReport : Type 0 where
  pub settled : Dict String String
  pub skipped_already_settled : List String
  pub rejected : Dict String (List Violation)
  pub pool_orders_placed : List String

-- The calls that the engine makes, and who answers them. An answer may depend on all calls so far.
pub data Call : Type 0 where
  ensure_mapped : List String → Call
  place_order : OrderTuple → Call
  settle_batch : List SettlementTuple → Call

abbrev pub Respond : Type 0
Respond = List Call → Call → Result String

pub record World : Type 0 where
  pub calls : List Call
  pub ledger : Ledger
  pub report : SettlementReport

-- A step of the engine: what it changed stays changed when it raises.
abbrev pub Action : Type 0 → Type 0
Action A = World → Result A × World

-- what follows a step, unless that raised
abbrev pub resume : {A B : Type 0} → (A → Action B) → Result A × World → Result B × World
resume f (ok x, w) = f x w
resume f (err e, w) = (err e, w)

infixl 5 ◌>>=◌ ◌>>◌
abbrev pub ◌>>=◌ : {A B : Type 0} → Action A → (A → Action B) → Action B
◌>>=◌ m f w = resume f (m w)

abbrev pub ◌>>◌ : {A B : Type 0} → Action A → Action B → Action B
m >> k = m >>= λ _. k

abbrev pub lift : {A : Type 0} → Result A → Action A
lift r w = (r, w)

abbrev pub modify : (World → World) → Action (Unit {0})
modify f w = (ok tt, f w)

abbrev pub call : Respond → Call → Action String
call respond c w = (respond w.calls c, record w { calls = w.calls ++ (c ∷ []) })

abbrev pub report_placed : String → World → World
report_placed order_id w = record w {
  ledger = mark_placed order_id w.ledger;
  report = record (w.report) {
    pool_orders_placed = w.report.pool_orders_placed ++ (order_id ∷ []);
  };
}

abbrev pub report_settled : List String → String → World → World
report_settled market_ids tx_hash w = record w {
  ledger = mark_settled market_ids tx_hash w.ledger;
  report = record (w.report) { settled = mark_each market_ids tx_hash w.report.settled };
}

module _ {F : Type 0} where
  abbrev pub market_ids_of : List (MarketSettlement F) → List String
  market_ids_of = map λ s. s.market_id

  abbrev pub all_matches : List (MarketSettlement F) → List (Match F)
  all_matches ss = concat (map (λ s. s.matches) ss)

  -- `if s.market_id not in report.rejected`
  abbrev pub candidates :
      Dict String (List Violation) → List (MarketSettlement F) → List (MarketSettlement F)
  candidates rejected = filter λ s. not (contains s.market_id rejected)

  abbrev pub fresh_of : Ledger → List (MarketSettlement F) → List (MarketSettlement F)
  fresh_of l = filter λ s. not (is_settled s.market_id l)

  abbrev pub skipped_of : Ledger → List (MarketSettlement F) → List (MarketSettlement F)
  skipped_of l = filter λ s. is_settled s.market_id l

  abbrev pub used_orders : List (Match F) → List String
  used_orders [] = []
  used_orders (m ∷ ms) = m.bid.order_id ∷ m.offer.order_id ∷ used_orders ms

-- an element of a set
abbrev pub add_actor : String → List String → List String
add_actor x xs = if truthy x then (if member x xs then xs else x ∷ xs) else xs

abbrev pub add_partner : Option String → List String → List String
add_partner none xs = xs
add_partner (some x) xs = add_actor x xs

module _ {F : Type 0} where
  abbrev pub add_order_actors : OrderParams F → List String → List String
  add_order_actors o xs = add_actor o.created_by (add_partner o.preferred_trading_partner xs)

  actor_set : List (Match F) → List String
  actor_set [] = []
  actor_set (m ∷ ms) = add_order_actors m.bid (add_order_actors m.offer (actor_set ms))

  unfoldable pub actors : List (Match F) → List String
  unfolding actor_set sorted
  actors ms = sorted (actor_set ms)

module _ (respond : Respond) where
  -- step 3: the registrar is optional
  unfoldable pub register_actors : Bool → List String → Action (Unit {0})
  register_actors has_registrar names =
      if has_registrar then call respond (ensure_mapped names) >> lift (ok tt) else lift (ok tt)

module _ {F : Type 0} ⦃a : Arith F⦄ ⦃h : Host⦄ (respond : Respond) where
  unfoldable pub place_one : OrderParams F → Action (Unit {0})
  unfolding mark_placed
  place_one params = do
    encoded ← lift (order_tuple params)
    call respond (place_order encoded)
    modify (report_placed params.order_id)

  -- step 4: the pool orders that back fresh matches and are not placed yet
  unfoldable pub place_orders : List String → List (OrderParams F) → Action (Unit {0})
  place_orders used [] w = (ok tt, w)
  place_orders used (params ∷ rest) w =
      (if member params.order_id used && not (is_placed params.order_id w.ledger)
          then place_one params >> place_orders used rest
          else place_orders used rest)
        w

  unfoldable pub settle_chunk : List (MarketSettlement F) → Action (Unit {0})
  settle_chunk chunk = do
    tuples ← lift (map_result settlement_tuple chunk)
    tx_hash ← call respond (settle_batch tuples)
    modify (report_settled (market_ids_of chunk) tx_hash)

  -- step 5: whole markets in bounded transactions
  unfoldable pub settle_chunks : List (List (MarketSettlement F)) → Action (Unit {0})
  settle_chunks [] = lift (ok tt)
  settle_chunks (chunk ∷ chunks) = settle_chunk chunk >> settle_chunks chunks

  unfoldable pub settle_fresh :
      Bool → ℕ → List (OrderParams F) → List (MarketSettlement F) → Action (Unit {0})
  settle_fresh has_registrar batch_size pool_orders [] = lift (ok tt)
  settle_fresh has_registrar batch_size pool_orders (s ∷ ss) = do
    register_actors respond has_registrar (actors (all_matches (s ∷ ss)))
    place_orders (used_orders (all_matches (s ∷ ss))) pool_orders
    settle_chunks (pack (s ∷ ss) batch_size)

  abbrev pub first_report : BuildResult F → Ledger → SettlementReport
  first_report build l =
      let rejected = validate_batch build.settlements in
      record {
        settled = [];
        skipped_already_settled =
            market_ids_of (skipped_of l (candidates rejected build.settlements));
        rejected = rejected;
        pool_orders_placed = [];
      }

  -- `SettlementEngine.settle`: the report of the world at the end is what it returns
  unfoldable pub settle : Bool → ℕ → BuildResult F → List Call → Ledger → Result (Unit {0}) × World
  settle has_registrar batch_size build calls l =
      settle_fresh has_registrar batch_size build.pool_orders
        (fresh_of l (candidates (validate_batch build.settlements) build.settlements))
        (record { calls = calls; ledger = l; report = first_report build l })
