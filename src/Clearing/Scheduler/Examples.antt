-- ===== src/Clearing/Scheduler/Examples.antt =====
-- Ticks of the scheduler at concrete inputs, with the numbers of `Fixed`.
use ammba_uoc.Prelude.{
  ◌⊎◌, Any, ℕ, ◌≤◌, ◌≡◌, refl, String, true, false, some, List, [], ◌∷◌, length, All, arith, ok,
  err, ewds_timeout, map_result, sym, subst, ◌<◌, string_eq,
}
use ammba_uoc.Prelude.Int.{pos}
use ammba_uoc.Prelude.Dict.{Dict}
use ammba_uoc.Arith.Fixed.{Fixed, fixed_arith, Fixed-IsOrdered, Fixed-IsRounded}
use ammba_uoc.Clearing.Adapters.{int_order_to_internal}
use ammba_uoc.Clearing.Preferences.{
  pairs_with, find_mutual_preferred_pairs, match_pairs, apply_priority_allocation,
  apply_preference_allocation,
}
use ammba_uoc.Clearing.Run.{
  CommunityConfig, run_clearing, clear_unless_traded, clear_orders, total_energy, send_all,
  market_trades, allocate,
}
use ammba_uoc.Clearing.Scheduler.{
  Market, max_processed, member, known, select_due_markets, run_scheduler_tick,
}
use ammba_uoc.Clearing.Scheduler.Backoff.{interval_after, IsWithin, next_tick_interval_sec_bounds}
use ammba_uoc.Clearing.Scheduler.Ticks.{run_scheduler_tick-processed}
use ammba_uoc.Clearing.Scheduler.Ready.{IsReady, run_scheduler_tick-IsReady}
use ammba_uoc.Clearing.Scheduler.Loop.{Tick, run_scheduler_loop}
use ammba_uoc.Clearing.Scheduler.Once.{Apart, run_scheduler_loop-once}
use ammba_uoc.Clearing.Examples.{num, example_host, community, services}

next_tick_interval_sec_bounds_example :
    IsWithin (num 60) (interval_after (num 60) (num 60) (true ∷ true ∷ false ∷ true ∷ []))
next_tick_interval_sec_bounds_example =
    next_tick_interval_sec_bounds Fixed-IsOrdered Fixed-IsRounded (num 60)
      (true ∷ true ∷ false ∷ true ∷ []) refl

abbrev markets : List Market
markets =
    (record {
      market_id = some "m";
      community_id = some "c";
      closing_time = some (pos 5);
      delivery_start_time = some (pos 9);
      matching_algorithm = "amm";
    })
    ∷ []

abbrev communities : Dict String (CommunityConfig Fixed)
communities = ("c", community) ∷ []

run_scheduler_tick-processed_example :
    let p =
      run_scheduler_tick (λ n. services) communities (pos 900) true (pos 7) ("k" ∷ []) markets in
    (length p.processed ≤ max_processed)
    × ((member "k" ("k" ∷ []) ≡ false) ⊎ (member "k" p.processed ≡ true))
run_scheduler_tick-processed_example =
    run_scheduler_tick-processed (λ n. services) communities (pos 900) true (pos 7) ("k" ∷ [])
      markets "k" (omega arith)

run_scheduler_tick-IsReady_example :
    All
      (λ r. Any (IsReady (known communities) (pos 7) ("k" ∷ []) r.0) markets)
      (run_scheduler_tick
        (λ n. services)
        communities
        (pos 900)
        true
        (pos 7)
        ("k" ∷ [])
        markets).results
run_scheduler_tick-IsReady_example =
    run_scheduler_tick-IsReady (λ n. services) communities (pos 900) true (pos 7) ("k" ∷ []) markets

-- A tick at which the storage does not answer, and two at which it lists the same market.
abbrev silent_tick : Tick Fixed
silent_tick = record {
  now = pos 6;
  get_markets = λ c start end. err ewds_timeout;
  services = λ n. services;
}

abbrev tick_at : ℕ → Tick Fixed
tick_at now = record {
  now = pos now;
  get_markets = λ c start end. ok markets;
  services = λ n. services;
}

abbrev ticks : List (Tick Fixed)
ticks = silent_tick ∷ tick_at 7 ∷ tick_at 8 ∷ []

-- The market is reported by the second tick only.
reported_once :
    (run_scheduler_loop communities (pos 900) true (num 60) ticks (num 60) []).reported
    ≡ [] ∷ ("m" ∷ []) ∷ [] ∷ []
unfolding run_scheduler_loop select_due_markets run_clearing clear_unless_traded clear_orders
    total_energy int_order_to_internal send_all map_result market_trades apply_preference_allocation
    allocate apply_priority_allocation match_pairs find_mutual_preferred_pairs pairs_with
reported_once = refl

processed_once :
    (run_scheduler_loop communities (pos 900) true (num 60) ticks (num 60) []).processed ≡ "m" ∷ []
unfolding run_scheduler_loop select_due_markets run_clearing clear_unless_traded clear_orders
    total_energy int_order_to_internal send_all map_result market_trades apply_preference_allocation
    allocate apply_priority_allocation match_pairs find_mutual_preferred_pairs pairs_with
processed_once = refl

run_scheduler_loop-once_example :
    Apart communities
      (pos 900)
      true
      (run_scheduler_loop communities (pos 900) true (num 60) ticks (num 60) []).reported
run_scheduler_loop-once_example =
    run_scheduler_loop-once communities (pos 900) true (num 60) (num 60) ticks []
      (subst (λ ms. length ms < max_processed) (sym processed_once) (omega arith))
