-- ===== src/Clearing/Scheduler/Loop.antt =====
-- amm-clearing-node/src/scheduler.py: the listing of the markets, and the loop over ticks.
use ammba_uoc.Prelude.{
  ℕ, String, Bool, true, false, List, [], ◌∷◌, ◌++◌, map, Result, ok, err, ◌>>=◌,
}
use ammba_uoc.Prelude.Int.{ℤ, pos, ◌-ℤ◌}
use ammba_uoc.Prelude.Dict.{Dict}
use ammba_uoc.Arith.{Arith}
use ammba_uoc.Wire.{Host}
use ammba_uoc.Clearing.Run.{CommunityConfig, Services}
use ammba_uoc.Clearing.Scheduler.{Market, Pass, known, next_tick_interval_sec, run_scheduler_tick}

-- `MARKET_LOOKBACK_SEC`
abbrev pub market_lookback_sec : ℤ
market_lookback_sec = pos 86_400

-- What a tick meets: the time, the storage's markets of a community in a window, and the services of
-- each clearing in turn.
pub record Tick (F : Type 0) : Type 0 where
  pub now : ℤ
  pub get_markets : String → ℤ → ℤ → Result (List Market)
  pub services : ℕ → Services F

-- What the loop has done: the markets of each tick that it reported, and its sleeps.
pub record Trace (F : Type 0) : Type 0 where
  pub processed : List String
  pub reported : List (List String)
  pub sleeps : List F

module _ {F : Type 0} where
  -- One query for each community.
  unfoldable pub list_markets : Tick F → List String → Result (List Market)
  list_markets t [] = ok []
  list_markets t (c ∷ cs) = do
    ms ← t.get_markets c (t.now -ℤ market_lookback_sec) t.now
    rest ← list_markets t cs
    ok (ms ++ rest)

  -- A tick that failed leaves the processed markets and reports none.
  unfoldable pub processed_by : List String → Result (Pass F) → List String
  processed_by processed (ok p) = p.processed
  processed_by processed (err e) = processed

  unfoldable pub reported_by : Result (Pass F) → List String
  reported_by (ok p) = map (λ r. r.0) p.results
  reported_by (err e) = []

  unfoldable pub is_failed : Result (Pass F) → Bool
  is_failed (ok p) = false
  is_failed (err e) = true

module _ {F : Type 0} ⦃a : Arith F⦄ ⦃h : Host⦄ (communities : Dict String (CommunityConfig F))
    (time_slot_sec : ℤ) (strict : Bool) where
  -- A tick raises only while it lists the markets, before it has changed anything.
  unfoldable pub discover_and_clear : Tick F → List String → Result (Pass F)
  unfolding list_markets run_scheduler_tick
  discover_and_clear t processed = do
    markets ← list_markets t (known communities)
    ok (run_scheduler_tick t.services communities time_slot_sec strict t.now processed markets)

  -- As many rounds of the endless loop as there are ticks.
  unfoldable pub run_scheduler_loop : F → List (Tick F) → F → List String → Trace F
  unfolding discover_and_clear processed_by reported_by is_failed next_tick_interval_sec
  run_scheduler_loop base [] interval processed = record {
    processed = processed;
    reported = [];
    sleeps = [];
  }
  run_scheduler_loop base (t ∷ ts) interval processed =
      let outcome = discover_and_clear t processed in
      let next = next_tick_interval_sec interval base (is_failed outcome) in
      let later = run_scheduler_loop base ts next (processed_by processed outcome) in
      record {
        processed = later.processed;
        reported = reported_by outcome ∷ later.reported;
        sleeps = next ∷ later.sleeps;
      }
