-- ===== src/Clearing/Scheduler.antt =====
-- amm-clearing-node/src/scheduler.py: find the markets that closed, and clear them.
pub mod Backoff
pub mod Ticks
pub mod Loop
pub mod Once
pub mod Ready
mod Examples
use ammba_uoc.Prelude.{
  ℕ, suc, String, Bool, true, false, not, ◌&&◌, ◌||◌, Option, none, some, List, [], ◌∷◌, ◌++◌, map,
  filter, any, length, ltb, ◌==◌, string_eq, if◌then◌else◌, Result, ok, err, type_error,
}
use ammba_uoc.Prelude.Int.{ℤ, leb_ℤ}
use ammba_uoc.Prelude.Dict.{Dict, lookup}
use ammba_uoc.Prelude.Text.{truthy}
use ammba_uoc.Arith.{Arith, min_of}
use ammba_uoc.Wire.{Host, IntTrade}
use ammba_uoc.Clearing.Run.{CommunityConfig, Services, Effect, Summary, skipped, Run, run_clearing}

abbrev pub amm_algorithm : String
amm_algorithm = "amm"

abbrev pub max_processed : ℕ
max_processed = 10_000

-- A market, as `ewds_market_to_internal` of adapters.py gives it.
pub record Market : Type 0 where
  pub market_id : Option String
  pub community_id : Option String
  pub closing_time : Option ℤ
  pub delivery_start_time : Option ℤ
  pub matching_algorithm : String

abbrev pub member : String → List String → Bool
member x = any λ y. y == x

abbrev pub is_among : Option String → List String → Bool
is_among none xs = false
is_among (some x) xs = member x xs

-- the first test of the loop: there is an id, and it is not processed
abbrev pub is_new : Option String → List String → Bool
is_new none processed = false
is_new (some x) processed = truthy x && not (member x processed)

abbrev pub has_closed : Option ℤ → ℤ → Bool
has_closed none now = false
has_closed (some t) now = leb_ℤ t now

unfoldable pub is_due : List String → ℤ → List String → Market → Bool
is_due known_communities now processed m =
    is_new m.market_id processed
    && has_closed m.closing_time now
    && m.matching_algorithm == amm_algorithm
    && is_among m.community_id known_communities

unfoldable pub select_due_markets : List Market → List String → ℤ → List String → List Market
unfolding is_due
select_due_markets markets known_communities now processed =
    filter (is_due known_communities now processed) markets

module _ {F : Type 0} ⦃a : Arith F⦄ where
  unfoldable pub next_tick_interval_sec : F → F → Bool → F
  next_tick_interval_sec current_sec base_sec false = base_sec
  next_tick_interval_sec current_sec base_sec true =
      min_of (a.mul current_sec (a.dec 2 0)) (a.mul base_sec (a.dec 10 0))

-- What a pass over the due markets changes and returns.
pub record Pass (F : Type 0) : Type 0 where
  pub processed : List String
  pub results : List (String × Summary F)
  pub sent : List (Effect F)

abbrev pub known : {F : Type 0} → Dict String (CommunityConfig F) → List String
known communities = map (λ p. p.0) communities

unfoldable pub add_processed : String → List String → List String
add_processed market_id processed =
    if ltb (length processed) max_processed
    then (if member market_id processed then processed else market_id ∷ processed)
    else processed

module _ {F : Type 0} where
  -- A clearing that raised leaves its market unprocessed.
  unfoldable pub record_run : String → Run F → Pass F → Pass F
  unfolding add_processed
  record_run market_id (err e, sent) p = record p { sent = p.sent ++ sent }
  record_run market_id (ok summary, sent) p = record {
    processed = add_processed market_id p.processed;
    results = p.results ++ ((market_id, summary) ∷ []);
    sent = p.sent ++ sent;
  }

module _ {F : Type 0} ⦃a : Arith F⦄ ⦃h : Host⦄ where
  -- `None` as the slot: the end of the slot raises, once no trade was found
  unfoldable pub unslotted : Result (List (IntTrade F)) → Run F
  unslotted (ok (t ∷ ts)) = (ok skipped, [])
  unslotted (ok []) = (err type_error, [])
  unslotted (err e) = (err e, [])

  unfoldable pub clear_slot :
      Services F → CommunityConfig F → String → String → Option ℤ → ℤ → Bool → Run F
  unfolding unslotted
  clear_slot s c market_id community_id none time_slot_sec strict =
      unslotted (s.get_trades market_id)
  clear_slot s c market_id community_id (some time_slot) time_slot_sec strict =
      run_clearing s c market_id community_id time_slot time_slot_sec strict

  unfoldable pub clear_known :
      Services F
      → Option (CommunityConfig F)
      → String
      → String
      → Option ℤ
      → ℤ
      → Bool
      → Pass F
      → Pass F
  unfolding record_run clear_slot
  clear_known s (some c) market_id community_id slot time_slot_sec strict p =
      record_run market_id (clear_slot s c market_id community_id slot time_slot_sec strict) p
  clear_known s none market_id community_id slot time_slot_sec strict p = p

  -- A due market has an id and a known community.
  unfoldable pub clear_due :
      Services F
      → Dict String (CommunityConfig F)
      → ℤ
      → Bool
      → Option String
      → Option String
      → Option ℤ
      → Pass F
      → Pass F
  unfolding clear_known
  clear_due s communities time_slot_sec strict (some market_id) (some community_id) slot p =
      clear_known s (lookup community_id communities) market_id community_id slot time_slot_sec
        strict p
  clear_due s communities time_slot_sec strict _ _ slot p = p

  -- The loop over the due markets. The services answer differently as time goes on.
  unfoldable pub clear_all_due :
      (ℕ → Services F)
      → Dict String (CommunityConfig F)
      → ℤ
      → Bool
      → ℕ
      → List Market
      → Pass F
      → Pass F
  unfolding clear_due
  clear_all_due services communities time_slot_sec strict n [] p = p
  clear_all_due services communities time_slot_sec strict n (m ∷ ms) p =
      clear_all_due services communities time_slot_sec strict (suc n) ms (
        clear_due (services n) communities time_slot_sec strict m.market_id m.community_id
          m.delivery_start_time p)

  -- A tick, from the markets that the storage listed.
  unfoldable pub run_scheduler_tick :
      (ℕ → Services F)
      → Dict String (CommunityConfig F)
      → ℤ
      → Bool
      → ℤ
      → List String
      → List Market
      → Pass F
  unfolding clear_all_due
  run_scheduler_tick services communities time_slot_sec strict now processed markets =
      clear_all_due services communities time_slot_sec strict 0
        (select_due_markets markets (known communities) now processed)
        (record { processed = processed; results = []; sent = [] })
