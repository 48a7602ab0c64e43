-- ===== src/Clearing/Scheduler/Ready.antt =====
-- The markets that a tick reports, against the conditions for clearing.
use ammba_uoc.Prelude.{
  ℕ, String, Bool, true, false, ◌&&◌, ◌≡◌, ◌≢◌, refl, ap, subst, Bool-cases, Option, none, some,
  List, [], ◌∷◌, All, All-mono, Any, member_iff, arith, inl, inr, beq_option, string_eq, ◌==◌,
}
use ammba_uoc.Prelude.Int.{ℤ, ◌≤ℤ◌}
use ammba_uoc.Prelude.Dict.{Dict}
use ammba_uoc.Prelude.Text.{truthy}
use ammba_uoc.Arith.{Arith}
use ammba_uoc.Wire.{Host}
use ammba_uoc.Clearing.Run.{CommunityConfig, Services}
use ammba_uoc.Clearing.Scheduler.{
  Market, member, is_new, has_closed, is_among, is_due, known, run_scheduler_tick,
}
use ammba_uoc.Clearing.Scheduler.Ticks.{due_with, run_scheduler_tick-due_with}

-- A market with this id that may be cleared: its id is a text, not empty and not processed, its order
-- window has closed by now, the AMM matches it, and its community is configured.
pub record IsReady (communities : List String) (now : ℤ) (processed : List String) (id : String)
    (m : Market) : Type 0 where
  pub has_id : m.market_id ≡ some id
  pub named : id ≢ ""
  pub unprocessed : ¬ Any (λ p. p ≡ id) processed
  pub closed : (t : ℤ) × ((m.closing_time ≡ some t) × (t ≤ℤ now))
  pub amm : m.matching_algorithm ≡ "amm"
  pub configured : (c : String) × ((m.community_id ≡ some c) × Any (λ k. k ≡ c) communities)

closed_by :
    (closing : Option ℤ) (now : ℤ)
    → has_closed closing now ≡ true
    → (t : ℤ) × ((closing ≡ some t) × (t ≤ℤ now))
closed_by none now e = absurd (ground (arith, e))
closed_by (some t) now e = (t, (refl, ground (arith, e)))

among :
    (community : Option String) (communities : List String)
    → is_among community communities ≡ true
    → (c : String) × ((community ≡ some c) × Any (λ k. k ≡ c) communities)
among none communities e = absurd (ground (arith, e))
among (some c) communities e = (c, (refl, (member_iff c communities).0 e))

new_id :
    (market_id : Option String) (processed : List String) (id : String)
    → is_new market_id processed ≡ true
    → beq_option market_id (some id) ≡ true
    → (market_id ≡ some id) × ((id ≢ "") × (¬ Any (λ p. p ≡ id) processed))
new_id none processed id e same = absurd (ground (arith, e))
new_id (some x) processed id e same =
    let equal : x ≡ id = (string_eq.beq_iff x id).0 same in
    let fresh : member x processed ≡ false = ground (arith, e) in
    let named : truthy x ≡ true = ground (arith, e) in
    (
      ap some equal,
      subst (λ y. (y ≢ "") × (¬ Any (λ p. p ≡ y) processed)) equal
          (
            λ blank.
                let none_left : truthy x ≡ false = ap (λ t. truthy t) blank in
                absurd (ground (arith, named, none_left)),
            λ known. absurd (ground (arith, fresh, (member_iff x processed).1 known)),
          ),
    )

module _ (communities : List String) (now : ℤ) (processed : List String) (id : String) where
  is_due-IsReady :
      (m : Market)
      → is_due communities now processed m ≡ true
      → beq_option m.market_id (some id) ≡ true
      → IsReady communities now processed id m
  unfolding is_due
  is_due-IsReady m due same =
      let (has_id, (named, unprocessed)) =
        new_id m.market_id processed id (ground (arith, due)) same in
      let amm : (m.matching_algorithm == "amm") ≡ true = ground (arith, due) in
      record {
        has_id = has_id;
        named = named;
        unprocessed = unprocessed;
        closed = closed_by m.closing_time now (ground (arith, due));
        amm = (string_eq.beq_iff m.matching_algorithm "amm").0 amm;
        configured = among m.community_id communities (ground (arith, due));
      }

  due_with-IsReady :
      (markets : List Market)
      → due_with communities now processed markets (some id) ≡ true
      → Any (IsReady communities now processed id) markets
  due_with-IsReady [] e = absurd (ground (arith, e))
  due_with-IsReady (m ∷ ms) e =
      elim (Bool-cases (is_due communities now processed m && beq_option m.market_id (some id))) [
        | inl ready ↦ inl (is_due-IsReady m (ground (arith, ready)) (ground (arith, ready)))
        | inr other ↦ inr (due_with-IsReady ms (ground (arith, e, other)))
      ]

module _ {F : Type 0} ⦃a : Arith F⦄ ⦃h : Host⦄ where
  -- Each market that a tick reports is the id of a market that the storage listed and that may be
  -- cleared: its id is not empty and was not processed before the tick, its order window has closed
  -- by now, the AMM matches it, and its community is configured.
  pub run_scheduler_tick-IsReady :
      (services : ℕ → Services F) (communities : Dict String (CommunityConfig F)) (sec : ℤ)
      (strict : Bool) (now : ℤ) (processed : List String) (markets : List Market)
      → All
          (λ r. Any (IsReady (known communities) now processed r.0) markets)
          (run_scheduler_tick services communities sec strict now processed markets).results
  run_scheduler_tick-IsReady services communities sec strict now processed markets =
      All-mono _ _ _ (λ r. due_with-IsReady (known communities) now processed r.0 markets)
        (run_scheduler_tick-due_with services communities sec strict now processed markets)
