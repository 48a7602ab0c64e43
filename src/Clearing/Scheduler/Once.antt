-- ===== src/Clearing/Scheduler/Once.antt =====
-- No market is reported by two ticks, as long as the set of processed markets is not full.
use ammba_uoc.Prelude.{
  ℕ, ◌≤◌, ◌<◌, ◌≡◌, refl, sym, subst, none, ◌⊎◌, inl, inr, String, Bool, true, false, ◌&&◌, Option,
  some, List, [], ◌∷◌, map, length, All, All-mono, All-append, arith, Result, ok, err, Result-cases,
  string_eq, ◌==◌, Bool-cases, beq_option,
}
use ammba_uoc.Prelude.Int.{ℤ}
use ammba_uoc.Prelude.Dict.{Dict}
use ammba_uoc.Arith.{Arith}
use ammba_uoc.Wire.{Host}
use ammba_uoc.Clearing.Run.{CommunityConfig, Services, Run, Summary}
use ammba_uoc.Clearing.Scheduler.{
  Market, max_processed, member, is_new, is_due, select_due_markets, Pass, known, add_processed,
  record_run, run_scheduler_tick, next_tick_interval_sec,
}
use ammba_uoc.Clearing.Scheduler.Loop.{
  Tick, list_markets, discover_and_clear, processed_by, reported_by, is_failed, run_scheduler_loop,
}
use ammba_uoc.Clearing.Scheduler.Ticks.{
  All-Unit, clear_all_due-keeps, member-add_processed, due_with, run_scheduler_tick-due_with,
}

length-add_processed_mono :
    (m : String) (ms : List String) → length ms ≤ length (add_processed m ms)
unfolding add_processed
length-add_processed_mono m ms = ground arith

-- A market is among the processed ones, unless these are too many.
abbrev Remembered : List String → String → Type 0
Remembered processed m = (member m processed ≡ true) ⊎ (max_processed ≤ length processed)

recalled :
    (m : String) (ms : List String)
    → Remembered ms m
    → length ms < max_processed
    → member m ms ≡ true
recalled m ms (inl h) room = h
recalled m ms (inr full) room = absurd (omega (arith, full, room))

Remembered-add_processed : (m : String) (ms : List String) → Remembered (add_processed m ms) m
unfolding add_processed
Remembered-add_processed m ms = ground (arith, string_eq.beq_iff m m)

Remembered-mono :
    (m k : String) (ms : List String) → Remembered ms k → Remembered (add_processed m ms) k
Remembered-mono m k ms (inl h) = inl (member-add_processed k m ms h)
Remembered-mono m k ms (inr h) = inr (omega (arith, h, length-add_processed_mono m ms))

is_new-processed :
    (o : Option String) (processed : List String) (m : String)
    → member m processed ≡ true
    → (is_new o processed && beq_option o (some m)) ≡ false
is_new-processed none processed m h = refl
is_new-processed (some x) processed m h = elim (Bool-cases (x == m)) [
  | inl same ↦
      let known : member x processed ≡ true =
        subst (λ y. member y processed ≡ true) (sym ((string_eq.beq_iff x m).0 same)) h in
      ground (arith, known)
  | inr other ↦ ground (arith, other)
]

-- A market that is processed already is not due.
due_with_processed :
    (communities : List String) (now : ℤ) (processed : List String) (markets : List Market)
    (m : String)
    → member m processed ≡ true
    → due_with communities now processed markets (some m) ≡ false
unfolding is_due
due_with_processed communities now processed [] m h = refl
due_with_processed communities now processed (x ∷ xs) m h = ground (
  arith,
  is_new-processed x.market_id processed m h,
  due_with_processed communities now processed xs m h,
)

module _ {F : Type 0} ⦃a : Arith F⦄ ⦃h : Host⦄ where
  -- What holds of a pass that started from a set of processed markets.
  abbrev IsRemembering : List String → Pass F → Type 0
  IsRemembering processed p =
      (length processed ≤ length p.processed)
      × (All (λ r. Remembered p.processed r.0) p.results
          × ((m : String) → member m processed ≡ true → member m p.processed ≡ true))

  record_run-IsRemembering :
      (processed : List String) (m : String) (r : Run F) (p : Pass F)
      → IsRemembering processed p
      → IsRemembering processed (record_run m r p)
  unfolding record_run
  record_run-IsRemembering processed m (err e, sent) p q = q
  record_run-IsRemembering processed m (ok summary, sent) p (n, (rs, kept)) = (
    omega (arith, n, length-add_processed_mono m p.processed),
    (
      All-append _ p.results ((m, summary) ∷ [])
          (All-mono _ _ p.results (λ r. Remembered-mono m r.0 p.processed) rs)
          (Remembered-add_processed m p.processed, tt),
      λ k known. member-add_processed k m p.processed (kept k known),
    ),
  )

  not_reported :
      (communities : List String) (now : ℤ) (processed : List String) (markets : List Market)
      (m : String) (rs : List (String × Summary F))
      → All (λ r. due_with communities now processed markets (some r.0) ≡ true) rs
      → due_with communities now processed markets (some m) ≡ false
      → member m (map (λ r. r.0) rs) ≡ false
  not_reported communities now processed markets m [] _ none_due = refl
  not_reported communities now processed markets m (r ∷ rs) (due, dues) none_due =
      elim (Bool-cases (r.0 == m)) [
        | inl same ↦
            let due_m : due_with communities now processed markets (some m) ≡ true =
              subst (λ y. due_with communities now processed markets (some y) ≡ true)
                ((string_eq.beq_iff r.0 m).0 same) due in
            absurd (ground (arith, due_m, none_due))
        | inr other ↦ rw other (not_reported communities now processed markets m rs dues none_due)
      ]

  -- What an outcome adds to a set of processed markets, and what it does not report.
  abbrev Continues : List String → Result (Pass F) → Type 0
  Continues processed outcome =
      (length processed ≤ length (processed_by processed outcome))
      × (All (Remembered (processed_by processed outcome)) (reported_by outcome)
          × ((m : String)
              → member m processed ≡ true
              → (member m (processed_by processed outcome) ≡ true)
                × (member m (reported_by outcome) ≡ false)))

  All-names :
      (P : String → Type 0) (rs : List (String × Summary F))
      → All (λ r. P r.0) rs
      → All P (map (λ r. r.0) rs)
  All-names P [] _ = tt
  All-names P (r ∷ rs) (q, qs) = (q, All-names P rs qs)

  module _ (communities : Dict String (CommunityConfig F)) (sec : ℤ) (strict : Bool) where
    tick-IsRemembering :
        (services : ℕ → Services F) (now : ℤ) (processed : List String) (markets : List Market)
        → IsRemembering processed
            (run_scheduler_tick services communities sec strict now processed markets)
    unfolding run_scheduler_tick
    tick-IsRemembering services now processed markets =
        clear_all_due-keeps (IsRemembering processed) (λ m. Unit)
          (record { run_keeps = λ m r p d q. record_run-IsRemembering processed m r p q }) services
          communities sec strict 0 (select_due_markets markets (known communities) now processed)
          (record { processed = processed; results = []; sent = [] }) (All-Unit _)
          (omega arith, (tt, λ m known. known))

    tick-Continues :
        (services : ℕ → Services F) (now : ℤ) (processed : List String) (markets : List Market)
        → Continues processed
            (ok (run_scheduler_tick services communities sec strict now processed markets))
    unfolding processed_by reported_by
    tick-Continues services now processed markets =
        let (n, (rs, kept)) = tick-IsRemembering services now processed markets in
        let p = run_scheduler_tick services communities sec strict now processed markets in
        (
          n,
          (
            All-names (Remembered p.processed) p.results rs,
            λ m is_known. (
              kept m is_known,
              not_reported (known communities) now processed markets m p.results
                  (run_scheduler_tick-due_with services communities sec strict now processed
                    markets)
                  (due_with_processed (known communities) now processed markets m is_known),
            ),
          ),
        )

    outcome-Continues :
        (t : Tick F) (processed : List String)
        → Continues processed (discover_and_clear communities sec strict t processed)
    unfolding discover_and_clear processed_by reported_by
    outcome-Continues t processed = elim (Result-cases (list_markets t (known communities))) [
      | inl (markets, e) ↦ rw e (tick-Continues t.services t.now processed markets)
      | inr (x, e) ↦ rw e (omega arith, (tt, λ m is_known. (is_known, refl)))
    ]

    never_again :
        (base interval : F) (ts : List (Tick F)) (processed : List String) (m : String)
        → member m processed ≡ true
        → All
            (λ later. member m later ≡ false)
            (run_scheduler_loop communities sec strict base ts interval processed).reported
    unfolding run_scheduler_loop
    never_again base interval [] processed m is_known = tt
    never_again base interval (t ∷ ts) processed m is_known =
        let (_, (_, continue)) = outcome-Continues t processed in
        let (still, not_now) = continue m is_known in
        let outcome = discover_and_clear communities sec strict t processed in
        let next = next_tick_interval_sec interval base (is_failed outcome) in
        (not_now, never_again base next ts (processed_by processed outcome) m still)

    length-run_scheduler_loop :
        (base interval : F) (ts : List (Tick F)) (processed : List String)
        → length processed
          ≤ length (run_scheduler_loop communities sec strict base ts interval processed).processed
    unfolding run_scheduler_loop
    length-run_scheduler_loop base interval [] processed = omega arith
    length-run_scheduler_loop base interval (t ∷ ts) processed =
        let outcome = discover_and_clear communities sec strict t processed in
        omega (
          arith,
          (outcome-Continues t processed).0,
          length-run_scheduler_loop base (next_tick_interval_sec interval base (is_failed outcome))
              ts (processed_by processed outcome),
        )

    -- Each market of a report is in no later one.
    abbrev pub Apart : List (List String) → Type 0
    Apart [] = Unit
    Apart (r ∷ rs) = All (λ m. All (λ later. member m later ≡ false) rs) r × Apart rs

    -- As long as the set of processed markets is not full, no market that a tick of the loop reports is
    -- reported by a later tick, also where ticks fail while they list the markets, and clearings raise.
    pub run_scheduler_loop-once :
        (base interval : F) (ts : List (Tick F)) (processed : List String)
        → let trace = run_scheduler_loop communities sec strict base ts interval processed in
          length trace.processed < max_processed → Apart trace.reported
    unfolding run_scheduler_loop
    run_scheduler_loop-once base interval [] processed room = tt
    run_scheduler_loop-once base interval (t ∷ ts) processed room =
        let outcome = discover_and_clear communities sec strict t processed in
        let next = next_tick_interval_sec interval base (is_failed outcome) in
        (
          All-mono (Remembered (processed_by processed outcome)) _ (reported_by outcome)
              (λ m remembered. never_again base next ts (processed_by processed outcome) m (
                recalled m _ remembered (
                  omega (
                    arith,
                    room,
                    length-run_scheduler_loop base next ts (processed_by processed outcome),
                  ))))
              (outcome-Continues t processed).1.0,
          run_scheduler_loop-once base next ts (processed_by processed outcome) room,
        )
