-- ===== src/Clearing/Scheduler/Ticks.antt =====
-- What a tick clears, and what it remembers.
use ammba_uoc.Prelude.{
  ◌⊎◌, Bool-cases, ℕ, suc, ◌≤◌, any, beq_option, false, String, ◌≡◌, refl, inl, inr, Bool, true,
  ◌&&◌, Option, none, some, List, [], ◌∷◌, length, All, All-append, All-mono, arith, ok, err,
  if◌then◌else◌, Option-cases, string_eq,
}
use ammba_uoc.Prelude.Int.{ℤ}
use ammba_uoc.Prelude.Dict.{Dict, lookup}
use ammba_uoc.Arith.{Arith}
use ammba_uoc.Wire.{Host}
use ammba_uoc.Clearing.Run.{CommunityConfig, Services, Run}
use ammba_uoc.Clearing.Scheduler.{
  Market, max_processed, member, is_due, select_due_markets, Pass, known, add_processed, record_run,
  clear_slot, clear_known, clear_due, clear_all_due, run_scheduler_tick,
}

pub All-Unit : (ms : List Market) → All (λ m. Unit {0}) ms
All-Unit [] = tt
All-Unit (m ∷ ms) = (tt, All-Unit ms)

-- Some market of the list is due, and has this id.
abbrev pub due_with : List String → ℤ → List String → List Market → Option String → Bool
due_with communities now processed markets market_id =
    any (λ m. is_due communities now processed m && beq_option m.market_id market_id) markets

beq_option_refl : (x : Option String) → beq_option x x ≡ true
beq_option_refl none = refl
beq_option_refl (some s) = ground (arith, string_eq.beq_iff s s)

filter_step :
    (P : Market → Type 0) (b : Bool) (m : Market) (ms : List Market)
    → (b ≡ true → P m)
    → All P ms
    → All P (if b then m ∷ ms else ms)
filter_step P true m ms f h = (f refl, h)
filter_step P false m ms f h = h

due_new :
    (communities : List String) (now : ℤ) (processed : List String) (markets : List Market)
    → All
        (λ m. due_with communities now processed markets m.market_id ≡ true)
        (select_due_markets markets communities now processed)
unfolding select_due_markets
due_new communities now processed [] = tt
due_new communities now processed (m ∷ ms) =
    filter_step (λ x. due_with communities now processed (m ∷ ms) x.market_id ≡ true) _ m _
      (λ due. rw (due, beq_option_refl m.market_id) refl)
      (All-mono _ (λ x. due_with communities now processed (m ∷ ms) x.market_id ≡ true) _
        (λ x e. ground (arith, e)) (due_new communities now processed ms))

length-add_processed :
    (m : String) (ms : List String)
    → length ms ≤ max_processed
    → length (add_processed m ms) ≤ max_processed
unfolding add_processed
length-add_processed m ms q = ground arith

pub member-add_processed :
    (k m : String) (ms : List String) → member k ms ≡ true → member k (add_processed m ms) ≡ true
unfolding add_processed
member-add_processed k m ms q = ground arith

module _ {F : Type 0} ⦃a : Arith F⦄ ⦃h : Host⦄ where
  -- A pass keeps a predicate.
  pub record IsKept (P : Pass F → Type 0) (D : Option String → Type 0) : Type 0 where
    pub run_keeps :
        (market_id : String) (r : Run F) (p : Pass F)
        → D (some market_id)
        → P p
        → P (record_run market_id r p)

  module _ (P : Pass F → Type 0) (D : Option String → Type 0) (k : IsKept P D) where
    clear_due-keeps :
        (s : Services F) (communities : Dict String (CommunityConfig F)) (sec : ℤ) (strict : Bool)
        (market_id community_id : Option String) (slot : Option ℤ) (p : Pass F)
        → D market_id
        → P p
        → P (clear_due s communities sec strict market_id community_id slot p)
    unfolding clear_due clear_known
    clear_due-keeps s communities sec strict none community_id slot p d q = q
    clear_due-keeps s communities sec strict (some m) none slot p d q = q
    clear_due-keeps s communities sec strict (some m) (some c) slot p d q =
        elim (Option-cases (lookup c communities)) [
          | inl missing ↦ rw missing q
          | inr (config, e) ↦ rw e (k.run_keeps m (clear_slot s config m c slot sec strict) p d q)
        ]

    pub clear_all_due-keeps :
        (services : ℕ → Services F) (communities : Dict String (CommunityConfig F)) (sec : ℤ)
        (strict : Bool) (n : ℕ) (ms : List Market) (p : Pass F)
        → All (λ m. D m.market_id) ms
        → P p
        → P (clear_all_due services communities sec strict n ms p)
    unfolding clear_all_due
    clear_all_due-keeps services communities sec strict n [] p _ q = q
    clear_all_due-keeps services communities sec strict n (m ∷ ms) p (d, ds) q =
        clear_all_due-keeps services communities sec strict (suc n) ms _ ds (
          clear_due-keeps (services n) communities sec strict m.market_id m.community_id
            m.delivery_start_time p d q)

  keeps :
      (k : String) (old : Bool) (m : String) (r : Run F) (p : Pass F)
      → (length p.processed ≤ max_processed) × ((old ≡ false) ⊎ (member k p.processed ≡ true))
      → (length (record_run m r p).processed ≤ max_processed)
        × ((old ≡ false) ⊎ (member k (record_run m r p).processed ≡ true))
  unfolding record_run
  keeps k old m (err e, sent) p q = q
  keeps k old m (ok summary, sent) p (q, inl new) = (length-add_processed m p.processed q, inl new)
  keeps k old m (ok summary, sent) p (q, inr e) =
      (length-add_processed m p.processed q, inr (member-add_processed k m p.processed e))

  reports :
      (D : Option String → Type 0) (m : String) (r : Run F) (p : Pass F)
      → D (some m)
      → All (λ x. D (some x.0)) p.results
      → All (λ x. D (some x.0)) (record_run m r p).results
  unfolding record_run
  reports D m (err e, sent) p n q = q
  reports D m (ok summary, sent) p n q = All-append _ p.results ((m, summary) ∷ []) q (n, tt)

  -- A processed set within its bound, such as the empty one, stays within it over a tick, and any
  -- market is processed after the tick if it was before.
  pub run_scheduler_tick-processed :
      (services : ℕ → Services F) (communities : Dict String (CommunityConfig F)) (sec : ℤ)
      (strict : Bool) (now : ℤ) (processed : List String) (markets : List Market)
      (market_id : String)
      → length processed ≤ max_processed
      → let p = run_scheduler_tick services communities sec strict now processed markets in
        (length p.processed ≤ max_processed)
        × ((member market_id processed ≡ false) ⊎ (member market_id p.processed ≡ true))
  unfolding run_scheduler_tick
  run_scheduler_tick-processed services communities sec strict now processed markets market_id q =
      let old = member market_id processed in
      clear_all_due-keeps
        (λ p.
          (length p.processed ≤ max_processed)
          × ((old ≡ false) ⊎ (member market_id p.processed ≡ true)))
        (λ m. Unit) (record { run_keeps = λ m r p d x. keeps market_id old m r p x }) services
        communities sec strict 0 (select_due_markets markets (known communities) now processed)
        (record { processed = processed; results = []; sent = [] }) (All-Unit _)
        (q, elim (Bool-cases old) [ inl is_old ↦ inr is_old | inr new ↦ inl new ])

  -- A market that a tick reports is the id of a listed market that was due: new, closed by now,
  -- matched by the AMM, and of a configured community.
  pub run_scheduler_tick-due_with :
      (services : ℕ → Services F) (communities : Dict String (CommunityConfig F)) (sec : ℤ)
      (strict : Bool) (now : ℤ) (processed : List String) (markets : List Market)
      → All
          (λ r. due_with (known communities) now processed markets (some r.0) ≡ true)
          (run_scheduler_tick services communities sec strict now processed markets).results
  unfolding run_scheduler_tick
  run_scheduler_tick-due_with services communities sec strict now processed markets =
      let D : Option String → Type 0 =
        λ m. due_with (known communities) now processed markets m ≡ true in
      clear_all_due-keeps (λ p. All (λ r. D (some r.0)) p.results) D
        (record { run_keeps = reports D }) services communities sec strict 0
        (select_due_markets markets (known communities) now processed)
        (record { processed = processed; results = []; sent = [] })
        (due_new (known communities) now processed markets) tt
