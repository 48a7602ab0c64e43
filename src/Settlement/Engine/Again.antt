-- ===== src/Settlement/Engine/Again.antt =====
-- What a completed settlement leaves behind, and what a second one does.
use mathlib.Core.Path.{subst}
use ammba_uoc.Prelude.{
  ℕ, String, Bool, true, ◌≡◌, refl, sym, ap, ◌∙◌, List, [], ◌∷◌, ◌++◌, concat, All, All-mono, arith,
  ok, err, Result, map_result, string_eq,
}
use ammba_uoc.Prelude.Dict.{Dict, contains, insert, contains-insert}
use ammba_uoc.Arith.{Arith}
use ammba_uoc.Wire.{Host}
use ammba_uoc.Settlement.Structs.{MarketSettlement, OrderParams, settlement_tuple}
use ammba_uoc.Settlement.Builder.{BuildResult}
use ammba_uoc.Settlement.Validator.{validate_batch}
use ammba_uoc.Settlement.Engine.{
  Ledger, is_settled, mark_each, mark_settled, Call, settle_batch, Respond, World, Action, resume,
  market_ids_of, candidates, fresh_of, register_actors, place_orders, settle_chunk, settle_chunks,
  settle_fresh, settle, pack, actors, all_matches, used_orders,
}
use ammba_uoc.Settlement.Engine.Packing.{pack_lem}
use ammba_uoc.Settlement.Engine.Safety.{
  settle_chunk-Keeps, settle_chunks-Keeps, mark_each-contains, mark_settled-is_settled,
  mark_placed-is_settled, settle_mono,
}

resume-ok :
    {A B : Type 0} (f : A → Action B) (r : Result A) (w : World) (y : B)
    → (resume f (r, w)).0 ≡ ok y
    → (x : A) × (r ≡ ok x) × (resume f (r, w) ≡ f x w)
resume-ok f (ok x) w y e = (x, refl, refl)
resume-ok f (err e) w y h = absurd (cc)

module _ (F : Type 0) ⦃a : Arith F⦄ ⦃h : Host⦄ where
  -- Every one of the markets is settled.
  abbrev pub AllSettled : Ledger → List (MarketSettlement F) → Type 0
  AllSettled l = All λ s. is_settled s.market_id l ≡ true

  mark_each_lem :
      (c : List (MarketSettlement F)) (tx : String) (d : Dict String String)
      → All (λ s. contains s.market_id (mark_each (market_ids_of c) tx d) ≡ true) c
  unfolding mark_each
  mark_each_lem [] tx d = tt
  mark_each_lem (s ∷ ss) tx d = (
    mark_each-contains (market_ids_of ss) tx (insert s.market_id tx d) s.market_id (
        ground (
          arith,
          contains-insert s.market_id s.market_id tx d,
          string_eq.beq_iff s.market_id s.market_id,
        )),
    mark_each_lem ss tx (insert s.market_id tx d),
  )

  All-both :
      (P : MarketSettlement F → Type 0) (xs ys : List (MarketSettlement F))
      → All P xs
      → All P ys
      → All P (xs ++ ys)
  All-both P [] ys _ q = q
  All-both P (x ∷ xs) ys (p, ps) q = (p, All-both P xs ys ps q)

  All-any : (cs : List (List (MarketSettlement F))) → All (All λ _. Unit {0}) cs
  All-any [] = tt
  All-any ([] ∷ cs) = (tt, All-any cs)
  All-any ((s ∷ ss) ∷ cs) = ((tt, (All-any (ss ∷ cs)).0), All-any cs)

  -- The markets that `settle` submits.
  abbrev pub due : BuildResult F → Ledger → List (MarketSettlement F)
  due build l = fresh_of l (candidates (validate_batch build.settlements) build.settlements)

  nothing_fresh :
      (l l' : Ledger) (ss : List (MarketSettlement F))
      → ((m : String) → is_settled m l ≡ true → is_settled m l' ≡ true)
      → AllSettled l' (fresh_of l ss)
      → fresh_of l' ss ≡ []
  nothing_fresh l l' [] mono p = refl
  nothing_fresh l l' (s ∷ ss) mono p = ground (arith, mono s.market_id, nothing_fresh l l' ss mono)

  module _ (respond : Respond) where
    kept :
        (m : String) (cs : List (List (MarketSettlement F))) (w : World)
        → is_settled m w.ledger ≡ true
        → is_settled m (settle_chunks respond cs w).1.ledger ≡ true
    kept m cs w p =
        settle_chunks-Keeps F (λ _. Unit) respond (λ w'. is_settled m w'.ledger ≡ true)
          (record {
            call_keeps = λ c s w' q. q;
            placed_keeps = λ o w' q. mark_placed-is_settled o w'.ledger m q;
            chunk_keeps =
                settle_chunk-Keeps F (λ _. Unit) respond (λ w'. is_settled m w'.ledger ≡ true)
                  (λ c s w' q. q) (λ ms tx w' q. mark_settled-is_settled ms tx w'.ledger m q);
          })
          cs (All-any cs) w p

    settle_chunk-done :
        (c : List (MarketSettlement F)) (w : World)
        → (settle_chunk respond c w).0 ≡ ok tt
        → AllSettled (settle_chunk respond c w).1.ledger c
    unfolding settle_chunk mark_settled
    settle_chunk-done c w e =
        let (ts, e1, e2) = resume-ok _ (map_result settlement_tuple c) w tt e in
        let (tx, e3, e4) =
          resume-ok _ (respond w.calls (settle_batch ts)) _ tt (sym (ap (λ p. p.0) e2) ∙ e) in
        subst (λ p. AllSettled p.1.ledger c) (sym (e2 ∙ e4)) (mark_each_lem c tx w.ledger.settled)

    settle_chunks-done :
        (cs : List (List (MarketSettlement F))) (w : World)
        → (settle_chunks respond cs w).0 ≡ ok tt
        → AllSettled (settle_chunks respond cs w).1.ledger (concat cs)
    unfolding settle_chunks
    settle_chunks-done [] w e = tt
    settle_chunks-done (c ∷ cs) w e =
        let (x, e1, e2) =
          resume-ok (λ _. settle_chunks respond cs) (settle_chunk respond c w).0
            (settle_chunk respond c w).1 tt e in
        let w' = (settle_chunk respond c w).1 in
        subst (λ p. AllSettled p.1.ledger (c ++ concat cs)) (sym e2)
          (All-both _ c (concat cs)
            (All-mono (λ s. is_settled s.market_id w'.ledger ≡ true) _ c
              (λ s p. kept s.market_id cs w' p) (settle_chunk-done c w e1))
            (settle_chunks-done cs w' (sym (ap (λ p. p.0) e2) ∙ e)))

    settle_fresh-done :
        (b : Bool) (n : ℕ) (os : List (OrderParams F)) (ss : List (MarketSettlement F)) (w : World)
        → (settle_fresh respond b n os ss w).0 ≡ ok tt
        → AllSettled (settle_fresh respond b n os ss w).1.ledger ss
    unfolding settle_fresh
    settle_fresh-done b n os [] w e = tt
    settle_fresh-done b n os (s ∷ ss) w e =
        let r = register_actors respond b (actors (all_matches (s ∷ ss))) w in
        let (x, e1, e2) = resume-ok _ r.0 r.1 tt e in
        let p = place_orders respond (used_orders (all_matches (s ∷ ss))) os r.1 in
        let (y, e3, e4) = resume-ok _ p.0 p.1 tt (sym (ap (λ q. q.0) e2) ∙ e) in
        let cs = pack (s ∷ ss) n in
        subst (λ q. AllSettled q.1.ledger (s ∷ ss)) (sym (e2 ∙ e4))
          (subst (AllSettled (settle_chunks respond cs p.1).1.ledger) (pack_lem (s ∷ ss) n).0
            (settle_chunks-done cs p.1 (sym (ap (λ q. q.0) (e2 ∙ e4)) ∙ e)))

  settle_none :
      (respond : Respond) (b : Bool) (n : ℕ) (build : BuildResult F) (calls : List Call)
      (l : Ledger)
      → due build l ≡ []
      → let run = settle respond b n build calls l in
        (run.0 ≡ ok tt) × (run.1.calls ≡ calls) × (run.1.ledger ≡ l)
  unfolding settle settle_fresh
  settle_none respond b n build calls l e = rw e (refl, refl, refl)

  -- When `settle` returns without an exception, every market that it had to submit is settled in
  -- its ledger.
  pub settle-done :
      (respond : Respond) (b : Bool) (n : ℕ) (build : BuildResult F) (calls : List Call)
      (l : Ledger)
      → (settle respond b n build calls l).0 ≡ ok tt
      → AllSettled (settle respond b n build calls l).1.ledger (due build l)
  unfolding settle
  settle-done respond b n build calls l e =
      settle_fresh-done respond b n build.pool_orders (due build l) _ e

  -- Once `settle` has returned without an exception, a second run on the same build and the
  -- ledger it left, whatever would answer, returns as well, makes no call and leaves the ledger.
  pub settle-again :
      (respond respond' : Respond) (b b' : Bool) (n n' : ℕ) (build : BuildResult F)
      (calls calls' : List Call) (l : Ledger)
      → (settle respond b n build calls l).0 ≡ ok tt
      → let l' = (settle respond b n build calls l).1.ledger in
        let again = settle respond' b' n' build calls' l' in
        (again.0 ≡ ok tt) × (again.1.calls ≡ calls') × (again.1.ledger ≡ l')
  settle-again respond respond' b b' n n' build calls calls' l e =
      settle_none respond' b' n' build calls' (settle respond b n build calls l).1.ledger (
        nothing_fresh l (settle respond b n build calls l).1.ledger
          (candidates (validate_batch build.settlements) build.settlements)
          (settle_mono F respond b n build calls l) (settle-done respond b n build calls l e))
