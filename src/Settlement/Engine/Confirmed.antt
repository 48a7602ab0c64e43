-- ===== src/Settlement/Engine/Confirmed.antt =====
-- The ledger has a market as settled only after a transaction with it has been confirmed.
use mathlib.Core.List.{append_assoc}
use ammba_uoc.Prelude.{
  All, Any, ◌==◌, ℕ, String, Bool, true, false, ◌≡◌, refl, ap, ◌∙◌, ◌⊎◌, inl, inr, ◌||◌, List, [],
  ◌∷◌, ◌++◌, Bool-cases, arith, ok, err, Result, map_result, string_eq,
}
use ammba_uoc.Prelude.Dict.{Dict, contains, insert, contains-insert}
use ammba_uoc.Arith.{Arith}
use ammba_uoc.Wire.{Host}
use ammba_uoc.Settlement.Structs.{MarketSettlement, SettlementTuple, settlement_tuple}
use ammba_uoc.Settlement.Builder.{BuildResult}
use ammba_uoc.Settlement.Validator.{validate_batch}
use ammba_uoc.Settlement.Engine.{
  Ledger, is_settled, mark_each, mark_settled, mark_placed, member, Call, settle_batch, Respond,
  World, resume, call, modify, market_ids_of, report_settled, settle_chunk, settle, settle_fresh,
  first_report, fresh_of, candidates,
}
use ammba_uoc.Settlement.Engine.Safety.{
  Keeps, Keeps-lift, IsDue, fresh-IsDue, IsInvariant, settle_fresh-Keeps,
}

contains-mark_each :
    (m : String) (ids : List String) (tx : String) (d : Dict String String)
    → contains m (mark_each ids tx d) ≡ (member m ids || contains m d)
unfolding mark_each
contains-mark_each m [] tx d = refl
contains-mark_each m (i ∷ ids) tx d =
    ground (arith, contains-mark_each m ids tx (insert i tx d), contains-insert i m tx d)

module _ (F : Type 0) ⦃a : Arith F⦄ ⦃h : Host⦄ (respond : Respond) (m : String) where
  -- A chunk of due markets of the build, with this one among them, and the calls around the
  -- transaction of their encodings, which was answered with its hash.
  pub record Confirmation (build : BuildResult F) (l : Ledger) (calls : List Call) : Type 0 where
    pub chunk : List (MarketSettlement F)
    pub before : List Call
    pub after : List Call
    pub tuples : List SettlementTuple
    pub tx_hash : String
    pub due : All (IsDue F build l) chunk
    pub carried : Any (λ s. s.market_id ≡ m) chunk
    pub encoded : map_result settlement_tuple chunk ≡ ok tuples
    pub called : calls ≡ before ++ (settle_batch tuples ∷ after)
    pub answered : respond before (settle_batch tuples) ≡ ok tx_hash

  -- What holds of a world in a run that started from a ledger.
  abbrev IsAccounted : BuildResult F → Ledger → World → Type 0
  IsAccounted build l w =
      (is_settled m w.ledger ≡ false) ⊎ ((is_settled m l ≡ true) ⊎ Confirmation build l w.calls)

  Confirmation-append :
      (build : BuildResult F) (l : Ledger) (calls more : List Call)
      → Confirmation build l calls
      → Confirmation build l (calls ++ more)
  Confirmation-append build l calls more c = record {
    chunk = c.chunk;
    before = c.before;
    after = c.after ++ more;
    tuples = c.tuples;
    tx_hash = c.tx_hash;
    due = c.due;
    carried = c.carried;
    encoded = c.encoded;
    called =
        ap (λ cs. cs ++ more) c.called
        ∙ append_assoc c.before (settle_batch c.tuples ∷ c.after) more;
    answered = c.answered;
  }

  carried_by :
      (chunk : List (MarketSettlement F))
      → member m (market_ids_of chunk) ≡ true
      → Any (λ s. s.market_id ≡ m) chunk
  carried_by [] e = absurd (ground (arith, e))
  carried_by (s ∷ ss) e = elim (Bool-cases (s.market_id == m)) [
    | inl same ↦ inl ((string_eq.beq_iff s.market_id m).0 same)
    | inr other ↦ inr (carried_by ss (ground (arith, e, other)))
  ]

  call-IsAccounted :
      (build : BuildResult F) (l : Ledger) (c : Call) → Keeps (IsAccounted build l) (call respond c)
  call-IsAccounted build l c w (inl p) = inl p
  call-IsAccounted build l c w (inr (inl p)) = inr (inl p)
  call-IsAccounted build l c w (inr (inr p)) =
      inr (inr (Confirmation-append build l w.calls (c ∷ []) p))

  chunk-IsAccounted :
      (build : BuildResult F) (l : Ledger) (chunk : List (MarketSettlement F))
      → All (IsDue F build l) chunk
      → Keeps (IsAccounted build l) (settle_chunk respond chunk)
  unfolding settle_chunk mark_settled
  chunk-IsAccounted build l chunk due =
      Keeps-lift (IsAccounted build l) (map_result settlement_tuple chunk) _
        λ ts e w p. answered ts e w p (respond w.calls (settle_batch ts)) refl
    where
      answered :
          (ts : List SettlementTuple)
          → map_result settlement_tuple chunk ≡ ok ts
          → (w : World) → IsAccounted build l w
          → (r : Result String) → respond w.calls (settle_batch ts) ≡ r
          → IsAccounted build l
              (resume
                (λ tx. modify (report_settled (market_ids_of chunk) tx))
                (r, record w { calls = w.calls ++ (settle_batch ts ∷ []) })).1
      answered ts e w p (err x) said = call-IsAccounted build l (settle_batch ts) w p
      answered ts e w p (ok tx) said = elim (Bool-cases (member m (market_ids_of chunk))) [
        | inl carried ↦ inr (
            inr (record {
              chunk = chunk;
              before = w.calls;
              after = [];
              tuples = ts;
              tx_hash = tx;
              due = due;
              carried = carried_by chunk carried;
              encoded = e;
              called = refl;
              answered = said;
            }))
        | inr other ↦ elim p [
          | inl fresh ↦ inl (
              contains-mark_each m (market_ids_of chunk) tx w.ledger.settled
              ∙ ap (λ b. b || contains m w.ledger.settled) other
              ∙ fresh)
          | inr (inl known) ↦ inr (inl known)
          | inr (inr c) ↦ inr (inr (Confirmation-append build l w.calls (settle_batch ts ∷ []) c))
        ]
      ]

  accounted :
      (build : BuildResult F) (l : Ledger)
      → IsInvariant F (IsDue F build l) respond (IsAccounted build l)
  unfolding mark_placed
  accounted build l = record {
    call_keeps = λ c s. call-IsAccounted build l c;
    placed_keeps = λ o w p. p;
    chunk_keeps = λ chunk due. chunk-IsAccounted build l chunk due;
  }

  settled_at_start :
      (build : BuildResult F) (l : Ledger) (w : World) → w.ledger ≡ l → IsAccounted build l w
  settled_at_start build l w e = elim (Bool-cases (is_settled m l)) [
    | inl known ↦ inr (inl known)
    | inr fresh ↦ inl (ap (λ l'. is_settled m l') e ∙ fresh)
  ]

  settled-cases :
      (build : BuildResult F) (l : Ledger) (w : World)
      → IsAccounted build l w
      → is_settled m w.ledger ≡ true
      → (is_settled m l ≡ true) ⊎ Confirmation build l w.calls
  settled-cases build l w (inl fresh) now = absurd (ground (arith, fresh, now))
  settled-cases build l w (inr p) _ = p

  -- A market that is settled in the ledger a run leaves, whether it returns or raises, was settled in
  -- the ledger it started from, or the run sent a transaction that the chain answered with its hash,
  -- with the encodings of markets of the build that have no violation, were not settled at the start,
  -- and have this one among them.
  pub settle-Confirmation :
      (b : Bool) (n : ℕ) (build : BuildResult F) (l : Ledger)
      → is_settled m (settle respond b n build [] l).1.ledger ≡ true
      → (is_settled m l ≡ true) ⊎ Confirmation build l (settle respond b n build [] l).1.calls
  unfolding settle
  settle-Confirmation b n build l now =
      let start : World = record {
        calls = [];
        ledger = l;
        report = first_report respond build l;
      } in
      let due = fresh_of l (candidates (validate_batch build.settlements) build.settlements) in
      let w = (settle_fresh respond b n build.pool_orders due start).1 in
      settled-cases build l w
        (settle_fresh-Keeps F (IsDue F build l) respond (IsAccounted build l) (accounted build l) b
          n build.pool_orders due (fresh-IsDue F build l) start
          (settled_at_start build l start refl))
        now
