-- ===== src/Settlement/Engine/Safety.antt =====
-- What the engine submits, and what its ledger remembers.
use mathlib.Core.Path.{subst}
use ammba_uoc.Prelude.{
  ℕ, String, Bool, true, false, not, ◌≡◌, refl, sym, ◌&&◌, List, [], ◌∷◌, ◌++◌, concat, All,
  All-mono, All-append, Any, All-zip, All-Any, All-filter, filter-All, arith, ok, err, Result,
  map_result, if◌then◌else◌, string_eq,
}
use ammba_uoc.Prelude.Dict.{Dict, contains, insert, contains-insert}
use ammba_uoc.Arith.{Arith}
use ammba_uoc.Wire.{Host}
use ammba_uoc.Settlement.Structs.{MarketSettlement, OrderParams, settlement_tuple, order_tuple}
use ammba_uoc.Settlement.Builder.{BuildResult}
use ammba_uoc.Settlement.Validator.{validate_batch, validate_settlement}
use ammba_uoc.Settlement.Validator.Batch.{validate_batch-passed}
use ammba_uoc.Settlement.Engine.{
  Ledger, is_settled, mark_each, mark_settled, mark_placed, Call, ensure_mapped, place_order,
  settle_batch, Respond, World, Action, resume, ◌>>=◌, ◌>>◌, market_ids_of, candidates, fresh_of,
  register_actors, place_one, place_orders, settle_chunk, settle_chunks, settle_fresh, settle, pack,
  call, lift, modify, is_placed, member, report_placed, report_settled,
}
use ammba_uoc.Settlement.Engine.Packing.{pack_lem}

All-apply :
    {A : Type 0} (P Q : A → Type 0) (xs : List A) → All P xs → All (λ x. P x → Q x) xs → All Q xs
All-apply P Q [] _ _ = tt
All-apply P Q (x ∷ xs) (p, ps) (f, fs) = (f p, All-apply P Q xs ps fs)

All-split : {A : Type 0} (P : A → Type 0) (xs ys : List A) → All P (xs ++ ys) → All P xs × All P ys
All-split P [] ys h = (tt, h)
All-split P (x ∷ xs) ys (p, h) = ((p, (All-split P xs ys h).0), (All-split P xs ys h).1)

All-concat :
    {A : Type 0} (P : A → Type 0) (xss : List (List A)) → All P (concat xss) → All (All P) xss
All-concat P [] _ = tt
All-concat P (xs ∷ xss) h =
    ((All-split P xs (concat xss) h).0, All-concat P xss (All-split P xs (concat xss) h).1)

pub mark_each-contains :
    (ms : List String) (tx : String) (d : Dict String String) (m : String)
    → contains m d ≡ true
    → contains m (mark_each ms tx d) ≡ true
unfolding mark_each
mark_each-contains [] tx d m p = p
mark_each-contains (x ∷ xs) tx d m p =
    mark_each-contains xs tx (insert x tx d) m (ground (arith, contains-insert x m tx d))

pub mark_settled-is_settled :
    (ms : List String) (tx : String) (l : Ledger) (m : String)
    → is_settled m l ≡ true
    → is_settled m (mark_settled ms tx l) ≡ true
unfolding mark_settled
mark_settled-is_settled ms tx l m p = mark_each-contains ms tx l.settled m p

pub mark_placed-is_settled :
    (o : String) (l : Ledger) (m : String)
    → is_settled m l ≡ true
    → is_settled m (mark_placed o l) ≡ true
unfolding mark_placed
mark_placed-is_settled o l m p = p

-- A step that keeps a predicate of the world, whether it raises or not.
abbrev pub Keeps : {A : Type 0} → (World → Type 0) → Action A → Type 0
Keeps P m = (w : World) → P w → P (m w).1

Keeps-resume :
    {A B : Type 0} (P : World → Type 0) (f : A → Action B) (r : Result A) (w : World)
    → ((x : A) → Keeps P (f x))
    → P w
    → P (resume f (r, w)).1
Keeps-resume P f (ok x) w h p = h x w p
Keeps-resume P f (err e) w h p = p

Keeps->>= :
    {A B : Type 0} (P : World → Type 0) (m : Action A) (f : A → Action B)
    → Keeps P m
    → ((x : A) → Keeps P (f x))
    → Keeps P (m >>= f)
Keeps->>= P m f hm hf w p = Keeps-resume P f (m w).0 (m w).1 hf (hm w p)

pub Keeps-lift :
    {A B : Type 0} (P : World → Type 0) (r : Result A) (f : A → Action B)
    → ((x : A) → r ≡ ok x → Keeps P (f x))
    → Keeps P (lift r >>= f)
Keeps-lift P (ok x) f h = h x refl
Keeps-lift P (err e) f h = λ w p. p

Keeps-if :
    {A : Type 0} (P : World → Type 0) (b : Bool) (m k : Action A)
    → Keeps P m
    → Keeps P k
    → Keeps P (if b then m else k)
Keeps-if P true m k hm hk = hm
Keeps-if P false m k hm hk = hk

module _ (F : Type 0) ⦃a : Arith F⦄ ⦃h : Host⦄ where
  -- A market that may be submitted: one of those that were built, nothing wrong with it, and not
  -- settled before.
  abbrev pub IsDue : BuildResult F → Ledger → MarketSettlement F → Type 0
  IsDue build l s =
      Any (λ x. x ≡ s) build.settlements
      × ((validate_settlement s ≡ []) × (is_settled s.market_id l ≡ false))

  -- A transaction of settlements carries the encodings of markets that satisfy the predicate.
  abbrev pub IsCallFor : (MarketSettlement F → Type 0) → Call → Type 0
  IsCallFor D (settle_batch tuples) =
      (chunk : List (MarketSettlement F)) × (map_result settlement_tuple chunk ≡ ok tuples)
      × All D chunk
  IsCallFor D (ensure_mapped names) = Unit
  IsCallFor D (place_order order) = Unit

  pub fresh-IsDue :
      (build : BuildResult F) (l : Ledger)
      → All
          (IsDue build l)
          (fresh_of l (candidates (validate_batch build.settlements) build.settlements))
  fresh-IsDue build l =
      let rejected = validate_batch build.settlements in
      let known : MarketSettlement F → Bool = λ s. not (contains s.market_id rejected) in
      let new : MarketSettlement F → Bool = λ s. not (is_settled s.market_id l) in
      All-zip (λ s. Any (λ x. x ≡ s) build.settlements) _ _
        (All-filter _ new _ (All-filter _ known _ (All-Any build.settlements)))
        (All-zip (λ s. validate_settlement s ≡ []) (λ s. is_settled s.market_id l ≡ false) _
          (All-filter _ new _ (
            All-apply (λ s. known s ≡ true) (λ s. validate_settlement s ≡ []) _ (filter-All known _)
              (All-filter _ known _ (
                All-mono _ (λ s. known s ≡ true → validate_settlement s ≡ []) build.settlements
                  (λ s f e. f (ground (arith, e))) (validate_batch-passed build.settlements)))))
          (All-mono _ _ _ (λ s e. ground (arith, e)) (filter-All new _)))

  -- A predicate that the calls but for settlements, the placed orders and each chunk keep.
  pub record IsInvariant (D : MarketSettlement F → Type 0) (respond : Respond) (P : World → Type 0)
      : Type 0 where
    pub call_keeps : (c : Call) → IsCallFor D c → Keeps P (call respond c)
    pub placed_keeps : (order_id : String) → Keeps P (modify (report_placed order_id))
    pub chunk_keeps :
        (chunk : List (MarketSettlement F)) → All D chunk → Keeps P (settle_chunk respond chunk)

  -- One that every call and every way to mark markets as settled keep is kept by a chunk.
  pub settle_chunk-Keeps :
      (D : MarketSettlement F → Type 0) (respond : Respond) (P : World → Type 0)
      → ((c : Call) → IsCallFor D c → Keeps P (call respond c))
      → ((market_ids : List String) (tx_hash : String)
          → Keeps P (modify (report_settled market_ids tx_hash)))
      → (chunk : List (MarketSettlement F)) → All D chunk
      → Keeps P (settle_chunk respond chunk)
  unfolding settle_chunk
  settle_chunk-Keeps D respond P call_keeps settled_keeps chunk due =
      Keeps-lift P (map_result settlement_tuple chunk) _ λ ts e.
        Keeps->>= P (call respond (settle_batch ts)) _
          (call_keeps (settle_batch ts) (chunk, e, due))
          λ tx_hash. settled_keeps (market_ids_of chunk) tx_hash

  module _ (D : MarketSettlement F → Type 0) (respond : Respond) (P : World → Type 0)
      (i : IsInvariant D respond P) where
    register_actors-Keeps :
        (b : Bool) (names : List String) → Keeps P (register_actors respond b names)
    unfolding register_actors
    register_actors-Keeps true names =
        Keeps->>= P (call respond (ensure_mapped names)) (λ _. lift (ok tt))
          (i.call_keeps (ensure_mapped names) tt) λ _ w p. p
    register_actors-Keeps false names = λ w p. p

    place_one-Keeps : (o : OrderParams F) → Keeps P (place_one respond o)
    unfolding place_one
    place_one-Keeps o = Keeps-lift P (order_tuple o) _ λ t e.
        Keeps->>= P (call respond (place_order t)) _ (i.call_keeps (place_order t) tt)
          λ _. i.placed_keeps o.order_id

    place_orders-Keeps :
        (used : List String) (os : List (OrderParams F)) → Keeps P (place_orders respond used os)
    unfolding place_orders
    place_orders-Keeps used [] w p = p
    place_orders-Keeps used (o ∷ os) w p =
        Keeps-if P (member o.order_id used && not (is_placed o.order_id w.ledger))
          (place_one respond o >> place_orders respond used os) (place_orders respond used os)
          (Keeps->>= P (place_one respond o) _ (place_one-Keeps o) λ _. place_orders-Keeps used os)
          (place_orders-Keeps used os) w p

    pub settle_chunks-Keeps :
        (chunks : List (List (MarketSettlement F)))
        → All (All D) chunks
        → Keeps P (settle_chunks respond chunks)
    unfolding settle_chunks
    settle_chunks-Keeps [] d = λ w p. p
    settle_chunks-Keeps (c ∷ cs) (due, dues) =
        Keeps->>= P (settle_chunk respond c) _ (i.chunk_keeps c due)
          λ _. settle_chunks-Keeps cs dues

    pub settle_fresh-Keeps :
        (b : Bool) (n : ℕ) (os : List (OrderParams F)) (ss : List (MarketSettlement F))
        → All D ss
        → Keeps P (settle_fresh respond b n os ss)
    unfolding settle_fresh
    settle_fresh-Keeps b n os [] d = λ w p. p
    settle_fresh-Keeps b n os (s ∷ ss) d =
        Keeps->>= P (register_actors respond b _) _ (register_actors-Keeps b _) λ _.
          Keeps->>= P (place_orders respond _ os) _ (place_orders-Keeps _ os) λ _.
            settle_chunks-Keeps (pack (s ∷ ss) n)
              (All-concat D (pack (s ∷ ss) n) (subst (All D) (sym (pack_lem (s ∷ ss) n).0) d))

  -- Every transaction of settlements that `settle` sends, whether it returns or raises, carries the
  -- encodings of markets of the build that have no violation, and whose ids the ledger did not have
  -- as settled at the start.
  pub settle-calls :
      (respond : Respond) (b : Bool) (n : ℕ) (build : BuildResult F) (l : Ledger)
      → All (IsCallFor (IsDue build l)) (settle respond b n build [] l).1.calls
  unfolding settle
  settle-calls respond b n build l =
      settle_fresh-Keeps (IsDue build l) respond (λ w. All (IsCallFor (IsDue build l)) w.calls)
        (record {
          call_keeps = λ c s w p. All-append (IsCallFor (IsDue build l)) w.calls (c ∷ []) p (s, tt);
          placed_keeps = λ o w p. p;
          chunk_keeps =
              settle_chunk-Keeps (IsDue build l) respond
                (λ w. All (IsCallFor (IsDue build l)) w.calls)
                (λ c s w p. All-append (IsCallFor (IsDue build l)) w.calls (c ∷ []) p (s, tt))
                (λ ms tx w p. p);
        })
        b n build.pool_orders _ (fresh-IsDue build l) _ tt

  -- A settled market stays settled, also when `settle` raises half-way.
  pub settle_mono :
      (respond : Respond) (b : Bool) (n : ℕ) (build : BuildResult F) (calls : List Call)
      (l : Ledger) (m : String)
      → is_settled m l ≡ true
      → is_settled m (settle respond b n build calls l).1.ledger ≡ true
  unfolding settle
  settle_mono respond b n build calls l m known =
      settle_fresh-Keeps (IsDue build l) respond (λ w. is_settled m w.ledger ≡ true)
        (record {
          call_keeps = λ c s w p. p;
          placed_keeps = λ o w p. mark_placed-is_settled o w.ledger m p;
          chunk_keeps =
              settle_chunk-Keeps (IsDue build l) respond (λ w. is_settled m w.ledger ≡ true)
                (λ c s w p. p) (λ ms tx w p. mark_settled-is_settled ms tx w.ledger m p);
        })
        b n build.pool_orders _ (fresh-IsDue build l) _ known
