-- ===== src/Clearing/Run/Publication.antt =====
-- What a run sends to the storage, in which order, and when.
use ammba_uoc.Prelude.{
  String, ◌≡◌, refl, ◌⊎◌, inl, inr, Bool, ◌||◌, List, [], ◌∷◌, ◌++◌, length, All, arith, Result, ok,
  err, map_result, Result-cases, Option-cases, Bool-cases,
}
use ammba_uoc.Prelude.Int.{ℤ}
use ammba_uoc.Prelude.Dict.{Dict}
use ammba_uoc.Arith.{Arith, nought}
use ammba_uoc.Wire.{Host, IntOrder, IntTrade, IntClearingResult}
use ammba_uoc.Clearing.Orders.{Order}
use ammba_uoc.Clearing.Adapters.{build_int_clearing_result}
use ammba_uoc.Clearing.Run.{
  CommunityConfig, Services, Effect, put_trades, put_result, Summary, send_valid, send_validated,
  send_result, send_posted, send_trades, send_all, total_energy, market_trades, settle_market,
  clearing_price, clear_recorded, clear_orders, internal_orders, clear_internal, clear_raw,
  clear_unless_traded, run_clearing,
}

map_result-ok :
    {A : Type 0} (f : A → Result (Unit {0})) (xs : List A) (ys : List (Unit {0}))
    → map_result f xs ≡ ok ys
    → All (λ x. f x ≡ ok tt) xs
unfolding map_result
map_result-ok f [] ys e = tt
map_result-ok f (x ∷ xs) ys e = elim (Result-cases (f x)) [
  | inr (e', bad) ↦ absurd (ground arith)
  | inl (u, good) ↦ elim (Result-cases (map_result f xs)) [
    | inr (e', bad) ↦ absurd (ground arith)
    | inl (us, rest) ↦ (good, map_result-ok f xs us rest)
  ]
]

module _ {F : Type 0} (s : Services F) where
  abbrev pub AreValid : List (IntTrade F) → Type 0
  AreValid = All λ t. s.validate_trade t ≡ ok tt

  abbrev pub IsValidResult : IntClearingResult F → Type 0
  IsValidResult r = s.validate_clearing_result r ≡ ok tt

  send_validated-ind :
      (P : List (Effect F) → Type 0) (r : IntClearingResult F) (summary : Summary F)
      (sent : List (Effect F)) (v : Result (Unit {0}))
      → s.validate_clearing_result r ≡ v
      → P sent
      → (IsValidResult r → P (sent ++ (put_result r ∷ [])))
      → P (send_validated s r summary sent v).1
  unfolding send_validated send_valid
  send_validated-ind P r summary sent (err e) h p q = p
  send_validated-ind P r summary sent (ok u) h p q = elim (Option-cases s.post_clearing_result) [
    | inl absent ↦ rw absent p
    | inr (post, e) ↦ rw e (q h)
  ]

  send_posted-ind :
      (P : List (Effect F) → Type 0) (trades : List (IntTrade F)) (r : IntClearingResult F)
      (summary : Summary F) (v : Result (Unit {0}))
      → P (put_trades trades ∷ [])
      → (IsValidResult r → P (put_trades trades ∷ put_result r ∷ []))
      → P (send_posted s trades r summary v).1
  unfolding send_posted send_result
  send_posted-ind P trades r summary (err e) p q = p
  send_posted-ind P trades r summary (ok u) p q =
      send_validated-ind P r summary (put_trades trades ∷ []) (s.validate_clearing_result r) refl p
        q

  send_trades-ind :
      (P : List (Effect F) → Type 0) (trades : List (IntTrade F)) (r : IntClearingResult F)
      (summary : Summary F) (v : Result (List (Unit {0})))
      → map_result s.validate_trade trades ≡ v
      → P []
      → (AreValid trades → P (put_trades trades ∷ []))
      → (AreValid trades → IsValidResult r → P (put_trades trades ∷ put_result r ∷ []))
      → P (send_trades s trades r summary v).1
  unfolding send_trades
  send_trades-ind P trades r summary (err e) h p q k = p
  send_trades-ind P trades r summary (ok us) h p q k =
      let valid = map_result-ok s.validate_trade trades us h in
      send_posted-ind P trades r summary (s.post_trades trades) (q valid) (k valid)

module _ {F : Type 0} ⦃a : Arith F⦄ ⦃h : Host⦄ (s : Services F) (c : CommunityConfig F)
    (market_id : String) (P : List (Effect F) → Type 0) where
  -- The trades of a market with this supply and demand.
  abbrev pub trades_for :
      F → F → Dict String F → List (Order F) → List (Order F) → List (IntTrade F)
  trades_for supply demand adjusted bids offers =
      market_trades market_id c.pool_actor_uuid adjusted
        (clearing_price s c market_id supply demand) (h.render_iso s.now) bids offers

  -- What a predicate needs to hold of everything that a run may send.
  pub record Covers : Type 0 where
    pub nothing : P []
    pub only_result :
        (r : IntClearingResult F) → r.num_trades ≡ 0 → IsValidResult s r → P (put_result r ∷ [])
    pub only_trades :
        (supply demand : F) (adjusted : Dict String F) (bids offers : List (Order F))
        → AreValid s (trades_for supply demand adjusted bids offers)
        → P (put_trades (trades_for supply demand adjusted bids offers) ∷ [])
    pub both :
        (supply demand : F) (adjusted : Dict String F) (bids offers : List (Order F))
        (r : IntClearingResult F)
        → r.num_trades ≡ length (trades_for supply demand adjusted bids offers)
        → AreValid s (trades_for supply demand adjusted bids offers)
        → IsValidResult s r
        → P (put_trades (trades_for supply demand adjusted bids offers) ∷ put_result r ∷ [])

  clear_recorded-ind :
      Covers
      → (supply demand : F) (bids offers : List (Order F)) (v : Result String)
      → P (clear_recorded s c market_id supply demand bids offers v).1
  unfolding clear_recorded settle_market send_all build_int_clearing_result
  clear_recorded-ind k supply demand bids offers (err e) = k.nothing
  clear_recorded-ind k supply demand bids offers (ok tx_hash) =
      send_trades-ind s P _ _ _ _ refl k.nothing (λ v. k.only_trades supply demand _ _ _ v)
        λ v w. k.both supply demand _ _ _ _ refl v w

  clear_orders-ind :
      Covers
      → (community_uuid : String) (time_slot : ℤ) (bids offers : List (Order F))
      → P (clear_orders s c market_id community_uuid time_slot bids offers).1
  unfolding clear_orders send_result build_int_clearing_result
  clear_orders-ind k community_uuid time_slot bids offers =
      elim (Bool-cases (a.eq (total_energy offers) nought || a.eq (total_energy bids) nought)) [
        | inl one_sided ↦
            rw one_sided
              (send_validated-ind s P _ _ [] _ refl k.nothing (λ v. k.only_result _ refl v))
        | inr both ↦ rw both (clear_recorded-ind k _ _ bids offers _)
      ]

  clear_internal-ind :
      Covers
      → (community_uuid : String) (time_slot : ℤ) (orders : Result (List (Order F)))
      → P (clear_internal s c market_id community_uuid time_slot orders).1
  unfolding clear_internal
  clear_internal-ind k community_uuid time_slot (err e) = k.nothing
  clear_internal-ind k community_uuid time_slot (ok orders) =
      clear_orders-ind k community_uuid time_slot _ _

  clear_raw-ind :
      Covers
      → (community_uuid : String) (time_slot : ℤ) (strict : Bool) (raw : Result (List (IntOrder F)))
      → P (clear_raw s c market_id community_uuid time_slot strict raw).1
  unfolding clear_raw
  clear_raw-ind k community_uuid time_slot strict (err e) = k.nothing
  clear_raw-ind k community_uuid time_slot strict (ok raws) =
      clear_internal-ind k community_uuid time_slot (internal_orders s strict raws)

  clear_unless_traded-ind :
      Covers
      → (community_uuid : String) (time_slot time_slot_sec : ℤ) (strict : Bool)
        (traded : Result (List (IntTrade F)))
      → P (clear_unless_traded s c market_id community_uuid time_slot time_slot_sec strict traded).1
  unfolding clear_unless_traded
  clear_unless_traded-ind k community_uuid time_slot time_slot_sec strict (err e) = k.nothing
  clear_unless_traded-ind k community_uuid time_slot time_slot_sec strict (ok (t ∷ ts)) = k.nothing
  clear_unless_traded-ind k community_uuid time_slot time_slot_sec strict (ok []) =
      clear_raw-ind k community_uuid time_slot strict _

  pub run_clearing-ind :
      Covers
      → (community_uuid : String) (time_slot time_slot_sec : ℤ) (strict : Bool)
      → P (run_clearing s c market_id community_uuid time_slot time_slot_sec strict).1
  unfolding run_clearing
  run_clearing-ind k community_uuid time_slot time_slot_sec strict =
      clear_unless_traded-ind k community_uuid time_slot time_slot_sec strict
        (s.get_trades market_id)

module _ {F : Type 0} ⦃a : Arith F⦄ ⦃h : Host⦄ (s : Services F) where
  -- Nothing, or a result without trades, or valid trades, or these and then their result.
  pub data IsOrderly : List (Effect F) → Type 0 where
    silent : IsOrderly []
    result_only :
        {r : IntClearingResult F}
        → r.num_trades ≡ 0
        → IsValidResult s r
        → IsOrderly (put_result r ∷ [])
    trades_only : {ts : List (IntTrade F)} → AreValid s ts → IsOrderly (put_trades ts ∷ [])
    trades_then_result :
        {ts : List (IntTrade F)} {r : IntClearingResult F}
        → r.num_trades ≡ length ts
        → AreValid s ts
        → IsValidResult s r
        → IsOrderly (put_trades ts ∷ put_result r ∷ [])

  -- A run, however it ends, sends the storage nothing, or a valid result that reports no trade, or a
  -- list of trades that are all valid, alone or followed by a valid result with their number.
  pub run_clearing-IsOrderly :
      (c : CommunityConfig F) (market_id community_uuid : String) (time_slot time_slot_sec : ℤ)
      (strict : Bool)
      → IsOrderly (run_clearing s c market_id community_uuid time_slot time_slot_sec strict).1
  run_clearing-IsOrderly c market_id community_uuid time_slot time_slot_sec strict =
      run_clearing-ind s c market_id IsOrderly
        (record {
          nothing = silent;
          only_result = λ r n v. result_only n v;
          only_trades = λ supply demand adjusted bids offers v. trades_only v;
          both = λ supply demand adjusted bids offers r n v w. trades_then_result n v w;
        })
        community_uuid time_slot time_slot_sec strict

  -- A run that sends anything found no trade of the market in the storage.
  pub run_clearing-once :
      (c : CommunityConfig F) (market_id community_uuid : String) (time_slot time_slot_sec : ℤ)
      (strict : Bool)
      → (s.get_trades market_id ≡ ok [])
        ⊎ ((run_clearing s c market_id community_uuid time_slot time_slot_sec strict).1 ≡ [])
  unfolding run_clearing clear_unless_traded
  run_clearing-once c market_id community_uuid time_slot time_slot_sec strict =
      elim (Result-cases (s.get_trades market_id)) [
        | inr (e, failed) ↦ inr (rw failed refl)
        | inl ([], none_yet) ↦ inl none_yet
        | inl (t ∷ ts, traded) ↦ inr (rw traded refl)
      ]
