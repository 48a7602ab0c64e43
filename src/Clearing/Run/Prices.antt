-- ===== src/Clearing/Run/Prices.antt =====
-- The allocations and the prices of a cleared market.
use ammba_uoc.Prelude.{
  String, ◌≡◌, refl, ◌⊎◌, inl, inr, Bool, true, List, [], ◌∷◌, ◌++◌, map, concat, All, All-mono,
  All-append, arith,
}
use ammba_uoc.Prelude.Int.{ℤ}
use ammba_uoc.Prelude.Dict.{Dict}
use ammba_uoc.Arith.{Arith, ◌≼◌, nought, unit, IsOrdered, IsRounded}
use ammba_uoc.Arith.Facts
use ammba_uoc.Wire.{Host, IntTrade}
use ammba_uoc.Clearing.Orders.{Order}
use ammba_uoc.Clearing.Sigmoid.Shape.{sigmoid_price_bounds}
use ammba_uoc.Clearing.Adapters.{
  ct_to_eur, int_trade, build_direct_int_trade, build_buyer_pool_int_trade,
  build_pool_seller_int_trade,
}
use ammba_uoc.Clearing.Run.{
  CommunityConfig, Services, Effect, put_trades, put_result, pro_rata, direct_trades, buyer_trades,
  seller_trades, market_trades, clearing_price, run_clearing,
}
use ammba_uoc.Clearing.Run.Publication.{run_clearing-ind}

All-map :
    {A B : Type 0} (P : B → Type 0) (f : A → B) (xs : List A)
    → ((x : A) → P (f x))
    → All P (map f xs)
All-map P f [] h = tt
All-map P f (x ∷ xs) h = (h x, All-map P f xs h)

All-concat-map :
    {A B : Type 0} (P : B → Type 0) (f : A → List B) (xs : List A)
    → ((x : A) → All P (f x))
    → All P (concat (map f xs))
All-concat-map P f [] h = tt
All-concat-map P f (x ∷ xs) h =
    All-append P (f x) (concat (map f xs)) (h x) (All-concat-map P f xs h)

module _ {F : Type 0} ⦃a : Arith F⦄ ⦃h : Host⦄ where
  -- The price is the uniform one, unless the pool is the buyer.
  abbrev pub IsUniform : String → F → IntTrade F → Type 0
  IsUniform pool_actor price_eur t = (t.trade_price ≡ price_eur) ⊎ (t.buyer_id ≡ pool_actor)

  market_trades_lem :
      (market_id pool_actor : String) (adjusted : Dict String F) (price_ct : F) (traded_at : String)
      (bids offers : List (Order F))
      → All
          (IsUniform pool_actor (ct_to_eur price_ct))
          (market_trades market_id pool_actor adjusted price_ct traded_at bids offers)
  unfolding market_trades direct_trades buyer_trades seller_trades build_direct_int_trade
      build_buyer_pool_int_trade build_pool_seller_int_trade int_trade
  market_trades_lem market_id pool_actor adjusted price_ct traded_at bids offers =
      let P = IsUniform pool_actor (ct_to_eur price_ct) in
      All-append P (direct_trades market_id (ct_to_eur price_ct) traded_at bids) _
        (All-concat-map P _ bids λ b. All-map P _ b.preference_matches λ m. inl refl)
        (All-append P (buyer_trades market_id pool_actor (ct_to_eur price_ct) traded_at bids) _
          (All-map P _ _ λ b. inl refl) (All-map P _ _ λ o. inr refl))

  -- The trades among what a run sends.
  abbrev pub posted : List (Effect F) → List (IntTrade F)
  posted [] = []
  posted (put_trades ts ∷ es) = ts ++ posted es
  posted (put_result r ∷ es) = posted es

  -- The price of a trade lies within the band in EUR, unless the pool is the buyer.
  abbrev pub IsInBand : CommunityConfig F → IntTrade F → Type 0
  IsInBand c t =
      ((ct_to_eur c.k_lower_ct_per_kwh ≼ t.trade_price)
        × (t.trade_price ≼ ct_to_eur c.k_upper_ct_per_kwh))
      ⊎ (t.buyer_id ≡ c.pool_actor_uuid)

  module _ (o : IsOrdered F) (r : IsRounded F) where
    open o use {le_trans, num_of_le}
    open r use {mul_mono, mul_one_left, mul_zero_left, div_nonneg, div_le_one, div_mono}

    -- The pro-rata share of an order whose energy is between zero and the positive total is not
    -- negative and not more than the traded quantity, which is not negative either.
    pro_rata_bounds :
        (energy total traded_quantity : F)
        → nought ≼ energy
        → energy ≼ total
        → a.lt nought total ≡ true
        → nought ≼ traded_quantity
        → (nought ≼ pro_rata energy total traded_quantity)
          × (pro_rata energy total traded_quantity ≼ traded_quantity)
    unfolding pro_rata
    pro_rata_bounds energy total quantity p e t q =
        let share = a.div energy total in
        let nq = (num_of_le nought quantity q).1 in
        (
          le_trans nought (a.mul nought quantity) _ (mul_zero_left quantity nq).1
              (mul_mono nought share quantity (div_nonneg energy total p t) q),
          le_trans _ (a.mul unit quantity) quantity
              (mul_mono share unit quantity (div_le_one energy total e t) q)
              (mul_one_left quantity nq).0,
        )

    -- The larger order gets the larger pro-rata share, or the same.
    pub pro_rata_mono :
        (energy energy' total traded_quantity : F)
        → energy ≼ energy'
        → a.lt nought total ≡ true
        → nought ≼ traded_quantity
        → pro_rata energy total traded_quantity ≼ pro_rata energy' total traded_quantity
    unfolding pro_rata
    pro_rata_mono energy energy' total quantity e t q =
        mul_mono _ _ quantity (div_mono energy energy' total e t) q

    ct_to_eur_mono : (x y : F) → x ≼ y → ct_to_eur x ≼ ct_to_eur y
    unfolding ct_to_eur
    ct_to_eur_mono x y e =
        div_mono x y (a.dec 100 0) e
          (Facts.pos_of-one_le o (a.dec 100 0) (o.dec_mono 1 100 0 (omega arith)))

    clearing_price_bounds :
        (s : Services F) (c : CommunityConfig F) (market_id : String) (supply demand : F)
        → c.k_lower_ct_per_kwh ≼ c.k_upper_ct_per_kwh
        → (c.k_lower_ct_per_kwh ≼ clearing_price s c market_id supply demand)
          × (clearing_price s c market_id supply demand ≼ c.k_upper_ct_per_kwh)
    unfolding clearing_price
    clearing_price_bounds s c market_id supply demand k = sigmoid_price_bounds o _ _ _ _ _ k

    uniform-IsInBand :
        (c : CommunityConfig F) (price : F) (t : IntTrade F)
        → (c.k_lower_ct_per_kwh ≼ price) × (price ≼ c.k_upper_ct_per_kwh)
        → IsUniform c.pool_actor_uuid (ct_to_eur price) t
        → IsInBand c t
    uniform-IsInBand c price t (l, u) (inl e) =
        inl (rw e (ct_to_eur_mono _ _ l, ct_to_eur_mono _ _ u))
    uniform-IsInBand c price t b (inr e) = inr e

    in_band :
        (s : Services F) (c : CommunityConfig F) (market_id : String) (supply demand : F)
        (adjusted : Dict String F) (traded_at : String) (bids offers : List (Order F))
        → c.k_lower_ct_per_kwh ≼ c.k_upper_ct_per_kwh
        → All (IsInBand c) (
            market_trades market_id c.pool_actor_uuid adjusted
              (clearing_price s c market_id supply demand)
              traded_at
              bids
              offers
            ++ [])
    in_band s c market_id supply demand adjusted traded_at bids offers k =
        All-append (IsInBand c)
          (market_trades market_id c.pool_actor_uuid adjusted _ traded_at bids offers) []
          (All-mono _ (IsInBand c) _
            (λ t. uniform-IsInBand c _ t (clearing_price_bounds s c market_id supply demand k))
            (market_trades_lem market_id c.pool_actor_uuid adjusted _ traded_at bids offers))
          tt

    -- Whatever the services answer, every trade that a run posts is priced within the community's
    -- band, in EUR, except where the pool buys from a seller: there the scheme of subsidy and levy
    -- may move the price. The lower bound of the band is at most the upper one.
    pub run_clearing-prices :
        (s : Services F) (c : CommunityConfig F) (market_id community_uuid : String)
        (time_slot time_slot_sec : ℤ) (strict : Bool)
        → c.k_lower_ct_per_kwh ≼ c.k_upper_ct_per_kwh
        → All
            (IsInBand c)
            (posted (run_clearing s c market_id community_uuid time_slot time_slot_sec strict).1)
    run_clearing-prices s c market_id community_uuid time_slot time_slot_sec strict k =
        run_clearing-ind s c market_id (λ w. All (IsInBand c) (posted w))
          (record {
            nothing = tt;
            only_result = λ x n v. tt;
            only_trades = λ supply demand adjusted bids offers v.
                in_band s c market_id supply demand adjusted _ bids offers k;
            both = λ supply demand adjusted bids offers x n v w.
                in_band s c market_id supply demand adjusted _ bids offers k;
          })
          community_uuid time_slot time_slot_sec strict
