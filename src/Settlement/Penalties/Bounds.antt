-- ===== src/Settlement/Penalties/Bounds.antt =====
-- No penalty is negative, and every trade of a slot with demand gets its result.
use ammba_uoc.Prelude.{
  String, ◌≡◌, refl, List, [], ◌∷◌, map, All, arith, some, Result, ok, map_result, Bool-cases, inl,
  inr, true, string_eq,
}
use ammba_uoc.Prelude.Dict.{Dict, lookup}
use ammba_uoc.Arith.{Arith, ◌≼◌, nought, IsOrdered, IsRounded, max_of, divide, isclose}
use ammba_uoc.Arith.Facts
use ammba_uoc.Settlement.Penalties.{
  default_to, is_part_of, SettledTrade, PriceBounds, PenaltyResult, Round,
  compute_seller_shortfall_penalty, compute_seller_externality_penalty,
  compute_buyer_externality_penalty, traded_quantity, round_of, penalty_result, seller_penalties,
  buyer_penalties, trade_penalties, compute_penalties_for_trades,
}

module _ {F : Type 0} ⦃a : Arith F⦄ (o : IsOrdered F) (r : IsRounded F) where
  open o use {le_trans, num_of_le, eq_iff_le}
  open r use {mul_mono, mul_zero_left, sub_nonpos, sub_le, le_add_right, le_add_left}

  mul_nonneg : (x y : F) → nought ≼ x → nought ≼ y → nought ≼ a.mul x y
  mul_nonneg x y p q =
      le_trans nought (a.mul nought y) (a.mul x y) (mul_zero_left y (num_of_le nought y q).1).1
        (mul_mono nought x y p q)

  add_nonneg : (x y : F) → nought ≼ x → nought ≼ y → nought ≼ a.add x y
  add_nonneg x y p q = le_trans nought x (a.add x y) p (le_add_right x y (num_of_le nought x p).1 q)

  clamped : (x : F) → nought ≼ max_of nought x
  clamped x = Facts.le-max_of_left o nought x (Facts.zero_num o)

  shortfall_nonneg :
      (energy_traded actual_delivered k_upper gamma eta : F)
      → nought ≼ k_upper
      → nought ≼ gamma
      → nought ≼ compute_seller_shortfall_penalty energy_traded actual_delivered k_upper gamma eta
  unfolding compute_seller_shortfall_penalty
  shortfall_nonneg energy_traded actual_delivered k_upper gamma eta k g =
      mul_nonneg (a.mul gamma k_upper) _ (mul_nonneg gamma k_upper g k) (clamped _)

  -- A seller who delivers what was traded or more is charged the rate times zero: the tolerance,
  -- which is not negative, only widens this.
  pub shortfall-delivered :
      (energy_traded actual_delivered k_upper gamma eta : F)
      → energy_traded ≼ actual_delivered
      → nought ≼ eta
      → compute_seller_shortfall_penalty energy_traded actual_delivered k_upper gamma eta
        ≡ a.mul (a.mul gamma k_upper) nought
  unfolding compute_seller_shortfall_penalty
  shortfall-delivered energy_traded actual_delivered k_upper gamma eta d e =
      let s = sub_nonpos energy_traded actual_delivered d in
      let s' =
        le_trans _ _ _ (sub_le (a.sub energy_traded actual_delivered) eta (num_of_le _ _ s).0 e)
          s in
      ground (arith, Facts.not-le_of_lt o nought (a.sub (a.sub energy_traded actual_delivered) eta))

  -- An outcome that is a value which satisfies the predicate.
  abbrev pub Returns : {A : Type 0} → (A → Type 0) → Result A → Type 0
  Returns {A} P m = (x : A) × (m ≡ ok x) × P x

  divides : (x y : F) → a.lt nought y ≡ true → divide x y ≡ ok (a.div x y)
  divides x y p = ground (arith, Facts.ne_zero_of_pos o y p)

  seller_externality-Returns :
      (x1 x2 x3 total_demand x5 x6 x7 x8 x9 x10 eta : F)
      → a.lt nought total_demand ≡ true
      → Returns
          (λ p. nought ≼ p)
          (compute_seller_externality_penalty x1 x2 x3 total_demand x5 x6 x7 x8 x9 x10 eta)
  unfolding compute_seller_externality_penalty
  seller_externality-Returns x1 x2 x3 total_demand x5 x6 x7 x8 x9 x10 eta p =
      elim (Bool-cases (a.le (a.sub (a.sub x1 x2) eta) nought)) [
        | inl none_withheld ↦ rw none_withheld (nought, refl, Facts.zero_num o)
        | inr withheld ↦ rw (withheld, Facts.ne_zero_of_pos o total_demand p) (_, refl, clamped _)
      ]

  buyer_externality-Returns :
      (actual_demand reported_demand x3 total_demand x5 x6 x7 x8 x9 x10 : F)
      → a.lt nought total_demand ≡ true
      → a.sub actual_demand reported_demand ≼ a.sub actual_demand reported_demand
      → Returns
          (λ p. nought ≼ p)
          (compute_buyer_externality_penalty actual_demand reported_demand x3 total_demand x5 x6 x7
            x8 x9 x10)
  unfolding compute_buyer_externality_penalty
  buyer_externality-Returns actual_demand reported_demand x3 total_demand x5 x6 x7 x8 x9 x10 p n =
      let w = a.sub actual_demand reported_demand in
      elim (Bool-cases (a.le w nought)) [
        | inl none_withheld ↦ rw none_withheld (nought, refl, Facts.zero_num o)
        | inr withheld ↦
            let more = Facts.lt_of_not-le o w nought n (Facts.zero_num o) withheld in
            let grown =
              le_add_right total_demand w (num_of_le _ _ (Facts.le_of_lt o _ _ p)).1
                (Facts.le_of_lt o _ _ more) in
            rw
              (
                withheld,
                Facts.ne_zero_of_pos o (a.add total_demand w) (Facts.lt_of_lt-le o _ _ _ p grown),
              )
              (_, refl, clamped _)
      ]

  -- The result of a trade: its three penalties and their total are not negative.
  abbrev pub IsNonneg : PenaltyResult F → Type 0
  IsNonneg p =
      (nought ≼ p.seller_shortfall_penalty)
      × (nought ≼ p.seller_externality_penalty)
      × (nought ≼ p.buyer_externality_penalty)
      × (nought ≼ p.total_penalty)

  abbrev pub IsResultOf : String → PenaltyResult F → Type 0
  IsResultOf uuid p = (p.trade_uuid ≡ uuid) × IsNonneg p

  result-IsResultOf :
      (uuid : String) (x y z : F)
      → nought ≼ x
      → nought ≼ y
      → nought ≼ z
      → IsResultOf uuid (penalty_result uuid x y z)
  result-IsResultOf uuid x y z p q s =
      (refl, (p, q, s, add_nonneg (a.add x y) z (add_nonneg x y p q) s))

  -- A slot with demand, and rates that are not negative.
  abbrev pub IsPriced : Round F → Type 0
  IsPriced s = (a.lt nought s.total_demand ≡ true) × (nought ≼ s.k_upper) × (nought ≼ s.gamma)

  seller_penalties-Returns :
      (s : Round F) (x y : F) (uuid : String)
      → IsPriced s
      → Returns (IsResultOf uuid) (seller_penalties s x y uuid)
  unfolding seller_penalties
  seller_penalties-Returns s x y uuid (d, k, g) =
      let (p, e, n) =
        seller_externality-Returns y x s.total_supply s.total_demand s.clearing_price
          (traded_quantity s) s.k_upper s.k_lower s.theta s.steepness s.eta d in
      let paid = shortfall_nonneg x y s.k_upper s.gamma s.eta k g in
      elim (Bool-cases (isclose (traded_quantity s) s.total_supply)) [
        | inl limited ↦
            rw (limited, e) (_, refl, result-IsResultOf uuid _ p nought paid n (Facts.zero_num o))
        | inr free ↦ rw free (
          _,
          refl,
          result-IsResultOf uuid _ nought nought paid (Facts.zero_num o) (Facts.zero_num o),
        )
      ]

  buyer_penalties-Returns :
      (s : Round F) (x y : F) (uuid : String)
      → IsPriced s
      → a.sub y x ≼ a.sub y x
      → Returns (IsResultOf uuid) (buyer_penalties s x y uuid)
  unfolding buyer_penalties
  buyer_penalties-Returns s x y uuid (d, k, g) m =
      let (p, e, n) =
        buyer_externality-Returns y x s.total_supply s.total_demand s.clearing_price
          (traded_quantity s) s.k_upper s.k_lower s.theta s.steepness d m in
      let z = Facts.zero_num o in
      elim (Bool-cases (isclose (traded_quantity s) s.total_demand)) [
        | inl limited ↦ rw (limited, e) (_, refl, result-IsResultOf uuid nought nought p z z n)
        | inr free ↦ rw free (_, refl, result-IsResultOf uuid nought nought nought z z z)
      ]

  -- The reading for the buyer's area of a trade differs from its energy by a number, not by NaN.
  abbrev pub IsMetered : Dict String F → SettledTrade F → Type 0
  IsMetered measurements t =
      let energy = default_to t.parameters.selected_energy nought in
      let reading = default_to (lookup (default_to t.bid_area_uuid "") measurements) energy in
      a.sub reading energy ≼ a.sub reading energy

  trade_penalties-Returns :
      (measurements : Dict String F) (s : Round F) (t : SettledTrade F)
      → IsPriced s
      → IsMetered measurements t
      → Returns (IsResultOf (default_to t.trade_uuid "")) (trade_penalties measurements s t)
  unfolding trade_penalties
  trade_penalties-Returns measurements s t p m =
      let energy = default_to t.parameters.selected_energy nought in
      let z = Facts.zero_num o in
      elim (Bool-cases (is_part_of "AMM_POOL" (default_to t.buyer ""))) [
        | inl sold ↦ rw sold (seller_penalties-Returns s energy _ _ p)
        | inr rest ↦ elim (Bool-cases (is_part_of "AMM_POOL" (default_to t.seller ""))) [
          | inl bought ↦ rw (rest, bought) (buyer_penalties-Returns s energy _ _ p m)
          | inr other ↦ rw (rest, other) (_, refl, result-IsResultOf _ nought nought nought z z z)
        ]
      ]

  -- One result for each trade, in their order.
  abbrev pub AreResultsOf : List (SettledTrade F) → List (PenaltyResult F) → Type 0
  AreResultsOf ts ps =
      (map (λ p. p.trade_uuid) ps ≡ map (λ t. default_to t.trade_uuid "") ts) × All IsNonneg ps

  penalties-Returns :
      (measurements : Dict String F) (s : Round F) (ts : List (SettledTrade F))
      → IsPriced s
      → All (IsMetered measurements) ts
      → Returns (AreResultsOf ts) (map_result (trade_penalties measurements s) ts)
  unfolding map_result
  penalties-Returns measurements s [] p _ = ([], refl, (refl, tt))
  penalties-Returns measurements s (t ∷ ts) p (m, ms) =
      let (x, e, (i, n)) = trade_penalties-Returns measurements s t p m in
      let (xs, e', (is, ns)) = penalties-Returns measurements s ts p ms in
      rw (e, e') (x ∷ xs, refl, (cc, (n, ns)))

  -- For a slot whose first trade carries a positive demand, a configured band whose upper bound is
  -- not negative, a penalty multiplier that is not negative, and readings that are numbers, the
  -- computation does not raise: it returns one result for each trade, in order and with its id,
  -- and each penalty in it and their total are zero or more.
  pub compute_penalties_for_trades_lem :
      (t : SettledTrade F) (ts : List (SettledTrade F)) (measurements : Dict String F)
      (c : PriceBounds F) (k_upper k_lower gamma eta : F)
      → c.k_upper ≡ some k_upper
      → c.k_lower ≡ some k_lower
      → a.lt nought (default_to t.parameters.total_demand_kwh nought) ≡ true
      → nought ≼ k_upper
      → nought ≼ gamma
      → All (IsMetered measurements) (t ∷ ts)
      → (ps : List (PenaltyResult F)) × (compute_penalties_for_trades
            (t ∷ ts)
            measurements
            c
            gamma
            eta
          ≡ ok ps)
        × AreResultsOf (t ∷ ts) ps
  unfolding compute_penalties_for_trades round_of
  compute_penalties_for_trades_lem t ts measurements c k_upper k_lower gamma eta u l pos k g m =
      rw (u, l) (penalties-Returns measurements _ (t ∷ ts) (pos, k, g) m)
