-- ===== src/Settlement/Validator/Acceptance.antt =====
-- What the validator lets through.
use ammba_uoc.Prelude.{
  String, true, false, not, ◌⊎◌, ◌↔◌, ◌≡◌, ◌≢◌, refl, ap, Option, none, some, List, [], ◌∷◌, ◌++◌,
  map, concat, All, arith, string_eq, bytes_eq, nat_eq, beq_option,
}
use ammba_uoc.Prelude.Int.{ℤ, pos, ◌≤ℤ◌, ◌<ℤ◌, sum_ℤ, ltb_ℤ, beq_ℤ, beq_ℤ_iff, eq_of_parts}
use ammba_uoc.Prelude.Text.{present, truthy}
use ammba_uoc.Arith.{Arith, ◌≼◌, IsOrdered, IsRounded}
use ammba_uoc.Settlement.Validator.Identity.{SameId, one_market_iff, truthy_iff}
use ammba_uoc.Settlement.Structs.{
  OrderParams, Match, MarketSettlement, scale, match_type_preferred, match_type_standard,
}
use ammba_uoc.Wire.{Host}
use ammba_uoc.Settlement.Builder.{pool_order}
use ammba_uoc.Settlement.Validator.{
  Code, Detail, flag, partner_differs, bytes_of, effective_rate, check_preferred, check_standard,
  check_params, check_energy, check_price, validate_match, validate_settlement,
}

append-eq-nil : {A : Type 0} (xs ys : List A) → (xs ++ ys ≡ []) ↔ ((xs ≡ []) × (ys ≡ []))
append-eq-nil [] ys = (λ e. (refl, e), λ e. e.1)
append-eq-nil (x ∷ xs) ys = ground arith

-- A declared partner, if there is one, is the creator of the other order.
abbrev pub IsPartner : Option String → String → Type 0
IsPartner none creator = Unit
IsPartner (some p) creator = (truthy p ≡ false) ⊎ (p ≡ creator)

partner_differs_iff :
    (p : Option String) (creator : String)
    → (partner_differs p creator ≡ false) ↔ IsPartner p creator
partner_differs_iff none creator = (λ _. tt, λ _. refl)
partner_differs_iff (some p) creator = ground (arith, string_eq.beq_iff p creator)

quantity_iff :
    (x y : ℤ) (subject : String)
    → (flag (not (beq_ℤ x y)) subject Code.traded_quantity_mismatch Detail.quantity_differs ≡ [])
      ↔ (x ≡ y)
unfolding flag
quantity_iff x y subject = ground (arith, beq_ℤ_iff x y)

module _ {F : Type 0} ⦃a : Arith F⦄ where
  -- The validator's conditions on the ids, the market, the slot and the sides.
  pub record IsWellFormed (m : Match F) : Type 0 where
    pub trade_id : m.trade_id ≢ ""
    pub bid_id : m.bid.order_id ≢ ""
    pub offer_id : m.offer.order_id ≢ ""
    pub bid_creator : m.bid.created_by ≢ ""
    pub offer_creator : m.offer.created_by ≢ ""
    pub two_parties : m.bid.created_by ≢ m.offer.created_by
    pub one_market : SameId m.bid.market_id m.offer.market_id
    pub one_slot : m.bid.time_slot ≡ m.offer.time_slot
    pub bid_side : m.bid.is_bid ≡ true
    pub offer_side : m.offer.is_bid ≡ false

  -- the same by the tests of the code
  record IsChecked (m : Match F) : Type 0 where
    trade_id : truthy m.trade_id ≡ true
    bid_id : truthy m.bid.order_id ≡ true
    offer_id : truthy m.offer.order_id ≡ true
    bid_creator : truthy m.bid.created_by ≡ true
    offer_creator : truthy m.offer.created_by ≡ true
    two_parties : m.bid.created_by ≢ m.offer.created_by
    one_market : beq_option (bytes_of m.bid.market_id) (bytes_of m.offer.market_id) ≡ true
    one_slot : m.bid.time_slot ≡ m.offer.time_slot
    bid_side : m.bid.is_bid ≡ true
    offer_side : m.offer.is_bid ≡ false

  check_ids_iff : (m : Match F) → IsChecked m ↔ IsWellFormed m
  check_ids_iff m = (
    λ c. record {
      trade_id = (truthy_iff m.trade_id).0 c.trade_id;
      bid_id = (truthy_iff m.bid.order_id).0 c.bid_id;
      offer_id = (truthy_iff m.offer.order_id).0 c.offer_id;
      bid_creator = (truthy_iff m.bid.created_by).0 c.bid_creator;
      offer_creator = (truthy_iff m.offer.created_by).0 c.offer_creator;
      two_parties = c.two_parties;
      one_market = (one_market_iff m.bid.market_id m.offer.market_id).0 c.one_market;
      one_slot = c.one_slot;
      bid_side = c.bid_side;
      offer_side = c.offer_side;
    },
    λ c. record {
      trade_id = (truthy_iff m.trade_id).1 c.trade_id;
      bid_id = (truthy_iff m.bid.order_id).1 c.bid_id;
      offer_id = (truthy_iff m.offer.order_id).1 c.offer_id;
      bid_creator = (truthy_iff m.bid.created_by).1 c.bid_creator;
      offer_creator = (truthy_iff m.offer.created_by).1 c.offer_creator;
      two_parties = c.two_parties;
      one_market = (one_market_iff m.bid.market_id m.offer.market_id).1 c.one_market;
      one_slot = c.one_slot;
      bid_side = c.bid_side;
      offer_side = c.offer_side;
    },
  )

  -- A `Preferred` match: partners, and the price between the effective rates.
  pub record IsPreferred (m : Match F) : Type 0 where
    pub declared :
        (present m.bid.preferred_trading_partner ≡ true)
        ⊎ (present m.offer.preferred_trading_partner ≡ true)
    pub bid_partner : IsPartner m.bid.preferred_trading_partner m.offer.created_by
    pub offer_partner : IsPartner m.offer.preferred_trading_partner m.bid.created_by
    pub not_below : scale (effective_rate m.offer) ≤ℤ scale m.clearing_price
    pub not_above : scale m.clearing_price ≤ℤ scale (effective_rate m.bid)

  -- A `Standard` match: the price between the limits.
  pub record IsStandard (m : Match F) : Type 0 where
    pub not_below : scale m.offer.energy_rate ≤ℤ scale m.clearing_price
    pub not_above : scale m.clearing_price ≤ℤ scale m.bid.energy_rate

  pub record FitsOrders (m : Match F) : Type 0 where
    pub positive : pos 0 <ℤ scale m.selected_energy_kwh
    pub in_bid : scale m.selected_energy_kwh ≤ℤ scale m.bid.energy_kwh
    pub in_offer : scale m.selected_energy_kwh ≤ℤ scale m.offer.energy_kwh

  -- What the validator demands of a match.
  abbrev pub IsSettleable : Match F → Type 0
  IsSettleable m =
      IsWellFormed m
      × (((m.match_type ≡ match_type_preferred) × IsPreferred m)
          ⊎ ((m.match_type ≢ match_type_preferred) × IsStandard m))
      × FitsOrders m

  check_energy_iff : (m : Match F) → (check_energy m ≡ []) ↔ FitsOrders m
  unfolding check_energy
  check_energy_iff m = ground arith

  check_standard_iff : (m : Match F) → (check_standard m ≡ []) ↔ IsStandard m
  unfolding check_standard
  check_standard_iff m = ground arith

  check_preferred_iff : (m : Match F) → (check_preferred m ≡ []) ↔ IsPreferred m
  unfolding check_preferred
  check_preferred_iff m = ground (
    arith,
    partner_differs_iff m.bid.preferred_trading_partner m.offer.created_by,
    partner_differs_iff m.offer.preferred_trading_partner m.bid.created_by,
  )

  check_params-IsChecked : (m : Match F) → (check_params m ≡ []) ↔ IsChecked m
  unfolding check_params
  check_params-IsChecked m = ground (
    arith,
    string_eq.beq_iff m.bid.created_by m.offer.created_by,
    eq_of_parts m.bid.time_slot m.offer.time_slot,
  )

  -- The price conditions of the match's type.
  abbrev pub IsPricedFor : Match F → Type 0
  IsPricedFor m =
      ((m.match_type ≡ match_type_preferred) × IsPreferred m)
      ⊎ ((m.match_type ≢ match_type_preferred) × IsStandard m)

  check_price_iff : (m : Match F) → (check_price m ≡ []) ↔ IsPricedFor m
  unfolding check_price
  check_price_iff m = ground (
    arith,
    nat_eq.beq_iff m.match_type match_type_preferred,
    check_preferred_iff m,
    check_standard_iff m,
  )

  -- The validator finds nothing wrong with a match exactly when its ids and the creators of its orders
  -- are not empty texts, the creators differ, the two market ids stand for the same 16 bytes or are
  -- both no ids, the orders are a bid and an offer of one slot, the price conditions of its type hold,
  -- and its energy is positive and fits both orders, all in the integers of the chain.
  pub validate_match_iff : (m : Match F) → (validate_match m ≡ []) ↔ IsSettleable m
  unfolding validate_match
  validate_match_iff m =
      let split = append-eq-nil (check_params m) (check_price m ++ check_energy m) in
      let later = append-eq-nil (check_price m) (check_energy m) in
      (
        λ e. (
          (check_ids_iff m).0 ((check_params-IsChecked m).0 (split.0 e).0),
          (check_price_iff m).0 (later.0 (split.0 e).1).0,
          (check_energy_iff m).0 (later.0 (split.0 e).1).1,
        ),
        λ (ids, price, energy). split.1 (
          (check_params-IsChecked m).1 ((check_ids_iff m).1 ids),
          later.1 ((check_price_iff m).1 price, (check_energy_iff m).1 energy),
        ),
      )

  abbrev pub selected_sum : List (Match F) → ℤ
  selected_sum ms = sum_ℤ (map (λ m. scale m.selected_energy_kwh) ms)

  validate_matches_iff :
      (ms : List (Match F)) → (concat (map validate_match ms) ≡ []) ↔ All IsSettleable ms
  validate_matches_iff [] = (λ _. tt, λ _. refl)
  validate_matches_iff (m ∷ ms) =
      let rest = concat (map validate_match ms) in
      let split = append-eq-nil (validate_match m) rest in
      (
        λ e. ((validate_match_iff m).0 (split.0 e).0, (validate_matches_iff ms).0 (split.0 e).1),
        λ (h, hs). split.1 ((validate_match_iff m).1 h, (validate_matches_iff ms).1 hs),
      )

  -- A market is let through exactly when every match meets the validator's conditions and the
  -- selected energies add up to the traded quantity of the clearing result.
  pub validate_settlement_iff :
      (s : MarketSettlement F)
      → (validate_settlement s ≡ []) ↔ (
          All IsSettleable s.matches
          × (selected_sum s.matches ≡ scale s.clearing_result.traded_quantity_kwh))
  unfolding validate_settlement
  validate_settlement_iff s =
      let split = append-eq-nil (concat (map validate_match s.matches)) _ in
      let quantity = quantity_iff (selected_sum s.matches) _ s.market_id in
      let matches = validate_matches_iff s.matches in
      (
        λ e. (matches.0 (split.0 e).0, quantity.0 (split.0 e).1),
        λ (h, k). split.1 (matches.1 h, quantity.1 k),
      )

  scale_mono : (o : IsOrdered F) (r : IsRounded F) (x y : F) → x ≼ y → scale x ≤ℤ scale y
  unfolding scale
  scale_mono o r x y h = r.round_mono _ _ (r.mul_mono x y _ h (o.zero_le-dec 10_000 0))

  offer_settled :
      (m : Match F)
      → scale m.offer.energy_rate ≤ℤ scale m.clearing_price
      → check_standard m
        ≡ flag
            (ltb_ℤ (scale m.bid.energy_rate) (scale m.clearing_price))
            m.trade_id
            Code.price_mismatch
            Detail.bid_limit
  unfolding check_standard
  offer_settled m h = ground arith

  bid_settled :
      (m : Match F)
      → scale m.clearing_price ≤ℤ scale m.bid.energy_rate
      → check_standard m
        ≡ flag
            (ltb_ℤ (scale m.clearing_price) (scale m.offer.energy_rate))
            m.trade_id
            Code.price_mismatch
            Detail.offer_limit
  unfolding check_standard
  bid_settled m h = ground arith

  -- The pool's offer, priced at the lower bound of the band, never causes a price mismatch: at any
  -- price of at least that bound the only price check left is the buyer's limit. The pool's bid,
  -- at the upper bound, leaves only the seller's limit.
  pub pool_order_prices :
      ⦃h : Host⦄ (o : IsOrdered F) (r : IsRounded F) (m : Match F) (trade_id pool : String)
      (other : OrderParams F) (quantity rate : F)
      → m.match_type ≡ match_type_standard
      → (m.offer ≡ pool_order trade_id pool other quantity rate false
          → rate ≼ m.clearing_price
          → check_price m
            ≡ flag
                (ltb_ℤ (scale m.bid.energy_rate) (scale m.clearing_price))
                m.trade_id
                Code.price_mismatch
                Detail.bid_limit)
        × (m.bid ≡ pool_order trade_id pool other quantity rate true
            → m.clearing_price ≼ rate
            → check_price m
              ≡ flag
                  (ltb_ℤ (scale m.clearing_price) (scale m.offer.energy_rate))
                  m.trade_id
                  Code.price_mismatch
                  Detail.offer_limit)
  unfolding check_price pool_order check_standard
  pool_order_prices o r m trade_id pool other quantity rate kind = (
    λ e h. rw kind (
        offer_settled m
          (rw (ap (λ (x : OrderParams F). scale x.energy_rate) e) (scale_mono o r rate _ h))),
    λ e h. rw kind (
        bid_settled m
          (rw (ap (λ (x : OrderParams F). scale x.energy_rate) e) (scale_mono o r _ rate h))),
  )
