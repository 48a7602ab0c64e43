-- ===== src/Settlement/Validator.antt =====
-- amm-execution-node/src/validator.py: the checks of the settlement contract, run before it.
pub mod Identity
pub mod Acceptance
pub mod Batch
use ammba_uoc.Prelude.{
  ℕ, String, Bool, true, false, not, ◌&&◌, ◌||◌, Option, none, some, List, [], ◌∷◌, ◌++◌, map,
  concat, ◌==◌, nat_eq, string_eq, bytes_eq, beq_option, if◌then◌else◌, Result, ok, err,
}
use ammba_uoc.Prelude.Int.{ℤ, pos, ltb_ℤ, leb_ℤ, beq_ℤ, sum_ℤ}
use ammba_uoc.Prelude.Dict.{Dict, insert}
use ammba_uoc.Prelude.Text.{truthy, present}
use ammba_uoc.Arith.{Arith}
use ammba_uoc.Settlement.Ids.{uuid_to_bytes16}
use ammba_uoc.Settlement.Structs.{
  OrderParams, Match, MarketSettlement, scale, rate_set, match_type_preferred,
}

pub data Code : Type 0 where
  invalid_order_params price_mismatch invalid_preferred_partner energy_mismatch : Code
  traded_quantity_mismatch : Code

-- The texts of the code's `detail`, without the numbers in them.
pub data Detail : Type 0 where
  is_empty : String → Detail
  self_trade market_differs slot_differs wrong_sides : Detail
  no_partner bid_partner_differs offer_partner_differs outside_rates : Detail
  bid_limit offer_limit not_positive exceeds_bid exceeds_offer quantity_differs : Detail

pub record Violation : Type 0 where
  pub subject : String
  pub code : Code
  pub detail : Detail

-- `_bytes`
unfoldable pub bytes_of : String → Option (List ℕ)
bytes_of value = elim (uuid_to_bytes16 value) [ ok bytes ↦ some bytes | err _ ↦ none ]

-- one check: a violation if the test holds
unfoldable pub flag : Bool → String → Code → Detail → List Violation
flag test subject code detail =
    if test then record { subject = subject; code = code; detail = detail } ∷ [] else []

-- a declared partner that is not the counterparty
abbrev pub partner_differs : Option String → String → Bool
partner_differs none creator = false
partner_differs (some p) creator = truthy p && not (p == creator)

abbrev pub file_violations :
    String → List Violation → Dict String (List Violation) → Dict String (List Violation)
file_violations market_id [] result = result
file_violations market_id (v ∷ vs) result = insert market_id (v ∷ vs) result

module _ {F : Type 0} ⦃a : Arith F⦄ where
  abbrev pub rate_or : Option F → F → F
  rate_or none energy_rate = energy_rate
  rate_or (some r) energy_rate = r

  unfoldable pub effective_rate : OrderParams F → F
  effective_rate order = rate_or (rate_set order.preferred_energy_rate) order.energy_rate

  -- the checks of a `Preferred` match on partners and price
  unfoldable pub check_preferred : Match F → List Violation
  unfolding flag effective_rate
  check_preferred m =
      let price = scale m.clearing_price in
      let bid_rate = scale (effective_rate m.bid) in
      let offer_rate = scale (effective_rate m.offer) in
      let bid_partner = m.bid.preferred_trading_partner in
      let offer_partner = m.offer.preferred_trading_partner in
      flag (not (present bid_partner) && not (present offer_partner)) m.trade_id
        invalid_preferred_partner no_partner
      ++ (flag (partner_differs bid_partner m.offer.created_by) m.trade_id invalid_preferred_partner
            bid_partner_differs
          ++ (flag (partner_differs offer_partner m.bid.created_by) m.trade_id
                invalid_preferred_partner offer_partner_differs
              ++ flag
                  (ltb_ℤ bid_rate offer_rate || (ltb_ℤ bid_rate price || ltb_ℤ price offer_rate))
                  m.trade_id price_mismatch outside_rates))

  -- the price checks of a `Standard` match
  unfoldable pub check_standard : Match F → List Violation
  unfolding flag
  check_standard m =
      flag (ltb_ℤ (scale m.bid.energy_rate) (scale m.clearing_price)) m.trade_id price_mismatch
        bid_limit
      ++ flag (ltb_ℤ (scale m.clearing_price) (scale m.offer.energy_rate)) m.trade_id price_mismatch
          offer_limit

  -- empty ids, sides, market and time slot
  unfoldable pub check_params : Match F → List Violation
  unfolding flag bytes_of
  check_params m =
      let empty = λ (label value : String).
        flag (not (truthy value)) m.trade_id invalid_order_params (is_empty label) in
      empty "tradeId" m.trade_id
      ++ (empty "bid.orderId" m.bid.order_id
          ++ (empty "offer.orderId" m.offer.order_id
              ++ (empty "bid.createdBy" m.bid.created_by
                  ++ (empty "offer.createdBy" m.offer.created_by
                      ++ (flag (m.bid.created_by == m.offer.created_by) m.trade_id
                            invalid_order_params self_trade
                          ++ (flag
                                (not (
                                  beq_option (bytes_of m.bid.market_id)
                                    (bytes_of m.offer.market_id)))
                                m.trade_id invalid_order_params market_differs
                              ++ (flag (not (beq_ℤ m.bid.time_slot m.offer.time_slot)) m.trade_id
                                    invalid_order_params slot_differs
                                  ++ flag (not m.bid.is_bid || m.offer.is_bid) m.trade_id
                                      invalid_order_params wrong_sides)))))))

  -- the selected energy is positive and fits both orders
  unfoldable pub check_energy : Match F → List Violation
  unfolding flag
  check_energy m =
      let selected = scale m.selected_energy_kwh in
      flag (leb_ℤ selected (pos 0)) m.trade_id energy_mismatch not_positive
      ++ (flag (ltb_ℤ (scale m.bid.energy_kwh) selected) m.trade_id energy_mismatch exceeds_bid
          ++ flag (ltb_ℤ (scale m.offer.energy_kwh) selected) m.trade_id energy_mismatch
              exceeds_offer)

  unfoldable pub check_price : Match F → List Violation
  check_price m =
      if m.match_type == match_type_preferred then check_preferred m else check_standard m

  unfoldable pub validate_match : Match F → List Violation
  unfolding check_price
  validate_match m = check_params m ++ (check_price m ++ check_energy m)

  unfoldable pub validate_settlement : MarketSettlement F → List Violation
  unfolding flag validate_match
  validate_settlement s =
      concat (map validate_match s.matches)
      ++ flag
          (not (
            beq_ℤ (sum_ℤ (map (λ m. scale m.selected_energy_kwh) s.matches))
              (scale s.clearing_result.traded_quantity_kwh)))
          s.market_id traded_quantity_mismatch quantity_differs

  unfoldable pub validate_from :
      List (MarketSettlement F) → Dict String (List Violation) → Dict String (List Violation)
  validate_from [] result = result
  validate_from (s ∷ ss) result =
      validate_from ss (file_violations s.market_id (validate_settlement s) result)

  unfoldable pub validate_batch : List (MarketSettlement F) → Dict String (List Violation)
  unfolding validate_from
  validate_batch settlements = validate_from settlements []
