-- ===== src/Clearing/Pricing/Bounds.antt =====
-- The prices that the sellers' scheme sets stay in their bounds.
use ammba_uoc.Prelude.{
  refl, sym, subst, Any, Any-of, All, All-Any, All-zip, All-mono, All-filter, filter-All, String,
  ◌≡◌, ◌⊎◌, inl, inr, true, ◌&&◌, ◌||◌, some, List, [], ◌∷◌, arith, Bool-cases, ◌==◌, string_eq,
}
use ammba_uoc.Prelude.Dict.{Dict, insert}
use ammba_uoc.Arith.{Arith, ◌≼◌, nought, unit, min_of, IsOrdered, IsRounded}
use ammba_uoc.Arith.Facts
use ammba_uoc.Clearing.Orders.{Order}
use ammba_uoc.Clearing.Pricing.Kinds.{Names, is_green-Names, is_grey-Names}
use ammba_uoc.Clearing.Pricing.{
  EnergyTypeMultipliers, scheme, adjust, adjust_prices, compute_seller_price_adjustments, volume,
  green_offers, grey_offers, is_allocated, is_green, is_grey, green_types, grey_types,
  classify_offer,
}

module _ {F : Type 0} ⦃a : Arith F⦄ where
  -- The entries of a dict of prices satisfy a predicate.
  abbrev pub AllPrices : (String → F → Type 0) → Dict String F → Type 0
  AllPrices P [] = Unit
  AllPrices P ((k, x) ∷ d) = P k x × AllPrices P d

  insert-AllPrices :
      (P : String → F → Type 0) (k : String) (x : F) (d : Dict String F)
      → P k x
      → AllPrices P d
      → AllPrices P (insert k x d)
  insert-AllPrices P k x [] p _ = (p, tt)
  insert-AllPrices P k x ((k', y) ∷ d) p (q, qs) = elim (Bool-cases (k' == k)) [
    | inl same ↦ rw same (subst (λ n. P n x) (sym ((string_eq.beq_iff k' k).0 same)) p, qs)
    | inr other ↦ rw other (q, insert-AllPrices P k x d p qs)
  ]

  adjust-AllPrices :
      (P : String → F → Type 0) (x : F) (os : List (Order F)) (d : Dict String F)
      → All (λ o. P o.order_id x) os
      → AllPrices P d
      → AllPrices P (adjust x os d)
  adjust-AllPrices P x [] d _ q = q
  adjust-AllPrices P x (o ∷ os) d (p, ps) q =
      adjust-AllPrices P x os _ ps (insert-AllPrices P o.order_id x d p q)

  -- Multipliers that are not negative.
  abbrev pub AreRates : EnergyTypeMultipliers F → Type 0
  AreRates m =
      (nought ≼ m.green_subsidy_rate)
      × (nought ≼ m.grey_levy_rate)
      × (nought ≼ m.levy_cap_ct_per_kwh)

  module _ (o : IsOrdered F) (r : IsRounded F) where
    open o use {le_trans, num_of_le}
    open r use {
      mul_mono, mul_mono_right, mul_zero_left, mul_one_left, mul_one_right, div_nonneg, div_le_one,
      le_add_right, sub_le, add_mono_right, sub_antitone,
    }

    mul_nonneg : (x y : F) → nought ≼ x → nought ≼ y → nought ≼ a.mul x y
    mul_nonneg x y p q =
        le_trans nought (a.mul nought y) (a.mul x y) (mul_zero_left y (num_of_le nought y q).1).1
          (mul_mono nought x y p q)

    -- The levy per kWh is not negative and at most the cap, and the factor that scales the subsidy
    -- lies between zero and one, and the subsidy is at most its target, for a price, rates and volumes that are not negative.
    pub scheme_bounds :
        (m : EnergyTypeMultipliers F) (clearing_price green_volume grey_volume : F)
        → AreRates m
        → nought ≼ clearing_price
        → nought ≼ green_volume
        → nought ≼ grey_volume
        → let s = scheme m clearing_price green_volume grey_volume in
          (nought ≼ s.levy_per_kwh)
          × (s.levy_per_kwh ≼ m.levy_cap_ct_per_kwh)
          × (nought ≼ s.scaling_factor)
          × (s.scaling_factor ≼ unit)
          × (nought ≼ s.subsidy_per_kwh)
          × (s.subsidy_per_kwh ≼ a.mul clearing_price m.green_subsidy_rate)
    unfolding scheme
    scheme_bounds m price green_volume grey_volume (g, l, c) p v w =
        let raw = a.mul price m.grey_levy_rate in
        let pr = mul_nonneg price m.grey_levy_rate p l in
        let levy = min_of raw m.levy_cap_ct_per_kwh in
        let pl : nought ≼ levy = Facts.le-min_of o raw m.levy_cap_ct_per_kwh nought pr c in
        let revenue = a.mul levy grey_volume in
        let target = a.mul price m.green_subsidy_rate in
        let total = a.mul target green_volume in
        let pt = mul_nonneg price m.green_subsidy_rate p g in
        let nt = (num_of_le nought target pt).1 in
        let capped =
          Facts.min_of-le_right o raw m.levy_cap_ct_per_kwh (num_of_le _ _ pr).1
            (num_of_le _ _ c).1 in
        elim (Bool-cases (a.lt revenue total && a.lt nought total)) [
          | inl scaled ↦
              let less : a.lt revenue total ≡ true = ground arith in
              let some_target : a.lt nought total ≡ true = ground arith in
              let f = div_nonneg revenue total (mul_nonneg levy grey_volume pl w) some_target in
              let below =
                div_le_one revenue total (Facts.le_of_lt o revenue total less) some_target in
              rw scaled (
                pl,
                capped,
                f,
                below,
                mul_nonneg target _ pt f,
                le_trans _ (a.mul target unit) target (mul_mono_right _ unit target below pt)
                    (mul_one_right target nt).0,
              )
          | inr full ↦
              let f = Facts.le_of_lt o nought unit o.zero_lt_one in
              rw full (
                pl,
                capped,
                f,
                Facts.one_num o,
                mul_nonneg target unit pt f,
                (mul_one_right target nt).0,
              )
        ]

    -- The price of an order id: an offer with this id has energy allocated, and if one of its types is
    -- green the price is the clearing price plus a subsidy within the rate, and if one is grey and none
    -- is green it is the clearing price less a levy within the cap.
    abbrev pub IsPriced : List (Order F) → EnergyTypeMultipliers F → F → String → F → Type 0
    IsPriced offers m clearing_price order_id x =
        Any
          (λ offer.
            (offer.order_id ≡ order_id)
            × ((is_allocated offer ≡ true)
                × ((Names green_types offer.attributes
                      × ((clearing_price ≼ x)
                          × (x ≼ a.add clearing_price (a.mul clearing_price m.green_subsidy_rate))))
                    ⊎ (Names grey_types offer.attributes
                        × ((¬ Names green_types offer.attributes)
                            × ((a.sub clearing_price m.levy_cap_ct_per_kwh ≼ x)
                                × (x ≼ clearing_price)))))))
          offers

    green-IsPriced :
        (offers : List (Order F)) (m : EnergyTypeMultipliers F) (p x : F)
        → p ≼ x
        → x ≼ a.add p (a.mul p m.green_subsidy_rate)
        → All (λ offer. IsPriced offers m p offer.order_id x) (green_offers offers)
    green-IsPriced offers m p x low high =
        All-mono _ _ _
          (λ offer (here, kept). Any-of _ offer offers here (
            refl,
            (
              ground (arith, kept),
              inl (is_green-Names offer.attributes (ground (arith, kept)), (low, high)),
            ),
          ))
          (All-zip _ _ (green_offers offers) (All-filter _ _ offers (All-Any offers))
            (filter-All (λ o. is_allocated o && is_green (classify_offer o.attributes)) offers))

    grey-IsPriced :
        (offers : List (Order F)) (m : EnergyTypeMultipliers F) (p x : F)
        → a.sub p m.levy_cap_ct_per_kwh ≼ x
        → x ≼ p
        → All (λ offer. IsPriced offers m p offer.order_id x) (grey_offers offers)
    grey-IsPriced offers m p x low high =
        All-mono _ _ _
          (λ offer (here, kept). Any-of _ offer offers here (
            refl,
            (
              ground (arith, kept),
              inr (
                (is_grey-Names offer.attributes (ground (arith, kept))).0,
                ((is_grey-Names offer.attributes (ground (arith, kept))).1, (low, high)),
              ),
            ),
          ))
          (All-zip _ _ (grey_offers offers) (All-filter _ _ offers (All-Any offers))
            (filter-All (λ o. is_allocated o && is_grey (classify_offer o.attributes)) offers))

    -- For rates and a clearing price that are not negative, and volumes that are numbers, every price
    -- that the scheme sets is for the id of an allocated offer. If one of its types is green, the
    -- price lies between the clearing price and that plus the whole subsidy rate; if one is grey and
    -- none is green, it lies between the clearing price less the levy cap and the clearing price.
    pub compute_seller_price_adjustments_bounds :
        (offers : List (Order F)) (clearing_price : F) (m : EnergyTypeMultipliers F)
        → AreRates m
        → nought ≼ clearing_price
        → volume (green_offers offers) ≼ volume (green_offers offers)
        → volume (grey_offers offers) ≼ volume (grey_offers offers)
        → AllPrices
            (IsPriced offers m clearing_price)
            (compute_seller_price_adjustments offers clearing_price (some m)).0
    unfolding compute_seller_price_adjustments adjust_prices
    compute_seller_price_adjustments_bounds offers price m rates p nv nw =
        let v = volume (green_offers offers) in
        let w = volume (grey_offers offers) in
        let z = Facts.zero_num o in
        let np = (num_of_le nought price p).1 in
        elim (Bool-cases (a.eq m.green_subsidy_rate nought && a.eq m.grey_levy_rate nought)) [
          | inl unset ↦ rw unset tt
          | inr rated ↦ elim (Bool-cases (a.le v nought || a.le w nought)) [
            | inl one_sided ↦ rw (rated, one_sided) tt
            | inr both ↦
                let pv : nought ≼ v = ground (arith, Facts.le_of_not-le o v nought nv z) in
                let pw : nought ≼ w = ground (arith, Facts.le_of_not-le o w nought nw z) in
                let (pl, capped, _, _, ps, subsidized) = scheme_bounds m price v w rates p pv pw in
                rw (rated, both)
                  (adjust-AllPrices (IsPriced offers m price) _ (grey_offers offers) _
                    (grey-IsPriced offers m price _
                      (sub_antitone _ m.levy_cap_ct_per_kwh price np capped) (sub_le price _ np pl))
                    (adjust-AllPrices (IsPriced offers m price) _ (green_offers offers) []
                      (green-IsPriced offers m price _ (le_add_right price _ np ps)
                        (add_mono_right _ _ price np subsidized))
                      tt))
          ]
        ]
