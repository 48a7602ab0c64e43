-- ===== src/Clearing/Pricing.antt =====
-- amm-clearing-node/src/preferences.py: green subsidies and grey levies on the sellers' side.
pub mod Kinds
pub mod Bounds
use ammba_uoc.Prelude.{
  String, Bool, true, false, ◌&&◌, ◌||◌, Option, none, some, List, [], ◌∷◌, ◌++◌, map, filter, any,
  string_eq, if◌then◌else◌,
}
use ammba_uoc.Prelude.Dict.{Dict, insert}
use ammba_uoc.Arith.{Arith, min_of, sum}
use ammba_uoc.Clearing.Orders.{Order}
use ammba_uoc.Clearing.Preferences.{member, allocated}

pub record EnergyTypeMultipliers (F : Type 0) : Type 0 where
  pub green_subsidy_rate : F
  pub grey_levy_rate : F
  pub levy_cap_ct_per_kwh : F

abbrev pub green_types : List String
green_types = "GREEN" ∷ "PV" ∷ "HYDRO" ∷ "BIOMASS" ∷ "BATTERY" ∷ []

abbrev pub grey_types : List String
grey_types = "GREY" ∷ []

pub data Classification : Type 0 where
  green grey neutral : Classification

-- An entry of `adjustments`.
pub record Adjustment (F : Type 0) : Type 0 where
  pub seller_id : String
  pub order_id : String
  pub classification : Classification
  pub base_ct_per_kwh : F
  pub adjusted_ct_per_kwh : F

pub record Provenance (F : Type 0) : Type 0 where
  pub clearing_price_ct_per_kwh : F
  pub subsidy_ct_per_kwh : F
  pub levy_ct_per_kwh : F
  pub scaling_factor : F
  pub green_volume_kwh : F
  pub grey_volume_kwh : F
  pub levy_revenue_ct : F
  pub subsidy_total_ct : F
  pub pool_residual_ct : F
  pub adjustments : List (Adjustment F)

unfoldable pub classify_offer : Option (List String) → Classification
classify_offer none = neutral
classify_offer (some types) =
    if any (λ t. member t green_types) types
    then green
    else if any (λ t. member t grey_types) types
    then grey
    else neutral

abbrev pub is_green : Classification → Bool
is_green green = true
is_green _ = false

abbrev pub is_grey : Classification → Bool
is_grey grey = true
is_grey _ = false

-- The rates of the scheme, from the volumes of both sides.
pub record Scheme (F : Type 0) : Type 0 where
  pub levy_per_kwh : F
  pub levy_revenue : F
  pub scaling_factor : F
  pub subsidy_per_kwh : F
  pub subsidy_total : F

module _ {F : Type 0} ⦃a : Arith F⦄ where
  -- `if offer.get("allocated_energy", 0) <= 1e-9: continue`
  abbrev pub is_allocated : Order F → Bool
  is_allocated o = if a.le (allocated o) (a.dec 1 9) then false else true

  abbrev pub green_offers : List (Order F) → List (Order F)
  green_offers = filter λ o. is_allocated o && is_green (classify_offer o.attributes)

  abbrev pub grey_offers : List (Order F) → List (Order F)
  grey_offers = filter λ o. is_allocated o && is_grey (classify_offer o.attributes)

  abbrev pub volume : List (Order F) → F
  volume os = sum (map allocated os)

  unfoldable pub scheme :
      EnergyTypeMultipliers F → (clearing_price green_volume grey_volume : F) → Scheme F
  scheme m clearing_price green_volume grey_volume =
      let levy_per_kwh = min_of (a.mul clearing_price m.grey_levy_rate) m.levy_cap_ct_per_kwh in
      let levy_revenue = a.mul levy_per_kwh grey_volume in
      let target_subsidy_per_kwh = a.mul clearing_price m.green_subsidy_rate in
      let target_subsidy_total = a.mul target_subsidy_per_kwh green_volume in
      let scaling_factor =
        (if a.lt levy_revenue target_subsidy_total && a.lt (a.dec 0 0) target_subsidy_total
          then a.div levy_revenue target_subsidy_total
          else a.dec 1 0) in
      let subsidy_per_kwh = a.mul target_subsidy_per_kwh scaling_factor in
      record {
        levy_per_kwh = levy_per_kwh;
        levy_revenue = levy_revenue;
        scaling_factor = scaling_factor;
        subsidy_per_kwh = subsidy_per_kwh;
        subsidy_total = a.mul subsidy_per_kwh green_volume;
      }

  abbrev pub adjust : F → List (Order F) → Dict String F → Dict String F
  adjust price [] d = d
  adjust price (o ∷ os) d = adjust price os (insert o.order_id price d)

  abbrev pub adjustment : Classification → F → F → Order F → Adjustment F
  adjustment class base price o = record {
    seller_id = o.created_by;
    order_id = o.order_id;
    classification = class;
    base_ct_per_kwh = base;
    adjusted_ct_per_kwh = price;
  }

  unfoldable pub adjust_prices :
      (clearing_price green_volume grey_volume : F)
      → Scheme F
      → (greens greys : List (Order F)) → Dict String F × Option (Provenance F)
  adjust_prices clearing_price green_volume grey_volume s greens greys =
      let green_price = a.add clearing_price s.subsidy_per_kwh in
      let grey_price = a.sub clearing_price s.levy_per_kwh in
      (
        adjust grey_price greys (adjust green_price greens []),
        some (record {
          clearing_price_ct_per_kwh = clearing_price;
          subsidy_ct_per_kwh = s.subsidy_per_kwh;
          levy_ct_per_kwh = s.levy_per_kwh;
          scaling_factor = s.scaling_factor;
          green_volume_kwh = green_volume;
          grey_volume_kwh = grey_volume;
          levy_revenue_ct = s.levy_revenue;
          subsidy_total_ct = s.subsidy_total;
          pool_residual_ct = a.sub s.levy_revenue s.subsidy_total;
          adjustments =
              map (adjustment green clearing_price green_price) greens
              ++ map (adjustment grey clearing_price grey_price) greys;
        }),
      )

  unfoldable pub compute_seller_price_adjustments :
      List (Order F) → F → Option (EnergyTypeMultipliers F) → Dict String F × Option (Provenance F)
  unfolding adjust_prices scheme
  compute_seller_price_adjustments offers clearing_price none = ([], none)
  compute_seller_price_adjustments offers clearing_price (some m) =
      let green_volume = volume (green_offers offers) in
      let grey_volume = volume (grey_offers offers) in
      if a.eq m.green_subsidy_rate (a.dec 0 0) && a.eq m.grey_levy_rate (a.dec 0 0)
      then ([], none)
      else if a.le green_volume (a.dec 0 0) || a.le grey_volume (a.dec 0 0)
      then ([], none)
      else adjust_prices clearing_price green_volume grey_volume
          (scheme m clearing_price green_volume grey_volume) (green_offers offers)
          (grey_offers offers)
