-- ===== src/Clearing/Examples.antt =====
-- The theorems of the clearing node at concrete inputs, with the numbers of `Fixed`.
use ammba_uoc.Prelude.{
  ◌↔◌, ℕ, zero, suc, ◌^◌, ◌≡◌, refl, ◌⊎◌, String, true, none, some, List, [], ◌∷◌, All, arith, ok,
  string_eq,
}
use ammba_uoc.Prelude.Int.{pos}
use ammba_uoc.Arith.{◌≼◌, nought}
use ammba_uoc.Arith.Fixed.{Fixed, fixed_arith, Fixed-IsOrdered, Fixed-IsRounded}
use ammba_uoc.Wire.{Host, IntOrder, text}
use ammba_uoc.Clearing.Orders.{Order}
use ammba_uoc.Clearing.Sigmoid.{sigmoid_price}
use ammba_uoc.Clearing.Sigmoid.Shape.{sigmoid_price_bounds, sigmoid_price_antitone}
use ammba_uoc.Clearing.Preferences.{find_mutual_preferred_pairs, apply_priority_allocation}
use ammba_uoc.Clearing.Preferences.Pairs.{is_pair, AreMutual, find_mutual_preferred_pairs_lem}
use ammba_uoc.Clearing.Preferences.Exhaustion.{
  left, AllocatedNonneg, IsExhausted, apply_priority_allocation_bounds,
  apply_priority_allocation_exhausts,
}
use ammba_uoc.Clearing.Pricing.{
  EnergyTypeMultipliers, classify_offer, compute_seller_price_adjustments,
}
use ammba_uoc.Clearing.Pricing.Bounds.{AllPrices, IsPriced, compute_seller_price_adjustments_bounds}
use ammba_uoc.Clearing.Run.{CommunityConfig, Services, run_clearing}
use ammba_uoc.Clearing.Run.Publication.{IsOrderly, run_clearing-IsOrderly, run_clearing-once}
use ammba_uoc.Clearing.Run.Prices.{IsInBand, posted, run_clearing-prices}
use ammba_uoc.Clearing.Retry.{Attempt, response, transport_error}

abbrev pub num : ℕ → Fixed
num n = fixed_arith.dec n 0

instance abbrev pub example_host : Host
example_host = record {
  uuid5 = λ namespace name. name;
  blake2b = λ s. [];
  parse_iso = λ s. ok (pos 0);
  render_iso = λ t. "2026-01-01T00:00:00Z";
}

abbrev order : String → List ℕ → String → String → String → ℕ → Order Fixed
order id kind creator partner energy_type energy = record {
  order_id = id;
  market_id = "m";
  order_type = kind;
  status = some "Open";
  created_by = creator;
  area_uuid = creator;
  time_slot = pos 0;
  creation_time = pos 0;
  energy = num energy;
  energy_rate = none;
  requirements = some (record { trading_partner_id = partner ∷ []; energy_source = [] });
  attributes = some (energy_type ∷ []);
  allocated_energy = some (num energy);
  preference_matches = [];
}

abbrev bids : List (Order Fixed)
bids = order "b1" [] "alice" "bob" "NONE" 5 ∷ []

abbrev offers : List (Order Fixed)
offers = order "o1" [] "bob" "alice" "PV" 3 ∷ order "o2" [] "carol" "dave" "GREY" 4 ∷ []

abbrev pub community : CommunityConfig Fixed
community = record {
  k_upper_ct_per_kwh = num 28;
  k_lower_ct_per_kwh = num 8;
  theta = num 1;
  steepness = num 2;
  pool_actor_uuid = "pool";
  green_subsidy_rate = fixed_arith.dec 10 2;
  grey_levy_rate = fixed_arith.dec 5 2;
  levy_cap_ct_per_kwh = num 5;
}

abbrev int_order : String → String → String → ℕ → IntOrder Fixed
int_order id kind creator energy = record {
  order_id = id;
  market_id = "m";
  order_type = kind;
  order_status = some "submitted";
  created_by = creator;
  time_slot = text "2026-01-01T00:00:00Z";
  creation_time = some (text "2026-01-01T00:00:00Z");
  created_at = none;
  quantity = num energy;
  price_limit = num 0;
  preferred_trading_partner = none;
  energy_source_preference = none;
  energy_type = some "PV";
  preferred_energy_rate = none;
}

abbrev pub services : Services Fixed
services = record {
  get_trades = λ m. ok [];
  get_orders = λ m t u. ok (int_order "b" "bid" "alice" 5 ∷ int_order "o" "offer" "bob" 3 ∷ []);
  post_trades = λ ts. ok tt;
  post_clearing_result = some (λ r. ok tt);
  validate_order = λ o. ok tt;
  validate_trade = λ t. ok tt;
  validate_clearing_result = λ r. ok tt;
  clear_market = none;
  now = pos 0;
}

abbrev multipliers : EnergyTypeMultipliers Fixed
multipliers = record {
  green_subsidy_rate = fixed_arith.dec 10 2;
  grey_levy_rate = fixed_arith.dec 5 2;
  levy_cap_ct_per_kwh = num 5;
}

bids-AllocatedNonneg : AllocatedNonneg bids
bids-AllocatedNonneg zero = refl
bids-AllocatedNonneg (suc k) = refl

offers-AllocatedNonneg : AllocatedNonneg offers
offers-AllocatedNonneg zero = refl
offers-AllocatedNonneg (suc zero) = refl
offers-AllocatedNonneg (suc (suc k)) = refl

sigmoid_price_bounds_example :
    (num 8 ≼ sigmoid_price (num 2) (num 28) (num 8) (num 1) (num 3))
    × (sigmoid_price (num 2) (num 28) (num 8) (num 1) (num 3) ≼ num 28)
sigmoid_price_bounds_example =
    sigmoid_price_bounds Fixed-IsOrdered (num 2) (num 28) (num 8) (num 1) (num 3) refl

sigmoid_price_antitone_example :
    sigmoid_price (num 3) (num 28) (num 8) (num 1) (num 3)
    ≼ sigmoid_price (num 2) (num 28) (num 8) (num 1) (num 3)
sigmoid_price_antitone_example =
    sigmoid_price_antitone Fixed-IsOrdered Fixed-IsRounded (num 2) (num 3) (num 28) (num 8) (num 1)
      (num 3) refl refl refl refl

find_mutual_preferred_pairs_example :
    (is_pair 0 0 (find_mutual_preferred_pairs bids offers) ≡ true) ↔ AreMutual bids offers 0 0
find_mutual_preferred_pairs_example = find_mutual_preferred_pairs_lem bids offers 0 0

apply_priority_allocation_bounds_example :
    (nought ≼ left (apply_priority_allocation bids offers).bids 0)
    × (left (apply_priority_allocation bids offers).bids 0 ≼ left bids 0)
    × (nought ≼ left (apply_priority_allocation bids offers).offers 0)
    × (left (apply_priority_allocation bids offers).offers 0 ≼ left offers 0)
apply_priority_allocation_bounds_example =
    apply_priority_allocation_bounds Fixed-IsOrdered Fixed-IsRounded bids offers 0
      bids-AllocatedNonneg offers-AllocatedNonneg

apply_priority_allocation_exhausts_example : IsExhausted (apply_priority_allocation bids offers) 0 0
apply_priority_allocation_exhausts_example =
    apply_priority_allocation_exhausts Fixed-IsOrdered Fixed-IsRounded bids offers 0 0
      bids-AllocatedNonneg offers-AllocatedNonneg refl

compute_seller_price_adjustments_bounds_example :
    AllPrices
      (IsPriced Fixed-IsOrdered Fixed-IsRounded offers multipliers (num 20))
      (compute_seller_price_adjustments offers (num 20) (some multipliers)).0
unfolding classify_offer
compute_seller_price_adjustments_bounds_example =
    compute_seller_price_adjustments_bounds Fixed-IsOrdered Fixed-IsRounded offers (num 20)
      multipliers (refl, refl, refl) refl refl refl

run_clearing-IsOrderly_example :
    IsOrderly services (run_clearing services community "m" "c" (pos 0) (pos 900) true).1
run_clearing-IsOrderly_example =
    run_clearing-IsOrderly services community "m" "c" (pos 0) (pos 900) true

run_clearing-once_example :
    (services.get_trades "m" ≡ ok [])
    ⊎ ((run_clearing services community "m" "c" (pos 0) (pos 900) true).1 ≡ [])
run_clearing-once_example = run_clearing-once services community "m" "c" (pos 0) (pos 900) true

run_clearing-prices_example :
    All
      (IsInBand community)
      (posted (run_clearing services community "m" "c" (pos 0) (pos 900) true).1)
run_clearing-prices_example =
    run_clearing-prices Fixed-IsOrdered Fixed-IsRounded services community "m" "c" (pos 0) (pos 900)
      true refl

abbrev flaky : ℕ → Attempt
flaky zero = response 503
flaky (suc zero) = transport_error
flaky (suc (suc n)) = response 200

doublings :
    (n : ℕ)
    → fixed_arith.mul (num 1) (fixed_arith.of_ℤ (pos (2 ^ n)))
      ≼ fixed_arith.mul (num 1) (fixed_arith.of_ℤ (pos (2 ^ n)))
doublings n = ground arith
