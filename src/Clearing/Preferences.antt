-- ===== src/Clearing/Preferences.antt =====
-- amm-clearing-node/src/preferences.py: priority for mutual partners, and the seller-side prices.
pub mod Pairs
pub mod Exhaustion
use ammba_uoc.Prelude.{
  ℕ, suc, String, Bool, true, false, ◌&&◌, ◌||◌, Option, none, some, List, [], ◌∷◌, ◌++◌, map,
  filter, any, ◌==◌, string_eq, if◌then◌else◌,
}
use ammba_uoc.Prelude.Dict.{Dict, insert}
use ammba_uoc.Arith.{Arith, min_of, sum}
use ammba_uoc.Clearing.Orders.{PreferenceMatch, Requirements, Order, get_elem?, set, default_to}

abbrev pub member : String → List String → Bool
member x = any λ y. y == x

-- `(requirements or {}).get("trading_partner_id") or []`
abbrev pub partners_of : Option Requirements → List String
partners_of none = []
partners_of (some r) = r.trading_partner_id

module _ {F : Type 0} where
  abbrev pub partners : Order F → List String
  partners o = partners_of o.requirements

  abbrev pub is_mutual : Order F → Order F → Bool
  is_mutual bid offer =
      member offer.created_by (partners bid) && member bid.created_by (partners offer)

  -- The inner loop. A pair refers to its orders by their positions, since the code keeps references
  -- to the dicts that it later changes. A bid without partners wants no seller.
  unfoldable pub pairs_with : ℕ → Order F → ℕ → List (Order F) → List (ℕ × ℕ)
  pairs_with i bid j [] = []
  pairs_with i bid j (offer ∷ offers) =
      if is_mutual bid offer
      then (i, j) ∷ pairs_with i bid (suc j) offers
      else pairs_with i bid (suc j) offers

  unfoldable pub pairs_from : ℕ → List (Order F) → List (Order F) → List (ℕ × ℕ)
  pairs_from i [] offers = []
  pairs_from i (bid ∷ bids) offers = pairs_with i bid 0 offers ++ pairs_from (suc i) bids offers

  unfoldable pub find_mutual_preferred_pairs : List (Order F) → List (Order F) → List (ℕ × ℕ)
  unfolding pairs_from
  find_mutual_preferred_pairs bids offers = pairs_from 0 bids offers

abbrev pub declares : Option Requirements → Option (List String) → Bool
declares none none = false
declares _ _ = true

-- What the allocation changes: the dicts of both sides, and the matches so far.
pub record Allocation (F : Type 0) : Type 0 where
  pub bids : List (Order F)
  pub offers : List (Order F)
  pub matches : List (PreferenceMatch F)

module _ {F : Type 0} ⦃a : Arith F⦄ where
  abbrev pub allocated : Order F → F
  allocated o = default_to o.allocated_energy (a.dec 0 0)

  abbrev pub deduct : F → Order F → Order F
  deduct energy o = record o { allocated_energy = some (a.sub (allocated o) energy) }

  unfoldable pub match_pair : ℕ → ℕ → Order F → Order F → Allocation F → Allocation F
  match_pair i j bid offer s =
      let available_bid = allocated bid in
      let available_offer = allocated offer in
      if a.le available_bid (a.dec 0 0) || a.le available_offer (a.dec 0 0)
      then s
      else let match_energy = min_of available_bid available_offer in
        (record {
          bids = set s.bids i (deduct match_energy bid);
          offers = set s.offers j (deduct match_energy offer);
          matches =
              s.matches
              ++ ((record {
                buyer = bid.created_by;
                seller = offer.created_by;
                energy = match_energy;
                bid_order_id = bid.order_id;
                offer_order_id = offer.order_id;
              })
                  ∷ []);
        })

  -- a position outside of the lists does not occur
  unfoldable pub match_at :
      ℕ → ℕ → Option (Order F) → Option (Order F) → Allocation F → Allocation F
  unfolding match_pair
  match_at i j (some bid) (some offer) s = match_pair i j bid offer s
  match_at i j _ _ s = s

  unfoldable pub match_pairs : List (ℕ × ℕ) → Allocation F → Allocation F
  match_pairs [] s = s
  match_pairs ((i, j) ∷ ps) s =
      match_pairs ps (match_at i j (get_elem? s.bids i) (get_elem? s.offers j) s)

  unfoldable pub apply_priority_allocation : List (Order F) → List (Order F) → Allocation F
  apply_priority_allocation bids offers =
      match_pairs (find_mutual_preferred_pairs bids offers)
        (record { bids = bids; offers = offers; matches = [] })

  abbrev pub has_preferences : List (Order F) → Bool
  has_preferences = any λ o. declares o.requirements o.attributes

  abbrev pub attach : List (PreferenceMatch F) → Order F → Order F
  attach matches bid = record bid {
    preference_matches = filter (λ m. m.bid_order_id == bid.order_id) matches;
  }

  unfoldable pub attach_all : List (PreferenceMatch F) → List (Order F) → List (Order F)
  attach_all [] bids = bids
  attach_all (m ∷ ms) bids = map (attach (m ∷ ms)) bids

  unfoldable pub apply_preference_allocation :
      List (Order F) → List (Order F) → List (Order F) × List (Order F)
  unfolding attach_all
  apply_preference_allocation bids offers =
      let s = apply_priority_allocation bids offers in
      if has_preferences (bids ++ offers)
      then (attach_all s.matches s.bids, s.offers)
      else (bids, offers)
