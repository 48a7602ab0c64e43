-- ===== src/Clearing/Orders.antt =====
-- The order dict that the clearing works on (amm-clearing-node/src/adapters.py, `internal`).
use ammba_uoc.Prelude.{ℕ, zero, suc, String, Option, none, some, List, [], ◌∷◌}
use ammba_uoc.Prelude.Int.{ℤ}

-- A dict of `preference_matches`.
pub record PreferenceMatch (F : Type 0) : Type 0 where
  pub buyer : String
  pub seller : String
  pub energy : F
  pub bid_order_id : String
  pub offer_order_id : String

-- `requirements`, where an absent list is an empty one
pub record Requirements : Type 0 where
  pub trading_partner_id : List String
  pub energy_source : List String

-- `allocated_energy` and `_preference_matches` are absent from a new order.
pub record Order (F : Type 0) : Type 0 where
  pub order_id : String
  pub market_id : String
  -- by its code points
  pub order_type : List ℕ
  pub status : Option String
  pub created_by : String
  pub area_uuid : String
  pub time_slot : ℤ
  pub creation_time : ℤ
  pub energy : F
  pub energy_rate : Option F
  pub requirements : Option Requirements
  pub attributes : Option (List String)
  pub allocated_energy : Option F
  pub preference_matches : List (PreferenceMatch F)

module _ {A : Type 0} where
  -- The element at a position, and the list with another one there.
  abbrev pub get_elem? : List A → ℕ → Option A
  get_elem? [] n = none
  get_elem? (x ∷ xs) zero = some x
  get_elem? (x ∷ xs) (suc n) = get_elem? xs n

  abbrev pub set : List A → ℕ → A → List A
  set [] n y = []
  set (x ∷ xs) zero y = y ∷ xs
  set (x ∷ xs) (suc n) y = x ∷ set xs n y

-- `d.get(key, default)`
abbrev pub default_to : {A : Type 0} → Option A → A → A
default_to none x = x
default_to (some y) x = y
