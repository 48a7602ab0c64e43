-- ===== src/Clearing/Dialects.antt =====
-- amm-clearing-node/src/adapters.py, from `_first` on and at the end: the dialects of the gateway's
-- orders and markets. Texts are lists of code points.
mod Aliases
pub mod Canonical
use ammba_uoc.Prelude.{
  ℕ, String, Bool, true, false, not, ◌||◌, Option, none, some, List, [], ◌∷◌, any, ◌==◌, nat_eq,
  bytes_eq, if◌then◌else◌, Result, ok, err, value_error, overflow_error, attribute_error,
  type_error, ◌>>=◌,
}
use ammba_uoc.Prelude.Int.{ℤ, pos}
use ammba_uoc.Prelude.Dict.{Dict, lookup}
use ammba_uoc.Prelude.Text.{codes, strip}
use ammba_uoc.Arith.{Arith, abs_of}
use ammba_uoc.Wire.Json.{
  Json, Fields, null, bool, int, float, string, object, end, field, get, is_null, or_else,
}
use ammba_uoc.Clearing.MarketIds.{Python}
use ammba_uoc.Clearing.Texts.{lowered, uppered}
use ammba_uoc.Clearing.Orders.{default_to}

-- `str` of a value that is no text.
pub record Printer (F : Type 0) : Type 0 where
  pub str : Json F → List ℕ

-- The statuses of the gateway, by the ontology's.
unfoldable pub ewds_status_to_ontology : Dict (List ℕ) (List ℕ)
ewds_status_to_ontology =
    (codes "open", codes "submitted")
    ∷ (codes "submitted", codes "submitted")
    ∷ (codes "partially_filled", codes "partially_filled")
    ∷ (codes "partiallyfilled", codes "partially_filled")
    ∷ (codes "filled", codes "filled")
    ∷ (codes "cancelled", codes "cancelled")
    ∷ (codes "deleted", codes "cancelled")
    ∷ (codes "expired", codes "expired")
    ∷ (codes "rejected", codes "rejected")
    ∷ (codes "executed", codes "executed")
    ∷ []

-- `_EWDS_STATUS_TO_ONTOLOGY.get(str(raw).lower(), str(raw))`, of the text of a status
unfoldable pub status_text : List ℕ → List ℕ
unfolding ewds_status_to_ontology
status_text raw = default_to (lookup (lowered raw) ewds_status_to_ontology) raw

unfoldable pub energy_enum : List (List ℕ)
energy_enum = codes "GREEN" ∷ codes "PV" ∷ codes "HYDRO" ∷ codes "BIOMASS" ∷ codes "BATTERY" ∷ []

abbrev pub absent_energy : List (List ℕ)
absent_energy = codes "NONE" ∷ codes "NULL" ∷ []

abbrev pub one_of : List ℕ → List (List ℕ) → Bool
one_of text texts = any (λ t. t == text) texts

abbrev pub is_empty : List ℕ → Bool
is_empty [] = true
is_empty (c ∷ cs) = false

module _ {F : Type 0} where
  -- the first value among aliases that is not `None`
  unfoldable pub first : List String → Fields F → Json F
  first [] d = null
  first (k ∷ ks) d = if is_null (get k d) then first ks d else get k d

  -- `value.get`, which only a dict has
  unfoldable pub fields_of : Json F → Result (Fields F)
  fields_of (object d) = ok d
  fields_of _ = err attribute_error

  unfoldable pub first_in : List String → Json F → Result (Json F)
  unfolding first fields_of
  first_in ks value = do d ← fields_of value; ok (first ks d)

  -- a key that is set only for a value that is there
  abbrev pub optional : String → Json F → Fields F → Fields F
  optional k v rest = if is_null v then rest else field k v rest

  -- the part of a text of `_normalize_energy`, stripped
  unfoldable pub energy_text : List ℕ → Json F
  unfolding energy_enum
  energy_text text =
      if is_empty text || one_of (uppered text) absent_energy
      then null
      else if one_of (uppered text) energy_enum
      then string (uppered text)
      else string text

module _ {F : Type 0} ⦃p : Printer F⦄ where
  -- `str(value)`
  abbrev pub str_of : Json F → List ℕ
  str_of (string text) = text
  str_of value = p.str value

  unfoldable pub normalize_energy : Json F → Json F
  unfolding energy_text
  normalize_energy null = null
  normalize_energy value = energy_text (strip (str_of value))

module _ {F : Type 0} ⦃a : Arith F⦄ ⦃py : Python⦄ where
  -- `int(value)` of a float
  unfoldable pub int_of : F → Result ℤ
  int_of x =
      if not (a.le x x)
      then err value_error
      else if a.le a.inf (abs_of x)
      then err overflow_error
      else ok (a.trunc x)

  abbrev pub iso_text : ℤ → Result (Json F)
  iso_text n = do text ← py.unix_to_iso n; ok (string text)

  unfoldable pub to_iso : Json F → Result (Json F)
  unfolding int_of
  to_iso (int n) = iso_text n
  to_iso (float x) = do n ← int_of x; iso_text n
  to_iso (bool true) = iso_text (pos 1)
  to_iso (bool false) = iso_text (pos 0)
  to_iso value = ok value

  -- `int(value)` of a value that is no text
  unfoldable pub int_value : Json F → Result ℤ
  unfolding int_of
  int_value (int n) = ok n
  int_value (float x) = int_of x
  int_value (bool true) = ok (pos 1)
  int_value (bool false) = ok (pos 0)
  int_value value = err type_error

  unfoldable pub to_unix : Json F → Result (Option ℤ)
  unfolding int_value
  to_unix null = ok none
  to_unix (string text) = do n ← py.iso_to_unix text; ok (some n)
  to_unix value = do n ← int_value value; ok (some n)

module _ {F : Type 0} where
  -- the object that the function returns, from its values
  unfoldable pub int_order :
      (order_id market_id order_type order_status time_slot quantity price_limit created_by : Json
        F)
      (creation_time partner preferred_rate source_pref energy_type : Json F)
      → Fields F
  int_order order_id market_id order_type order_status time_slot quantity price_limit created_by
        creation_time partner preferred_rate source_pref energy_type =
      field "orderId" order_id (
        field "marketId" market_id (
          field "orderType" order_type (
            field "orderStatus" order_status (
              field "timeSlot" time_slot (
                field "quantity" quantity (
                  field "priceLimit" price_limit (
                    field "createdBy" created_by (
                      field "creationTime" creation_time (
                        optional "preferredTradingPartner" partner (
                          optional "preferredEnergyRate" preferred_rate (
                            optional "energySourcePreference" source_pref
                              (optional "energyType" energy_type end))))))))))))

  -- a value of the order, or one of its nested part
  unfoldable pub nested_or : List String → List String → Json F → Fields F → Result (Json F)
  unfolding first first_in
  nested_or ks inner part d = if is_null (first ks d) then first_in inner part else ok (first ks d)

module _ {F : Type 0} ⦃a : Arith F⦄ ⦃py : Python⦄ ⦃p : Printer F⦄ where
  -- the object for the values that were found under the keys of any dialect
  unfoldable pub normalized :
      (order_id market_id order_type order_status time_slot quantity price_limit created_by : Json
        F)
      (creation_time preferred_rate : Json F) (partner source_pref energy_type : Result (Json F))
      → Result (Fields F)
  unfolding status_text to_iso normalize_energy
  normalized order_id market_id order_type order_status time_slot quantity price_limit created_by
        creation_time preferred_rate found_partner found_source found_type =
      do
        let raw_status = or_else order_status (string (codes "submitted"))
        partner ← found_partner
        source_pref ← found_source
        energy_type ← found_type
        slot ← to_iso time_slot
        created ← to_iso creation_time
        ok (
            int_order order_id market_id (string (lowered (str_of order_type)))
              (string (status_text (str_of raw_status))) slot quantity price_limit created_by
              created partner preferred_rate (normalize_energy source_pref)
              (normalize_energy energy_type))

  unfoldable pub ewds_order_to_int_order : Fields F → Result (Fields F)
  unfolding first nested_or normalized int_order
  ewds_order_to_int_order dto =
      let requirements = or_else (get "requirements" dto) (object end) in
      let attributes = or_else (get "attributes" dto) (object end) in
      normalized (first ("orderId" ∷ "order_id" ∷ []) dto)
        (first ("marketId" ∷ "market_id" ∷ []) dto) (first ("orderType" ∷ "order_type" ∷ []) dto)
        (first ("orderStatus" ∷ "order_status" ∷ "status" ∷ []) dto)
        (first ("timeSlot" ∷ "time_slot" ∷ []) dto)
        (first ("quantity" ∷ "energy_kWh" ∷ "energy" ∷ []) dto)
        (first ("priceLimit" ∷ "price_limit" ∷ "energy_rate" ∷ []) dto)
        (first ("createdBy" ∷ "created_by" ∷ []) dto)
        (first ("creationTime" ∷ "creation_time" ∷ "createdAt" ∷ "created_at" ∷ []) dto)
        (first ("preferredEnergyRate" ∷ "preferred_energy_rate" ∷ []) dto)
        (nested_or ("preferredTradingPartner" ∷ "preferred_trading_partner" ∷ [])
          ("tradingPartnerId" ∷ "trading_partner_id" ∷ []) requirements dto)
        (nested_or ("energySourcePreference" ∷ "energy_source_preference" ∷ [])
          ("energyType" ∷ "energy_type" ∷ []) requirements dto)
        (nested_or ("energyType" ∷ "energy_type" ∷ []) ("energyType" ∷ "energy_type" ∷ [])
          attributes dto)

-- The internal market dict.
pub record InternalMarket (F : Type 0) : Type 0 where
  pub market_id : Json F
  pub community_id : Json F
  pub opening_time : Option ℤ
  pub closing_time : Option ℤ
  pub delivery_start_time : Option ℤ
  pub delivery_end_time : Option ℤ
  pub matching_algorithm : List ℕ

module _ {F : Type 0} ⦃a : Arith F⦄ ⦃py : Python⦄ ⦃p : Printer F⦄ where
  unfoldable pub ewds_market_to_internal : Fields F → Result (InternalMarket F)
  unfolding first to_unix
  ewds_market_to_internal dto = do
    opening_time ← to_unix (first ("openingTime" ∷ "opening_time" ∷ []) dto)
    closing_time ← to_unix (first ("closingTime" ∷ "closing_time" ∷ []) dto)
    delivery_start_time ← to_unix (first ("deliveryStartTime" ∷ "delivery_start_time" ∷ []) dto)
    delivery_end_time ← to_unix (first ("deliveryEndTime" ∷ "delivery_end_time" ∷ []) dto)
    ok (record {
      market_id = first ("marketId" ∷ "market_id" ∷ []) dto;
      community_id = first ("communityId" ∷ "community_id" ∷ []) dto;
      opening_time = opening_time;
      closing_time = closing_time;
      delivery_start_time = delivery_start_time;
      delivery_end_time = delivery_end_time;
      matching_algorithm = lowered (
          str_of
            (or_else (first ("matchingAlgorithm" ∷ "matching_algorithm" ∷ []) dto) (string [])));
    })
