-- ===== src/Clearing/Dialects/Aliases.antt =====
-- Reading back the values of the object that `ewds_order_to_int_order` returns.
use ammba_uoc.Prelude.{
  ◌≡◌, refl, sym, ap, ◌∙◌, inl, inr, String, true, false, List, [], ◌∷◌, All, arith, ◌==◌,
  string_eq, Bool-cases, ok,
}
use ammba_uoc.Arith.{Arith}
use ammba_uoc.Wire.Json.{Json, Fields, null, end, get, is_null, object, or_else}
use ammba_uoc.Clearing.Dialects.{
  first, first_in, optional, int_order, nested_or, Printer, normalized, ewds_order_to_int_order,
}
use ammba_uoc.Clearing.MarketIds.{Python}

module _ {F : Type 0} where
  null_of-is_null : (v : Json F) → is_null v ≡ true → v ≡ null
  null_of-is_null null h = refl
  null_of-is_null v h = absurd (ground arith)

  pub get-optional_other :
      (k j : String) (v : Json F) (rest : Fields F)
      → (j == k) ≡ false
      → get k (optional j v rest) ≡ get k rest
  get-optional_other k j v rest h = elim (Bool-cases (is_null v)) [
    | inl e ↦ rw e refl
    | inr e ↦ rw (e, h) refl
  ]

  pub get-optional_same :
      (k : String) (v : Json F) (rest : Fields F)
      → (k == k) ≡ true
      → get k rest ≡ null
      → get k (optional k v rest) ≡ v
  get-optional_same k v rest same h = elim (Bool-cases (is_null v)) [
    | inl e ↦ rw (e, h) (sym (null_of-is_null v e))
    | inr e ↦ rw (e, same) refl
  ]

  pub first_null :
      (ks : List String) (d : Fields F) → All (λ j. get j d ≡ null) ks → first ks d ≡ null
  unfolding first
  first_null [] d h = refl
  first_null (k ∷ ks) d (h, hs) = rw (h) (first_null ks d hs)

  pub first_lem :
      (k : String) (ks : List String) (d : Fields F) (v : Json F)
      → get k d ≡ v
      → All (λ j. get j d ≡ null) ks
      → first (k ∷ ks) d ≡ v
  unfolding first
  first_lem k ks d v h none_else = elim (Bool-cases (is_null v)) [
    | inl e ↦ rw (h, e) (first_null ks d none_else ∙ sym (null_of-is_null v e))
    | inr e ↦ rw (h, e) refl
  ]

module _ {F : Type 0} where
  pub nested_or_lem :
      (ks inner : List String) (part : Json F) (d : Fields F) (v : Json F)
      → first ks d ≡ v
      → first_in inner part ≡ ok null
      → nested_or ks inner part d ≡ ok v
  unfolding nested_or
  nested_or_lem ks inner part d v h k = elim (Bool-cases (is_null v)) [
    | inl e ↦ rw (h, e, k) (ap ok (sym (null_of-is_null v e)))
    | inr e ↦ rw (h, e) refl
  ]

-- The part of the object whose keys may be absent.
module _ {F : Type 0} (partner rate source energy : Json F) where
  abbrev tail : Fields F
  tail = optional "preferredTradingPartner" partner (
      optional "preferredEnergyRate" rate
        (optional "energySourcePreference" source (optional "energyType" energy end)))

  abbrev IsOther : String → Type 0
  IsOther k =
      (("preferredTradingPartner" == k) ≡ false)
      × ((("preferredEnergyRate" == k) ≡ false)
          × ((("energySourcePreference" == k) ≡ false) × (("energyType" == k) ≡ false)))

  get-tail_other : (k : String) → IsOther k → get k tail ≡ null
  get-tail_other k (a, (b, (c, d))) =
      get-optional_other k _ partner _ a
      ∙ get-optional_other k _ rate _ b
      ∙ get-optional_other k _ source _ c
      ∙ get-optional_other k _ energy end d

  get-tail_partner : get "preferredTradingPartner" tail ≡ partner
  get-tail_partner = get-optional_same _ partner _ refl (
      get-optional_other _ _ rate _ refl
      ∙ get-optional_other _ _ source _ refl
      ∙ get-optional_other _ _ energy end refl)

  get-tail_rate : get "preferredEnergyRate" tail ≡ rate
  get-tail_rate =
      get-optional_other _ _ partner _ refl
      ∙ get-optional_same _ rate _ refl
          (get-optional_other _ _ source _ refl ∙ get-optional_other _ _ energy end refl)

  get-tail_source : get "energySourcePreference" tail ≡ source
  get-tail_source =
      get-optional_other _ _ partner _ refl
      ∙ get-optional_other _ _ rate _ refl
      ∙ get-optional_same _ source _ refl (get-optional_other _ _ energy end refl)

  get-tail_energy : get "energyType" tail ≡ energy
  get-tail_energy =
      get-optional_other _ _ partner _ refl
      ∙ get-optional_other _ _ rate _ refl
      ∙ get-optional_other _ _ source _ refl
      ∙ get-optional_same _ energy end refl refl

  module _ (order_id market_id order_type order_status time_slot quantity price_limit : Json F)
      (created_by creation_time : Json F) where
    abbrev whole : Fields F
    whole =
        int_order order_id market_id order_type order_status time_slot quantity price_limit
          created_by creation_time partner rate source energy

    -- Each value is what the aliases of its key give.
    pub first-int_order_id : first ("orderId" ∷ "order_id" ∷ []) whole ≡ order_id
    unfolding int_order
    first-int_order_id =
        first_lem _ _ whole order_id refl (get-tail_other _ (refl, (refl, (refl, refl))), tt)

    pub first-int_order_market : first ("marketId" ∷ "market_id" ∷ []) whole ≡ market_id
    unfolding int_order
    first-int_order_market =
        first_lem _ _ whole market_id refl (get-tail_other _ (refl, (refl, (refl, refl))), tt)

    pub first-int_order_type : first ("orderType" ∷ "order_type" ∷ []) whole ≡ order_type
    unfolding int_order
    first-int_order_type =
        first_lem _ _ whole order_type refl (get-tail_other _ (refl, (refl, (refl, refl))), tt)

    pub first-int_order_status :
        first ("orderStatus" ∷ "order_status" ∷ "status" ∷ []) whole ≡ order_status
    unfolding int_order
    first-int_order_status = first_lem _ _ whole order_status refl (
      get-tail_other _ (refl, (refl, (refl, refl))),
      (get-tail_other _ (refl, (refl, (refl, refl))), tt),
    )

    pub first-int_order_slot : first ("timeSlot" ∷ "time_slot" ∷ []) whole ≡ time_slot
    unfolding int_order
    first-int_order_slot =
        first_lem _ _ whole time_slot refl (get-tail_other _ (refl, (refl, (refl, refl))), tt)

    pub first-int_order_quantity :
        first ("quantity" ∷ "energy_kWh" ∷ "energy" ∷ []) whole ≡ quantity
    unfolding int_order
    first-int_order_quantity = first_lem _ _ whole quantity refl (
      get-tail_other _ (refl, (refl, (refl, refl))),
      (get-tail_other _ (refl, (refl, (refl, refl))), tt),
    )

    pub first-int_order_limit :
        first ("priceLimit" ∷ "price_limit" ∷ "energy_rate" ∷ []) whole ≡ price_limit
    unfolding int_order
    first-int_order_limit = first_lem _ _ whole price_limit refl (
      get-tail_other _ (refl, (refl, (refl, refl))),
      (get-tail_other _ (refl, (refl, (refl, refl))), tt),
    )

    pub first-int_order_creator : first ("createdBy" ∷ "created_by" ∷ []) whole ≡ created_by
    unfolding int_order
    first-int_order_creator =
        first_lem _ _ whole created_by refl (get-tail_other _ (refl, (refl, (refl, refl))), tt)

    pub first-int_order_creation :
        first ("creationTime" ∷ "creation_time" ∷ "createdAt" ∷ "created_at" ∷ []) whole
        ≡ creation_time
    unfolding int_order
    first-int_order_creation = first_lem _ _ whole creation_time refl (
      get-tail_other _ (refl, (refl, (refl, refl))),
      (
        get-tail_other _ (refl, (refl, (refl, refl))),
        (get-tail_other _ (refl, (refl, (refl, refl))), tt),
      ),
    )

    pub first-int_order_partner :
        first ("preferredTradingPartner" ∷ "preferred_trading_partner" ∷ []) whole ≡ partner
    unfolding int_order
    first-int_order_partner =
        first_lem _ _ whole partner get-tail_partner
          (get-tail_other _ (refl, (refl, (refl, refl))), tt)

    pub first-int_order_rate :
        first ("preferredEnergyRate" ∷ "preferred_energy_rate" ∷ []) whole ≡ rate
    unfolding int_order
    first-int_order_rate =
        first_lem _ _ whole rate get-tail_rate (get-tail_other _ (refl, (refl, (refl, refl))), tt)

    pub first-int_order_source :
        first ("energySourcePreference" ∷ "energy_source_preference" ∷ []) whole ≡ source
    unfolding int_order
    first-int_order_source =
        first_lem _ _ whole source get-tail_source
          (get-tail_other _ (refl, (refl, (refl, refl))), tt)

    pub first-int_order_energy : first ("energyType" ∷ "energy_type" ∷ []) whole ≡ energy
    unfolding int_order
    first-int_order_energy =
        first_lem _ _ whole energy get-tail_energy
          (get-tail_other _ (refl, (refl, (refl, refl))), tt)

    pub get-int_order_requirements : get "requirements" whole ≡ null
    unfolding int_order
    get-int_order_requirements = get-tail_other _ (refl, (refl, (refl, refl)))

    pub get-int_order_attributes : get "attributes" whole ≡ null
    unfolding int_order
    get-int_order_attributes = get-tail_other _ (refl, (refl, (refl, refl)))

    module _ ⦃a : Arith F⦄ ⦃py : Python⦄ ⦃p : Printer F⦄ where
      nested_or-int_order_partner :
          nested_or
            ("preferredTradingPartner" ∷ "preferred_trading_partner" ∷ [])
            ("tradingPartnerId" ∷ "trading_partner_id" ∷ [])
            (or_else (get "requirements" whole) (object end))
            whole
          ≡ ok partner
      unfolding first_in
      nested_or-int_order_partner =
          nested_or_lem ("preferredTradingPartner" ∷ "preferred_trading_partner" ∷ [])
            ("tradingPartnerId" ∷ "trading_partner_id" ∷ []) _ whole partner first-int_order_partner
            (ap
              (λ part.
                first_in ("tradingPartnerId" ∷ "trading_partner_id" ∷ [])
                  (or_else part (object end)))
              get-int_order_requirements)

      nested_or-int_order_source :
          nested_or
            ("energySourcePreference" ∷ "energy_source_preference" ∷ [])
            ("energyType" ∷ "energy_type" ∷ [])
            (or_else (get "requirements" whole) (object end))
            whole
          ≡ ok source
      unfolding first_in
      nested_or-int_order_source =
          nested_or_lem ("energySourcePreference" ∷ "energy_source_preference" ∷ [])
            ("energyType" ∷ "energy_type" ∷ []) _ whole source first-int_order_source
            (ap (λ part. first_in ("energyType" ∷ "energy_type" ∷ []) (or_else part (object end)))
              get-int_order_requirements)

      nested_or-int_order_energy :
          nested_or
            ("energyType" ∷ "energy_type" ∷ [])
            ("energyType" ∷ "energy_type" ∷ [])
            (or_else (get "attributes" whole) (object end))
            whole
          ≡ ok energy
      unfolding first_in
      nested_or-int_order_energy =
          nested_or_lem ("energyType" ∷ "energy_type" ∷ []) ("energyType" ∷ "energy_type" ∷ []) _
            whole energy first-int_order_energy
            (ap (λ part. first_in ("energyType" ∷ "energy_type" ∷ []) (or_else part (object end)))
              get-int_order_attributes)

      -- The object that the function returns is read back value by value.
      pub ewds_order_to_int_order-int_order :
          ewds_order_to_int_order whole
          ≡ normalized order_id market_id order_type order_status time_slot quantity price_limit
              created_by creation_time rate
              (ok partner)
              (ok source)
              (ok energy)
      unfolding ewds_order_to_int_order
      ewds_order_to_int_order-int_order = λ i.
          normalized (first-int_order_id i) (first-int_order_market i) (first-int_order_type i)
            (first-int_order_status i) (first-int_order_slot i) (first-int_order_quantity i)
            (first-int_order_limit i) (first-int_order_creator i) (first-int_order_creation i)
            (first-int_order_rate i) (nested_or-int_order_partner i) (nested_or-int_order_source i)
            (nested_or-int_order_energy i)
