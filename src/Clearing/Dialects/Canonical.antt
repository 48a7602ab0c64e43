-- ===== src/Clearing/Dialects/Canonical.antt =====
-- The object that `ewds_order_to_int_order` returns is the canonical form of itself.
use ammba_uoc.Prelude.{
  ℕ, ◌≡◌, ◌>>=◌, refl, sym, ap, subst, ◌∙◌, ◌⊎◌, inl, inr, true, false, ◌||◌, some, List, [], ◌∷◌,
  All, arith, ◌==◌, bytes_eq, if◌then◌else◌, Bool-cases, Option-cases, Result, ok, Post, returns,
  Post->>=, Post->>=_eq, Post-ok,
}
use ammba_uoc.Prelude.Dict.{Dict, lookup}
use ammba_uoc.Prelude.Text.{codes, strip}
use ammba_uoc.Arith.{Arith}
use ammba_uoc.Wire.Json.{
  Json, Fields, null, bool, int, float, string, array, object, end, get, truth, or_else,
}
use ammba_uoc.Clearing.Orders.{default_to}
use ammba_uoc.Clearing.MarketIds.{Python}
use ammba_uoc.Clearing.Texts.{lowered, uppered, lowered_idem, strip_idem}
use ammba_uoc.Clearing.Dialects.{
  Printer, ewds_status_to_ontology, status_text, energy_enum, absent_energy, one_of, is_empty,
  first, energy_text, normalize_energy, str_of, to_iso, int_of, iso_text, nested_or, int_order,
  normalized, ewds_order_to_int_order,
}
use ammba_uoc.Clearing.Dialects.Aliases.{ewds_order_to_int_order-int_order}

module _ (P : List ℕ → Type 0) where
  lookup-values :
      (k : List ℕ) (d : Dict (List ℕ) (List ℕ)) (v : List ℕ)
      → All (λ e. P e.1) d
      → lookup k d ≡ some v
      → P v
  lookup-values k [] v _ found = absurd (ground arith)
  lookup-values k ((j, w) ∷ d) v (h, hs) found = elim (Bool-cases (j == k)) [
    | inl e ↦
        subst P
          (ap (λ o. default_to o w) (ap (λ b. if b then some w else lookup k d) (sym e) ∙ found)) h
    | inr e ↦ lookup-values k d v hs (ap (λ b. if b then some w else lookup k d) (sym e) ∙ found)
  ]

  one_of-All : (u : List ℕ) (xs : List (List ℕ)) → All P xs → one_of u xs ≡ true → P u
  one_of-All u [] _ h = absurd (ground arith)
  one_of-All u (x ∷ xs) (p, ps) h = elim (Bool-cases (x == u)) [
    | inl e ↦ subst P ((bytes_eq.beq_iff x u).0 e) p
    | inr e ↦ one_of-All u xs ps (ap (λ b. b || one_of u xs) (sym e) ∙ h)
  ]

-- A status that is in the table stands for itself.
status_text_idem : (raw : List ℕ) → status_text (status_text raw) ≡ status_text raw
unfolding status_text ewds_status_to_ontology
status_text_idem raw = elim (Option-cases (lookup (lowered raw) ewds_status_to_ontology)) [
  | inl e ↦ rw e (rw e refl)
  | inr (c, e) ↦ rw e (
      lookup-values (λ v. status_text v ≡ v) (lowered raw) ewds_status_to_ontology c
        (refl, (refl, (refl, (refl, (refl, (refl, (refl, (refl, (refl, (refl, tt)))))))))) e)
]

-- The text of a status is not empty.
status_text-is_empty : (raw : List ℕ) → is_empty raw ≡ false → is_empty (status_text raw) ≡ false
unfolding status_text ewds_status_to_ontology
status_text-is_empty raw h = elim (Option-cases (lookup (lowered raw) ewds_status_to_ontology)) [
  | inl e ↦ rw e h
  | inr (c, e) ↦ rw e (
      lookup-values (λ v. is_empty v ≡ false) (lowered raw) ewds_status_to_ontology c
        (refl, (refl, (refl, (refl, (refl, (refl, (refl, (refl, (refl, (refl, tt)))))))))) e)
]

module _ {F : Type 0} where
  -- The canonical texts of energy types are their own.
  energy_text_enum :
      (u : List ℕ) → one_of u energy_enum ≡ true → energy_text {F = F} (strip u) ≡ string u
  unfolding energy_text energy_enum
  energy_text_enum u h =
      one_of-All (λ v. energy_text {F = F} (strip v) ≡ string v) u energy_enum
        (refl, (refl, (refl, (refl, (refl, tt))))) h

  energy_text_idem :
      (s : List ℕ)
      → strip s ≡ s
      → (energy_text {F = F} s ≡ null)
        ⊎ ((u : List ℕ) × ((energy_text {F = F} s ≡ string u)
              × (energy_text {F = F} (strip u) ≡ string u)))
  unfolding energy_text
  energy_text_idem s stripped = elim (Bool-cases (is_empty s || one_of (uppered s) absent_energy)) [
    | inl e ↦ rw e (inl refl)
    | inr e ↦ elim (Bool-cases (one_of (uppered s) energy_enum)) [
      | inl known ↦ rw (e, known) (inr (uppered s, (refl, energy_text_enum (uppered s) known)))
      | inr unknown ↦ rw (e, unknown) (inr (s, (refl, rw (stripped, e, unknown) refl)))
    ]
  ]

  module _ ⦃p : Printer F⦄ where
    normalize_energy_text :
        (raw : List ℕ)
        → normalize_energy (energy_text (strip raw)) ≡ energy_text {F = F} (strip raw)
    unfolding normalize_energy
    normalize_energy_text raw = elim (energy_text_idem (strip raw) (strip_idem raw)) [
      | inl e ↦ rw e refl
      | inr (u, (e, e')) ↦ rw e e'
    ]

    normalize_energy_idem :
        (v : Json F) → normalize_energy (normalize_energy v) ≡ normalize_energy v
    unfolding normalize_energy
    normalize_energy_idem null = refl
    normalize_energy_idem v = normalize_energy_text (str_of v)

  module _ ⦃a : Arith F⦄ ⦃py : Python⦄ where
    iso_text_idem : (n : _) → Post (λ t. to_iso {F = F} t ≡ ok t) (iso_text {F = F} n)
    unfolding to_iso
    iso_text_idem n = Post->>= (py.unix_to_iso n) _ λ text. returns refl

    to_iso_idem : (v : Json F) → Post (λ t. to_iso t ≡ ok t) (to_iso v)
    unfolding to_iso
    to_iso_idem null = returns refl
    to_iso_idem (bool true) = iso_text_idem _
    to_iso_idem (bool false) = iso_text_idem _
    to_iso_idem (int n) = iso_text_idem n
    to_iso_idem (float x) = Post->>= (int_of x) _ λ n. iso_text_idem n
    to_iso_idem (string s) = returns refl
    to_iso_idem (array xs) = returns refl
    to_iso_idem (object d) = returns refl

module _ {F : Type 0} ⦃a : Arith F⦄ ⦃py : Python⦄ ⦃p : Printer F⦄ where
  -- Values that are canonical are kept.
  normalized_lem :
      (order_id market_id quantity price_limit created_by partner rate source energy : Json F)
      (time_slot creation_time : Json F) (order_type status : List ℕ)
      → lowered order_type ≡ order_type
      → is_empty status ≡ false
      → status_text status ≡ status
      → to_iso time_slot ≡ ok time_slot
      → to_iso creation_time ≡ ok creation_time
      → normalize_energy source ≡ source
      → normalize_energy energy ≡ energy
      → normalized order_id market_id
          (string order_type)
          (string status)
          time_slot
          quantity
          price_limit
          created_by
          creation_time
          rate
          (ok partner)
          (ok source)
          (ok energy)
        ≡ ok (
            int_order order_id market_id
              (string order_type)
              (string status)
              time_slot
              quantity
              price_limit
              created_by
              creation_time
              partner
              rate
              source
              energy)
  unfolding normalized
  normalized_lem order_id market_id quantity price_limit created_by partner rate source energy
        time_slot creation_time order_type [] low full known slot created src en =
      absurd (ground arith)
  normalized_lem order_id market_id quantity price_limit created_by partner rate source energy
        time_slot creation_time order_type (c ∷ cs) low full known slot created src en =
      λ i. do
        slot_text ← slot i
        created_text ← created i
        ok (
            int_order order_id market_id (string (low i)) (string (known i)) slot_text quantity
              price_limit created_by created_text partner rate (src i) (en i))

  truth-or_else : (v w : Json F) → truth w ≡ true → truth (or_else v w) ≡ true
  truth-or_else v w h = elim (Bool-cases (truth v)) [ inl e ↦ rw (e, e) refl | inr e ↦ rw e h ]

  module _ (printed : (v : Json F) → truth v ≡ true → is_empty (str_of v) ≡ false) where
    normalized_Canonical :
        (order_id market_id order_type order_status time_slot quantity price_limit created_by : Json
          F)
        (creation_time rate : Json F) (partner source energy : Result (Json F))
        → Post
            (λ n. ewds_order_to_int_order n ≡ ok n)
            (normalized order_id market_id order_type order_status time_slot quantity price_limit
              created_by creation_time rate partner source energy)
    unfolding normalized
    normalized_Canonical order_id market_id order_type order_status time_slot quantity price_limit
          created_by creation_time rate partner source energy =
        let raw = str_of (or_else order_status (string (codes "submitted"))) in
        Post->>= partner _ λ p'. Post->>= source _ λ s'. Post->>= energy _ λ e'.
          Post->>=_eq (to_iso time_slot) _ λ slot slot_eq.
            Post->>=_eq (to_iso creation_time) _ λ created created_eq. returns (
              ewds_order_to_int_order-int_order p' rate (normalize_energy s') (normalize_energy e')
                order_id market_id (string (lowered (str_of order_type))) (string (status_text raw))
                slot quantity price_limit created_by created
              ∙ normalized_lem order_id market_id quantity price_limit created_by p' rate
                  (normalize_energy s') (normalize_energy e') slot created
                  (lowered (str_of order_type)) (status_text raw) (lowered_idem (str_of order_type))
                  (status_text-is_empty raw (
                    printed (or_else order_status (string (codes "submitted")))
                      (truth-or_else order_status (string (codes "submitted")) refl)))
                  (status_text_idem raw) (Post-ok (to_iso_idem time_slot) slot_eq)
                  (Post-ok (to_iso_idem creation_time) created_eq) (normalize_energy_idem s')
                  (normalize_energy_idem e'))

    -- Normalization is idempotent: an order that it returns, from whichever dialect, is in the
    -- canonical form, which it returns as it is. Python's `str` of a value that counts as true is
    -- not empty.
    pub ewds_order_to_int_order_idem :
        (dto n : Fields F) → ewds_order_to_int_order dto ≡ ok n → ewds_order_to_int_order n ≡ ok n
    unfolding ewds_order_to_int_order
    ewds_order_to_int_order_idem dto n e =
        let requirements = or_else (get "requirements" dto) (object end) in
        let attributes = or_else (get "attributes" dto) (object end) in
        Post-ok
          (normalized_Canonical (first ("orderId" ∷ "order_id" ∷ []) dto)
            (first ("marketId" ∷ "market_id" ∷ []) dto)
            (first ("orderType" ∷ "order_type" ∷ []) dto)
            (first ("orderStatus" ∷ "order_status" ∷ "status" ∷ []) dto)
            (first ("timeSlot" ∷ "time_slot" ∷ []) dto)
            (first ("quantity" ∷ "energy_kWh" ∷ "energy" ∷ []) dto)
            (first ("priceLimit" ∷ "price_limit" ∷ "energy_rate" ∷ []) dto)
            (first ("createdBy" ∷ "created_by" ∷ []) dto)
            (first ("creationTime" ∷ "creation_time" ∷ "createdAt" ∷ "created_at" ∷ []) dto)
            (first ("preferredEnergyRate" ∷ "preferred_energy_rate" ∷ []) dto)
            (nested_or ("preferredTradingPartner" ∷ "preferred_trading_partner" ∷ [])
              ("tradingPartnerId" ∷ "trading_partner_id" ∷ []) requirements dto)
            (nested_or ("energySourcePreference" ∷ "energy_source_preference" ∷ [])
              ("energyType" ∷ "energy_type" ∷ []) requirements dto)
            (nested_or ("energyType" ∷ "energy_type" ∷ []) ("energyType" ∷ "energy_type" ∷ [])
              attributes dto))
          e
