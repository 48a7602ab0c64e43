-- ===== src/Clearing/MarketIds/Forms.antt =====
-- The form that `storage_market_id` gives an id is a form that it keeps.
use ammba_uoc.Prelude.{
  ℕ, ◌≡◌, refl, sym, ap, subst, ◌∙◌, inl, inr, true, false, none, some, List, [], ◌∷◌, length,
  arith, Bool-cases, Option-cases, ◌&&◌, ◌==◌, nat_eq,
}
use ammba_uoc.Prelude.Text.{lower_code, lstrip, rstrip, strip}
use ammba_uoc.Clearing.Texts.{
  lowered, lowered_idem, rstrip_idem, strip_idem, rstrip-cons, rstrip-tail, rstrip-lowered,
  length-lowered,
}
use ammba_uoc.Clearing.MarketIds.{
  Python, without_0x, with_0x, storage_hex, stored_form, storage_market_id,
}

module _ ⦃py : Python⦄ where
  -- What the code relies on of Python: the digits of a UUID are 32, lower-case and a hexadecimal
  -- number; lower case leaves a number one; and `0x` with 32 more characters of a number is no UUID.
  pub record ParsesIds : Type 0 where
    pub uuid_digits :
        (text hex : List ℕ)
        → py.uuid_hex text ≡ some hex
        → (length hex ≡ 32)
          × ((py.is_hex_int hex ≡ true) × ((lowered hex ≡ hex) × (rstrip hex ≡ hex)))
    pub lower_number :
        (hex : List ℕ) → py.is_hex_int hex ≡ true → py.is_hex_int (lowered hex) ≡ true
    pub prefixed :
        (hex : List ℕ)
        → length hex ≡ 32
        → py.is_hex_int hex ≡ true
        → py.uuid_hex (with_0x hex) ≡ none

  strip-with_0x : (hex : List ℕ) → rstrip hex ≡ hex → strip (with_0x hex) ≡ with_0x hex
  strip-with_0x hex e =
      rstrip-cons b'0' (b'x' ∷ hex) refl
      ∙ ap (◌∷◌ b'0') (rstrip-cons b'x' hex refl ∙ ap (◌∷◌ b'x') e)

  module _ (ids : ParsesIds) where
    storage_hex_number :
        (text : List ℕ)
        → length (without_0x text) ≡ 32
        → py.is_hex_int (without_0x text) ≡ true
        → storage_hex text ≡ with_0x (lowered (without_0x text))
    unfolding storage_hex
    storage_hex_number text n number = rw (n, number) refl

    storage_hex_other :
        (text : List ℕ)
        → length (without_0x text) == 32 && py.is_hex_int (without_0x text) ≡ false
        → storage_hex text ≡ text
    unfolding storage_hex
    storage_hex_other text other = rw other refl

    -- The hexadecimal form of lower-case digits is kept.
    hex_form_kept :
        (hex : List ℕ)
        → length hex ≡ 32
        → py.is_hex_int hex ≡ true
        → lowered hex ≡ hex
        → rstrip hex ≡ hex
        → storage_market_id (with_0x hex) ≡ with_0x hex
    unfolding storage_market_id
    hex_form_kept hex n number low stripped =
        ap (λ text. stored_form (py.uuid_hex text) text) (strip-with_0x hex stripped)
        ∙ ap (λ found. stored_form found (with_0x hex)) (ids.prefixed hex n number)
        ∙ storage_hex_number (with_0x hex) n number
        ∙ ap with_0x low

    -- The text of a stripped id after its prefix has nothing to strip at its end.
    rstrip-without_0x :
        (text : List ℕ) → rstrip text ≡ text → rstrip (without_0x text) ≡ without_0x text
    rstrip-without_0x [] e = e
    rstrip-without_0x (c ∷ []) e = e
    rstrip-without_0x (c ∷ d ∷ cs) e =
        elim (Bool-cases (lower_code c == b'0' && lower_code d == b'x')) [
          | inl prefix ↦ rw prefix (rstrip-tail d cs (rstrip-tail c (d ∷ cs) e))
          | inr other ↦ rw other e
        ]

    text_form_kept :
        (text : List ℕ)
        → py.uuid_hex text ≡ none
        → strip text ≡ text
        → rstrip text ≡ text
        → storage_market_id (storage_hex text) ≡ storage_hex text
    unfolding storage_market_id
    text_form_kept text e stripped ends =
        let hex = without_0x text in
        elim (Bool-cases (length hex == 32 && py.is_hex_int hex)) [
          | inl number ↦
              let n : length hex ≡ 32 = ground arith in
              let is_number : py.is_hex_int hex ≡ true = ground arith in
              subst (λ r. storage_market_id r ≡ r) (sym (storage_hex_number text n is_number))
                (hex_form_kept (lowered hex) (length-lowered hex ∙ n)
                  (ids.lower_number hex is_number) (lowered_idem hex)
                  (rstrip-lowered hex ∙ ap (λ cs. lowered cs) (rstrip-without_0x text ends)))
          | inr other ↦
              subst (λ r. storage_market_id r ≡ r) (sym (storage_hex_other text other))
                (ap (λ t. stored_form (py.uuid_hex t) t) stripped
                  ∙ ap (λ found. stored_form found text) e
                  ∙ storage_hex_other text other)
        ]

    -- Taken twice, the storage's form of a market id is that taken once, for a Python that parses ids
    -- as documented: an id that the storage gave back is sent as it is, whichever form it came from.
    pub storage_market_id_idem :
        (market_id : List ℕ)
        → storage_market_id (storage_market_id market_id) ≡ storage_market_id market_id
    unfolding storage_market_id
    storage_market_id_idem market_id = elim (Option-cases (py.uuid_hex (strip market_id))) [
      | inr (hex, e) ↦
          let (n, (number, (low, stripped))) = ids.uuid_digits (strip market_id) hex e in
          subst
            (λ r.
              storage_market_id (stored_form r (strip market_id)) ≡ stored_form r (strip market_id))
            (sym e) (hex_form_kept hex n number low stripped)
      | inl e ↦
          subst
            (λ r.
              storage_market_id (stored_form r (strip market_id)) ≡ stored_form r (strip market_id))
            (sym e)
            (text_form_kept (strip market_id) e (strip_idem market_id)
              (rstrip_idem (lstrip market_id)))
    ]
