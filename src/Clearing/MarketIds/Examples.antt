-- ===== src/Clearing/MarketIds/Examples.antt =====
-- The storage's form of a UUID and of a number with prefix.
use ammba_uoc.Prelude.{
  ℕ, ◌≡◌, refl, sym, ap, subst, ◌∙◌, inl, inr, true, none, some, List, [], length, arith,
  Bool-cases, ok, ◌==◌, bytes_eq, nat_eq, if◌then◌else◌,
}
use ammba_uoc.Prelude.Int.{pos}
use ammba_uoc.Prelude.Text.{codes, rstrip}
use ammba_uoc.Clearing.Orders.{default_to}
use ammba_uoc.Clearing.Texts.{lowered, length-lowered}
use ammba_uoc.Clearing.MarketIds.{Python, with_0x, storage_market_id}
use ammba_uoc.Clearing.MarketIds.Forms.{ParsesIds, storage_market_id_idem}

abbrev uuid_text : List ℕ
uuid_text = codes "6ba7b811-9dad-11d1-80b4-00c04fd430c8"

abbrev uuid_hex : List ℕ
uuid_hex = codes "6ba7b8119dad11d180b400c04fd430c8"

-- A Python that knows one UUID.
instance abbrev example_python : Python
example_python = record {
  unix_to_iso = λ n. ok [];
  iso_to_unix = λ s. ok (pos 0);
  uuid_hex = λ s. if s == uuid_text then some uuid_hex else none;
  is_hex_int = λ s. length s == 32;
}

abbrev IsDigits : List ℕ → Type 0
IsDigits hex =
    (length hex ≡ 32)
    × ((example_python.is_hex_int hex ≡ true) × ((lowered hex ≡ hex) × (rstrip hex ≡ hex)))

known-IsDigits : (text hex : List ℕ) → example_python.uuid_hex text ≡ some hex → IsDigits hex
known-IsDigits text hex e = elim (Bool-cases (text == uuid_text)) [
  | inl known ↦
      let same : some uuid_hex ≡ some hex =
        ap (λ b. if b then some uuid_hex else none) (sym known) ∙ e in
      subst IsDigits (ap (λ o. default_to o uuid_hex) same) (refl, (refl, (refl, refl)))
  | inr other ↦ absurd (ground arith)
]

example_ParsesIds : ParsesIds
example_ParsesIds = record {
  uuid_digits = known-IsDigits;
  lower_number = λ hex h. ap (λ n. n == 32) (length-lowered hex) ∙ h;
  prefixed = λ hex n h. refl;
}

uuid_stored : storage_market_id uuid_text ≡ with_0x uuid_hex
unfolding storage_market_id
uuid_stored = refl

storage_market_id_idem_example :
    storage_market_id (storage_market_id uuid_text) ≡ storage_market_id uuid_text
storage_market_id_idem_example = storage_market_id_idem example_ParsesIds uuid_text
