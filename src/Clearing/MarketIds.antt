-- ===== src/Clearing/MarketIds.antt =====
-- amm-clearing-node/src/adapters.py, `storage_market_id`: the form of a market's id in the storage.
pub mod Forms
mod Examples
use ammba_uoc.Prelude.{
  ℕ, Bool, ◌&&◌, Option, none, some, List, ◌∷◌, length, ◌==◌, nat_eq, if◌then◌else◌, Result,
}
use ammba_uoc.Prelude.Int.{ℤ}
use ammba_uoc.Clearing.Texts.{lowered}
use ammba_uoc.Prelude.Text.{lower_code, strip}

-- Functions of Python: the texts of times, the hexadecimal digits of `uuid.UUID(text)`, where `none`
-- stands for a ValueError, and whether `int(text, 16)` is a number.
pub record Python : Type 0 where
  pub unix_to_iso : ℤ → Result (List ℕ)
  pub iso_to_unix : List ℕ → Result ℤ
  pub uuid_hex : List ℕ → Option (List ℕ)
  pub is_hex_int : List ℕ → Bool

-- `text[2:] if text.lower().startswith("0x") else text`
abbrev pub without_0x : List ℕ → List ℕ
without_0x (c ∷ d ∷ cs) = if lower_code c == b'0' && lower_code d == b'x' then cs else c ∷ d ∷ cs
without_0x cs = cs

abbrev pub with_0x : List ℕ → List ℕ
with_0x cs = b'0' ∷ b'x' ∷ cs

module _ ⦃py : Python⦄ where
  -- of a text that is no UUID
  unfoldable pub storage_hex : List ℕ → List ℕ
  storage_hex text =
      if length (without_0x text) == 32 && py.is_hex_int (without_0x text)
      then with_0x (lowered (without_0x text))
      else text

  unfoldable pub stored_form : Option (List ℕ) → List ℕ → List ℕ
  unfolding storage_hex
  stored_form (some hex) text = with_0x hex
  stored_form none text = storage_hex text

  unfoldable pub storage_market_id : List ℕ → List ℕ
  unfolding stored_form
  storage_market_id market_id = stored_form (py.uuid_hex (strip market_id)) (strip market_id)
