-- ===== src/Clearing/Contract/Encoding.antt =====
-- Which market ids `clearMarket` gets, for the ids of the storage.
use ammba_uoc.Prelude.{
  ℕ, ◌/◌, ◌%◌, ◌≤◌, ◌<◌, ◌≡◌, refl, ap, ◌∙◌, Option, ◌>>=◌, or_raise, none, some, List, [], ◌∷◌,
  All, arith, ok, err, value_error, nat_eq,
}
use ammba_uoc.Settlement.Ids.{hex_digit, from_hex, to_hex, bytes16_to_hex}
use ammba_uoc.Settlement.Ids.Roundtrip.{hex_digit_lem, from_hex-to_hex}
use ammba_uoc.Clearing.Contract.{lstrip_0x, ljust, market_id_bytes}

-- An odd number of hexadecimal digits is refused.
from_hex_odd :
    (d : ℕ) (bs : List ℕ)
    → d < 16
    → All (λ b. b < 256) bs
    → from_hex (hex_digit d ∷ to_hex bs) ≡ none
unfolding from_hex to_hex
from_hex_odd d [] h _ = ground (arith, hex_digit_lem d)
from_hex_odd d (b ∷ bs) h (hb, hs) =
    ground (arith, hex_digit_lem d, hex_digit_lem (b / 16), from_hex_odd (b % 16) bs)

lstrip_0x_digit :
    (d : ℕ) (cs : List ℕ) → 0 < d → d < 16 → lstrip_0x (hex_digit d ∷ cs) ≡ hex_digit d ∷ cs
unfolding lstrip_0x
lstrip_0x_digit d cs above below = ground arith

lstrip_0x_zero : (cs : List ℕ) → lstrip_0x (hex_digit 0 ∷ cs) ≡ lstrip_0x cs
unfolding lstrip_0x
lstrip_0x_zero cs = refl

lstrip_0x_prefix : (cs : List ℕ) → lstrip_0x (b'0' ∷ b'x' ∷ cs) ≡ lstrip_0x cs
unfolding lstrip_0x
lstrip_0x_prefix cs = refl

-- What is left of an id for the conversion from hexadecimal digits.
market_id_bytes_of :
    (text digits : List ℕ) (result : Option (List ℕ))
    → lstrip_0x text ≡ digits
    → from_hex digits ≡ result
    → market_id_bytes text ≡ (do bytes ← or_raise result value_error; ok (ljust bytes))
unfolding market_id_bytes
market_id_bytes_of text digits result e h =
    λ i. do bytes ← or_raise ((ap from_hex e ∙ h) i) value_error; ok (ljust bytes)

-- The id of the storage for bytes of which the first is at least 16 reaches the contract as these
-- bytes, padded with zeros to 32.
pub market_id_bytes-bytes16_to_hex :
    (b : ℕ) (bs : List ℕ)
    → 16 ≤ b
    → All (λ c. c < 256) (b ∷ bs)
    → market_id_bytes (bytes16_to_hex (b ∷ bs)) ≡ ok (ljust (b ∷ bs))
unfolding bytes16_to_hex to_hex
market_id_bytes-bytes16_to_hex b bs big (hb, hs) =
    market_id_bytes_of (bytes16_to_hex (b ∷ bs)) (to_hex (b ∷ bs)) (some (b ∷ bs))
      (lstrip_0x_prefix (to_hex (b ∷ bs)) ∙ lstrip_0x_digit (b / 16) _ (omega arith) (omega arith))
      (from_hex-to_hex (b ∷ bs) (hb, hs))

-- An id whose first byte is between 1 and 15 is refused: its leading zero is stripped with the prefix,
-- and an odd number of digits is left.
pub market_id_bytes_small :
    (b : ℕ) (bs : List ℕ)
    → 0 < b
    → b < 16
    → All (λ c. c < 256) bs
    → market_id_bytes (bytes16_to_hex (b ∷ bs)) ≡ err value_error
unfolding bytes16_to_hex to_hex
market_id_bytes_small b bs above small hs =
    let low : b / 16 ≡ 0 = omega arith in
    let same : b % 16 ≡ b = omega arith in
    market_id_bytes_of (bytes16_to_hex (b ∷ bs)) (hex_digit b ∷ to_hex bs) none
      (lstrip_0x_prefix (to_hex (b ∷ bs))
        ∙ ap (λ d. lstrip_0x (hex_digit d ∷ hex_digit (b % 16) ∷ to_hex bs)) low
        ∙ lstrip_0x_zero (hex_digit (b % 16) ∷ to_hex bs)
        ∙ ap (λ d. lstrip_0x (hex_digit d ∷ to_hex bs)) same
        ∙ lstrip_0x_digit b (to_hex bs) above small)
      (from_hex_odd b bs small hs)
