-- ===== src/Settlement/Ids.antt =====
-- amm-execution-node/src/ids.py: identifiers on the chain.
pub mod Roundtrip
use ammba_uoc.Prelude.{
  ℕ, ◌+◌, ◌-◌, ◌*◌, ◌/◌, ◌%◌, ◌≡◌, String, Bool, true, false, not, ◌&&◌, ◌||◌, Option, none, some,
  List, [], ◌∷◌, ◌++◌, filter, length, leb, ◌==◌, nat_eq, if◌then◌else◌, Result, ok, err,
  value_error, raise_if, ◌>>=◌, ◌>>◌,
}
use ammba_uoc.Prelude.Text.{codes, strip}
use ammba_uoc.Wire.{Host}

unfoldable pub zero_bytes16 : List ℕ
zero_bytes16 = 0 ∷ 0 ∷ 0 ∷ 0 ∷ 0 ∷ 0 ∷ 0 ∷ 0 ∷ 0 ∷ 0 ∷ 0 ∷ 0 ∷ 0 ∷ 0 ∷ 0 ∷ 0 ∷ []

-- the value of a hexadecimal digit
abbrev pub hex_value : ℕ → Option ℕ
hex_value c =
    if leb b'0' c && leb c b'9'
    then some (c - b'0')
    else if leb b'a' c && leb c b'f'
    then some (c - b'a' + 10)
    else if leb b'A' c && leb c b'F'
    then some (c - b'A' + 10)
    else none

-- ASCII whitespace, which `bytes.fromhex` skips between bytes
abbrev pub is_hex_space : ℕ → Bool
is_hex_space c = (leb 9 c && leb c 13) || c == 32

abbrev pub join_digits : Option ℕ → Option ℕ → Option (List ℕ) → Option (List ℕ)
join_digits (some hi) (some lo) (some rest) = some ((16 * hi + lo) ∷ rest)
join_digits _ _ _ = none

-- `bytes.fromhex`; `none` is its ValueError
unfoldable pub from_hex : List ℕ → Option (List ℕ)
from_hex [] = some []
from_hex (c ∷ []) = if is_hex_space c then some [] else none
from_hex (c ∷ d ∷ cs) = elim (is_hex_space c) [
  | true ↦ from_hex (d ∷ cs)
  | false ↦ join_digits (hex_value c) (hex_value d) (from_hex cs)
]

-- `text[2:] if text.startswith("0x") else text.replace("-", "")`
abbrev pub hex_part : List ℕ → List ℕ
hex_part (c ∷ d ∷ cs) =
    if c == b'0' && d == b'x' then cs else filter (λ e. not (e == b'-')) (c ∷ d ∷ cs)
hex_part cs = filter (λ e. not (e == b'-')) cs

unfoldable pub parse_codes : List ℕ → Result (List ℕ)
unfolding from_hex
parse_codes text = do
  let hex_value = hex_part (strip text)
  raise_if (not (length hex_value == 32)) value_error
  elim (from_hex hex_value) [ none ↦ err value_error | some bytes ↦ ok bytes ]

unfoldable pub parse_uuid_or_hex_bytes16 : String → Result (List ℕ)
unfolding parse_codes
parse_uuid_or_hex_bytes16 value = parse_codes (codes value)

unfoldable pub uuid_to_bytes16 : String → Result (List ℕ)
unfolding parse_uuid_or_hex_bytes16
uuid_to_bytes16 value = parse_uuid_or_hex_bytes16 value

abbrev pub hex_digit : ℕ → ℕ
hex_digit n = if leb n 9 then b'0' + n else b'a' + (n - 10)

-- `value.hex()`
unfoldable pub to_hex : List ℕ → List ℕ
to_hex [] = []
to_hex (b ∷ bs) = hex_digit (b / 16) ∷ hex_digit (b % 16) ∷ to_hex bs

unfoldable pub bytes16_to_hex : List ℕ → List ℕ
unfolding to_hex
bytes16_to_hex value = b'0' ∷ b'x' ∷ to_hex value

-- `str(uuid.UUID(bytes=value))`: the hex digits in groups of 8, 4, 4, 4 and 12
abbrev pub dashed : List ℕ → List ℕ
dashed (a ∷ b ∷ c ∷ d ∷ e ∷ f ∷ g ∷ h ∷ i ∷ j ∷ rest) =
    to_hex (a ∷ b ∷ c ∷ d ∷ [])
    ++ (b'-'
        ∷ (to_hex (e ∷ f ∷ [])
            ++ (b'-'
                ∷ (to_hex (g ∷ h ∷ []) ++ (b'-' ∷ (to_hex (i ∷ j ∷ []) ++ (b'-' ∷ to_hex rest)))))))
dashed bs = to_hex bs

unfoldable pub bytes16_to_uuid : List ℕ → Result (List ℕ)
unfolding to_hex
bytes16_to_uuid value = do raise_if (not (length value == 16)) value_error; ok (dashed value)

module _ ⦃h : Host⦄ where
  unfoldable pub actor_onchain_id : String → List ℕ
  actor_onchain_id offchain_id = h.blake2b offchain_id
