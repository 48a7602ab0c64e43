-- ===== src/Clearing/Contract/Examples.antt =====
-- Market ids on their way to the contract.
use ammba_uoc.Prelude.{◌≡◌, refl, [], ◌∷◌, arith, ok, err, value_error}
use ammba_uoc.Prelude.Text.{codes}
use ammba_uoc.Settlement.Ids.{from_hex, bytes16_to_hex}
use ammba_uoc.Clearing.Contract.{ljust, market_id_bytes}
use ammba_uoc.Clearing.Contract.Encoding.{market_id_bytes-bytes16_to_hex, market_id_bytes_small}

market_id_bytes-bytes16_to_hex_example :
    market_id_bytes (bytes16_to_hex (171 ∷ 0 ∷ 5 ∷ [])) ≡ ok (ljust (171 ∷ 0 ∷ 5 ∷ []))
market_id_bytes-bytes16_to_hex_example =
    market_id_bytes-bytes16_to_hex 171 (0 ∷ 5 ∷ []) (omega arith)
      (omega arith, (omega arith, (omega arith, tt)))

market_id_bytes_small_example : market_id_bytes (bytes16_to_hex (10 ∷ 187 ∷ [])) ≡ err value_error
market_id_bytes_small_example =
    market_id_bytes_small 10 (187 ∷ []) (omega arith) (omega arith) (omega arith, tt)

-- A market that is announced with a UUID is refused.
uuid_refused : market_id_bytes (codes "6ba7b811-9dad-11d1-80b4-00c04fd430c8") ≡ err value_error
unfolding market_id_bytes from_hex
uuid_refused = refl

-- An id whose first byte is zero is moved to the left.
zero_dropped : market_id_bytes (bytes16_to_hex (0 ∷ 187 ∷ [])) ≡ ok (ljust (187 ∷ []))
unfolding market_id_bytes from_hex bytes16_to_hex
zero_dropped = refl
