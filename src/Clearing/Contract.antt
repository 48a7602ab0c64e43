-- ===== src/Clearing/Contract.antt =====
-- amm-clearing-node/src/contract.py: the arguments of `clearMarket`, and what becomes of its transaction.
pub mod Encoding
mod Examples
use ammba_uoc.Prelude.{
  ℕ, zero, suc, ◌+◌, ◌-◌, String, Bool, ◌||◌, Option, none, some, List, [], ◌∷◌, ◌++◌, length, ◌==◌,
  nat_eq, if◌then◌else◌, Result, ok, err, value_error, or_raise, ◌>>=◌,
}
use ammba_uoc.Prelude.Int.{ℤ}
use ammba_uoc.Arith.{Arith}
use ammba_uoc.Clearing.Sigmoid.{to_node_int}
use ammba_uoc.Settlement.Ids.{from_hex}

-- `text.lstrip("0x")`, which drops every leading `0` and `x`
unfoldable pub lstrip_0x : List ℕ → List ℕ
lstrip_0x [] = []
lstrip_0x (c ∷ cs) = if c == b'0' || c == b'x' then lstrip_0x cs else c ∷ cs

unfoldable pub zeros : ℕ → List ℕ
zeros zero = []
zeros (suc n) = 0 ∷ zeros n

-- `bytes.ljust(32, b"\x00")`
unfoldable pub ljust : List ℕ → List ℕ
unfolding zeros
ljust bytes = bytes ++ zeros (32 - length bytes)

-- `bytes[:n]`
unfoldable pub take : ℕ → List ℕ → List ℕ
take zero bytes = []
take (suc n) [] = []
take (suc n) (b ∷ bytes) = b ∷ take n bytes

unfoldable pub market_id_bytes : List ℕ → Result (List ℕ)
unfolding lstrip_0x ljust
market_id_bytes market_id = do
  bytes ← or_raise (from_hex (lstrip_0x market_id)) value_error
  ok (ljust bytes)

-- The chain, as the client meets it: `encode("utf-8")`, and for the arguments of a call the receipt's
-- transaction hash, or what the submission raises.
pub record Chain : Type 0 where
  pub utf8 : List ℕ → List ℕ
  pub submit : List ℕ → List ℕ → ℤ → ℤ → ℤ → ℤ → Result (List ℕ)

unfoldable pub community_bytes : Chain → List ℕ → List ℕ
unfolding ljust take
community_bytes chain community_uuid = take 32 (ljust (chain.utf8 community_uuid))

module _ {F : Type 0} ⦃a : Arith F⦄ where
  unfoldable pub clear_market : Chain → List ℕ → List ℕ → ℤ → F → F → F → Result (List ℕ)
  unfolding market_id_bytes community_bytes to_node_int
  clear_market chain market_id community_uuid time_slot total_supply_kwh total_demand_kwh
        clearing_price =
      do
        id ← market_id_bytes market_id
        hash ←
            chain.submit id (community_bytes chain community_uuid) time_slot
              (to_node_int total_supply_kwh) (to_node_int total_demand_kwh)
              (to_node_int clearing_price)
        ok (b'0' ∷ b'x' ∷ hash)
