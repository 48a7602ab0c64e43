-- ===== src/Settlement/Engine/Pack.antt =====
-- `_pack`: whole markets into transactions of bounded size.
use ammba_uoc.Prelude.{ℕ, ◌+◌, List, [], ◌∷◌, ◌++◌, length, ltb, if◌then◌else◌}
use ammba_uoc.Settlement.Structs.{MarketSettlement}

module _ {F : Type 0} where
  -- the loop, with the chunks closed so far, the open one and its matches
  unfoldable pub pack_loop :
      ℕ
      → List (MarketSettlement F)
      → List (List (MarketSettlement F))
      → List (MarketSettlement F)
      → ℕ
      → List (List (MarketSettlement F))
  pack_loop max_matches [] chunks [] size = chunks
  pack_loop max_matches [] chunks (c ∷ cs) size = chunks ++ ((c ∷ cs) ∷ [])
  pack_loop max_matches (s ∷ ss) chunks [] size =
      pack_loop max_matches ss chunks (s ∷ []) (size + length s.matches)
  pack_loop max_matches (s ∷ ss) chunks (c ∷ cs) size =
      let full = ltb max_matches (size + length s.matches) in
      pack_loop max_matches ss (if full then chunks ++ ((c ∷ cs) ∷ []) else chunks)
        (if full then s ∷ [] else (c ∷ cs) ++ (s ∷ []))
        (if full then length s.matches else size + length s.matches)

  unfoldable pub pack : List (MarketSettlement F) → ℕ → List (List (MarketSettlement F))
  unfolding pack_loop
  pack settlements max_matches = pack_loop max_matches settlements [] [] 0
