-- ===== src/Settlement/Engine/Packing.antt =====
-- Packing loses no market, keeps the order and respects the bound.
use mathlib.Core.List.{append_assoc, append-nil}
use ammba_uoc.Prelude.{
  ℕ, ◌+◌, ◌≤◌, ◌≡◌, ◌⊎◌, inl, inr, refl, sym, ◌∙◌, List, [], ◌∷◌, ◌++◌, concat, length, All,
  All-append, arith, ltb, Bool-cases,
}
use ammba_uoc.Settlement.Structs.{MarketSettlement}
use ammba_uoc.Settlement.Engine.Pack.{pack_loop, pack}

concat-append : {A : Type 0} (xs ys : List (List A)) → concat (xs ++ ys) ≡ concat xs ++ concat ys
concat-append [] ys = refl
concat-append (x ∷ xs) ys = rw (concat-append xs ys, append_assoc)

module _ {F : Type 0} where
  -- The matches of a chunk.
  abbrev pub size_of : List (MarketSettlement F) → ℕ
  size_of [] = 0
  size_of (s ∷ ss) = length s.matches + size_of ss

  size_of-append :
      (xs ys : List (MarketSettlement F)) → size_of (xs ++ ys) ≡ size_of xs + size_of ys
  size_of-append [] ys = omega arith
  size_of-append (x ∷ xs) ys = omega (arith, size_of-append xs ys)

  -- A chunk is not empty, and has at most the bound of matches unless it is a single market.
  abbrev pub IsBounded : ℕ → List (MarketSettlement F) → Type 0
  IsBounded bound chunk = (1 ≤ length chunk) × ((length chunk ≡ 1) ⊎ (size_of chunk ≤ bound))

  pack_loop_lem :
      (bound : ℕ) (ss : List (MarketSettlement F)) (chunks : List (List (MarketSettlement F)))
      (current : List (MarketSettlement F)) (size : ℕ)
      → size ≡ size_of current
      → All (IsBounded bound) chunks
      → (length current ≡ 0) ⊎ IsBounded bound current
      → (concat (pack_loop bound ss chunks current size) ≡ concat chunks ++ (current ++ ss))
        × All (IsBounded bound) (pack_loop bound ss chunks current size)
  unfolding pack_loop
  pack_loop_lem bound [] chunks [] size e all b = (sym (append-nil _), all)
  pack_loop_lem bound [] chunks (c ∷ cs) size e all (inl empty) = absurd (omega arith)
  pack_loop_lem bound [] chunks (c ∷ cs) size e all (inr b) = (
    concat-append chunks ((c ∷ cs) ∷ []),
    All-append (IsBounded bound) chunks ((c ∷ cs) ∷ []) all (b, tt),
  )
  pack_loop_lem bound (s ∷ ss) chunks [] size e all b =
      pack_loop_lem bound ss chunks (s ∷ []) (size + length s.matches) (omega arith) all
        (inr (omega arith, inl refl))
  pack_loop_lem bound (s ∷ ss) chunks (c ∷ cs) size e all (inl empty) = absurd (omega arith)
  pack_loop_lem bound (s ∷ ss) chunks (c ∷ cs) size e all (inr b) =
      elim (Bool-cases (ltb bound (size + length s.matches))) [
        | inl full ↦ rw full (
            let (joined, each) =
              pack_loop_lem bound ss (chunks ++ ((c ∷ cs) ∷ [])) (s ∷ []) (length s.matches)
                (omega arith) (All-append (IsBounded bound) chunks ((c ∷ cs) ∷ []) all (b, tt))
                (inr (omega arith, inl refl)) in
            (joined ∙ simp (concat-append, append-nil, append_assoc), each))
        | inr room ↦ rw room (
            let (joined, each) =
              pack_loop_lem bound ss chunks ((c ∷ cs) ++ (s ∷ [])) (size + length s.matches)
                (omega (arith, size_of-append (c ∷ cs) (s ∷ []))) all
                (inr (omega arith, inr (ground (arith, size_of-append (c ∷ cs) (s ∷ []))))) in
            (joined ∙ simp append_assoc, each))
      ]

  -- The chunks, joined, are the markets in their order. Every chunk has a market, and either is a
  -- single market or has at most the bound of matches.
  pub pack_lem :
      (settlements : List (MarketSettlement F)) (max_matches : ℕ)
      → (concat (pack settlements max_matches) ≡ settlements)
        × All (IsBounded max_matches) (pack settlements max_matches)
  unfolding pack
  pack_lem settlements max_matches =
      pack_loop_lem max_matches settlements [] [] 0 refl tt (inl refl)
