-- ===== src/Clearing/Preferences/Exhaustion.antt =====
-- Priority allocation never over-allocates, and serves every mutual pair until a side is used up.
use ammba_uoc.Prelude.{
  ℕ, zero, suc, ◌≡◌, refl, ◌⊎◌, inl, inr, true, ◌&&◌, ◌||◌, Option, none, some, List, [], ◌∷◌, All,
  arith, nat_beq, nat_beq_iff, if◌then◌else◌, Bool-cases, Option-cases,
}
use ammba_uoc.Arith.{Arith, ◌≼◌, nought, min_of, IsOrdered, IsRounded}
use ammba_uoc.Arith.Facts
use ammba_uoc.Clearing.Orders.{Order, get_elem?, set}
use ammba_uoc.Clearing.Preferences.{
  Allocation, allocated, deduct, match_pair, match_at, match_pairs, apply_priority_allocation,
  find_mutual_preferred_pairs,
}
use ammba_uoc.Clearing.Preferences.Pairs.{is_pair, mutual_at, find_mutual_preferred_pairs-mutual_at}

module _ {F : Type 0} ⦃a : Arith F⦄ where
  -- What the pool allocation still holds at a position; nothing where there is no order.
  abbrev pub left_of : Option (Order F) → F
  left_of none = nought
  left_of (some o) = allocated o

  abbrev pub left : List (Order F) → ℕ → F
  left os k = left_of (get_elem? os k)

  left-set :
      (os : List (Order F)) (i k : ℕ) (o o' : Order F)
      → get_elem? os i ≡ some o
      → left (set os i o') k ≡ (if nat_beq k i then allocated o' else left os k)
  left-set [] i k o o' e = absurd (cc)
  left-set (x ∷ xs) zero zero o o' e = refl
  left-set (x ∷ xs) zero (suc k) o o' e = ground (arith, nat_beq_iff (suc k) 0)
  left-set (x ∷ xs) (suc i) zero o o' e = ground (arith, nat_beq_iff 0 (suc i))
  left-set (x ∷ xs) (suc i) (suc k) o o' e =
      ground (arith, left-set xs i k o o' e, nat_beq_iff k i, nat_beq_iff (suc k) (suc i))

  -- A bound below for every position.
  abbrev pub AllocatedNonneg : List (Order F) → Type 0
  AllocatedNonneg os = (k : ℕ) → nought ≼ left os k

  abbrev pub IsBelow : List (Order F) → List (Order F) → Type 0
  IsBelow os os' = (k : ℕ) → left os k ≼ left os' k

  record IsStep (s s' : Allocation F) : Type 0 where
    bids_nonneg : AllocatedNonneg s'.bids
    offers_nonneg : AllocatedNonneg s'.offers
    bids_below : IsBelow s'.bids s.bids
    offers_below : IsBelow s'.offers s.offers

  -- One of two orders has nothing left.
  abbrev pub IsExhausted : Allocation F → ℕ → ℕ → Type 0
  IsExhausted s i j = (left s.bids i ≼ nought) ⊎ (left s.offers j ≼ nought)

  module _ (o : IsOrdered F) (r : IsRounded F) where
    open o use {le_trans, num_of_le}
    open r use {sub_nonneg, sub_nonpos, sub_le}

    set-nonneg :
        (os : List (Order F)) (i : ℕ) (x x' : Order F)
        → get_elem? os i ≡ some x
        → AllocatedNonneg os
        → nought ≼ allocated x'
        → AllocatedNonneg (set os i x')
    set-nonneg os i x x' e n p k = ground (arith, left-set os i k x x' e, n k)

    set-IsBelow :
        (os : List (Order F)) (i : ℕ) (x x' : Order F)
        → get_elem? os i ≡ some x
        → AllocatedNonneg os
        → allocated x' ≼ allocated x
        → IsBelow (set os i x') os
    set-IsBelow os i x x' e n p k = elim (Bool-cases (nat_beq k i)) [
      | inl same ↦ rw (left-set os i k x x' e, same, (nat_beq_iff k i).0 same, e) p
      | inr other ↦ rw (left-set os i k x x' e, other) (num_of_le _ _ (n k)).1
    ]

    stays : (s : Allocation F) → AllocatedNonneg s.bids → AllocatedNonneg s.offers → IsStep s s
    stays s b n = record {
      bids_nonneg = b;
      offers_nonneg = n;
      bids_below = λ k. (num_of_le _ _ (b k)).1;
      offers_below = λ k. (num_of_le _ _ (n k)).1;
    }

    match_pair_lem :
        (i j : ℕ) (bid offer : Order F) (s : Allocation F)
        → get_elem? s.bids i ≡ some bid
        → get_elem? s.offers j ≡ some offer
        → AllocatedNonneg s.bids
        → AllocatedNonneg s.offers
        → IsStep s (match_pair i j bid offer s) × IsExhausted (match_pair i j bid offer s) i j
    unfolding match_pair
    match_pair_lem i j bid offer s e f b n =
        let x = allocated bid in
        let y = allocated offer in
        let m = min_of x y in
        let px : nought ≼ x = ground (arith, b i) in
        let py : nought ≼ y = ground (arith, n j) in
        let nx = (num_of_le _ _ px).1 in
        let ny = (num_of_le _ _ py).1 in
        let pm = Facts.le-min_of o x y nought px py in
        elim (Bool-cases (a.le x nought || a.le y nought)) [
          | inl over ↦ rw over (stays s b n, ground arith)
          | inr more ↦ rw more (
            record {
              bids_nonneg =
                  set-nonneg s.bids i bid _ e b (sub_nonneg x m (Facts.min_of-le_left o x y nx));
              offers_nonneg =
                  set-nonneg s.offers j offer _ f n
                    (sub_nonneg y m (Facts.min_of-le_right o x y nx ny));
              bids_below = set-IsBelow s.bids i bid _ e b (sub_le x m nx pm);
              offers_below = set-IsBelow s.offers j offer _ f n (sub_le y m ny pm);
            },
            ground (
              arith,
              left-set s.bids i i bid (deduct m bid) e,
              left-set s.offers j j offer (deduct m offer) f,
              nat_beq_iff i i,
              nat_beq_iff j j,
              sub_nonpos x x nx,
              sub_nonpos y y ny,
            ),
          )
        ]

    match_at_lem :
        (i j : ℕ) (s : Allocation F)
        → AllocatedNonneg s.bids
        → AllocatedNonneg s.offers
        → let s' = match_at i j (get_elem? s.bids i) (get_elem? s.offers j) s in
          IsStep s s' × IsExhausted s' i j
    unfolding match_at
    match_at_lem i j s b n = elim (Option-cases (get_elem? s.bids i)) [
      | inl missing ↦ rw missing (stays s b n, inl (rw missing (Facts.zero_num o)))
      | inr (bid, e) ↦ elim (Option-cases (get_elem? s.offers j)) [
        | inl missing ↦ rw (e, missing) (stays s b n, inr (rw missing (Facts.zero_num o)))
        | inr (offer, f) ↦ rw (e, f) (match_pair_lem i j bid offer s e f b n)
      ]
    ]

    match_pairs_lem :
        (ps : List (ℕ × ℕ)) (s : Allocation F)
        → AllocatedNonneg s.bids
        → AllocatedNonneg s.offers
        → IsStep s (match_pairs ps s) × All (λ p. IsExhausted (match_pairs ps s) p.0 p.1) ps
    unfolding match_pairs
    match_pairs_lem [] s b n = (stays s b n, tt)
    match_pairs_lem ((i, j) ∷ ps) s b n =
        let s' = match_at i j (get_elem? s.bids i) (get_elem? s.offers j) s in
        let (step, now) = match_at_lem i j s b n in
        let (steps, later) = match_pairs_lem ps s' step.bids_nonneg step.offers_nonneg in
        (
          record {
            bids_nonneg = steps.bids_nonneg;
            offers_nonneg = steps.offers_nonneg;
            bids_below = λ k. le_trans _ _ _ (steps.bids_below k) (step.bids_below k);
            offers_below = λ k. le_trans _ _ _ (steps.offers_below k) (step.offers_below k);
          },
          (
            elim now [
              | inl done ↦ inl (le_trans _ _ _ (steps.bids_below i) done)
              | inr done ↦ inr (le_trans _ _ _ (steps.offers_below j) done)
            ],
            later,
          ),
        )

    -- From allocations that are not negative, priority allocation leaves at every position an
    -- allocation that is not negative and not more than before, on both sides.
    pub apply_priority_allocation_bounds :
        (bids offers : List (Order F)) (k : ℕ)
        → AllocatedNonneg bids
        → AllocatedNonneg offers
        → (nought ≼ left (apply_priority_allocation bids offers).bids k)
          × (left (apply_priority_allocation bids offers).bids k ≼ left bids k)
          × (nought ≼ left (apply_priority_allocation bids offers).offers k)
          × (left (apply_priority_allocation bids offers).offers k ≼ left offers k)
    unfolding apply_priority_allocation
    apply_priority_allocation_bounds bids offers k b n =
        let (step, _) = match_pairs_lem (find_mutual_preferred_pairs bids offers) _ b n in
        (step.bids_nonneg k, step.bids_below k, step.offers_nonneg k, step.offers_below k)

    All-is_pair :
        (P : ℕ → ℕ → Type 0) (ps : List (ℕ × ℕ)) (i j : ℕ)
        → All (λ p. P p.0 p.1) ps
        → is_pair i j ps ≡ true
        → P i j
    All-is_pair P [] i j _ e = absurd (cc)
    All-is_pair P ((k, l) ∷ ps) i j (p, rest) e = elim (Bool-cases (nat_beq k i && nat_beq l j)) [
      | inl same ↦ ground (arith, nat_beq_iff k i, nat_beq_iff l j)
      | inr other ↦ All-is_pair P ps i j rest (ground arith)
    ]

    -- From allocations that are not negative, for every bid and offer that name each other,
    -- priority allocation leaves nothing to at least one of the two.
    pub apply_priority_allocation_exhausts :
        (bids offers : List (Order F)) (i j : ℕ)
        → AllocatedNonneg bids
        → AllocatedNonneg offers
        → mutual_at (get_elem? bids i) (get_elem? offers j) ≡ true
        → IsExhausted (apply_priority_allocation bids offers) i j
    unfolding apply_priority_allocation
    apply_priority_allocation_exhausts bids offers i j b n named =
        All-is_pair (IsExhausted (apply_priority_allocation bids offers))
          (find_mutual_preferred_pairs bids offers) i j
          (match_pairs_lem (find_mutual_preferred_pairs bids offers) _ b n).1
          (ground (arith, find_mutual_preferred_pairs-mutual_at bids offers i j))
