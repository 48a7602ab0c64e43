-- ===== src/Clearing/Preferences/Pairs.antt =====
-- The pairs found are the mutual preferences, all of them and no others.
use ammba_uoc.Prelude.{
  ℕ, zero, suc, ◌+◌, ◌<◌, ◌≡◌, refl, Bool, false, ◌&&◌, ◌||◌, Option, some, List, [], ◌∷◌, ◌++◌,
  any, Any, member_iff, arith, String, none, true, ◌↔◌, Option-cases, inl, inr, sym, ap, ◌∙◌,
  string_eq, nat_beq, nat_beq_iff,
}
use ammba_uoc.Clearing.Orders.{Requirements, Order, get_elem?}
use ammba_uoc.Clearing.Preferences.{
  member, partners, is_mutual, pairs_with, pairs_from, find_mutual_preferred_pairs,
}

none-some : {A : Type 0} {o : Option A} {x : A} → o ≡ none → o ≡ some x → ⊥
none-some e h = absurd (cc)

abbrev value_or : {A : Type 0} → A → Option A → A
value_or d none = d
value_or d (some x) = x

some-injective : {A : Type 0} {x y : A} → some x ≡ some y → x ≡ y
some-injective {x} e = ap (value_or x) e

abbrev pub is_pair : ℕ → ℕ → List (ℕ × ℕ) → Bool
is_pair i j = any λ p. nat_beq p.0 i && nat_beq p.1 j

is_pair-append :
    (i j : ℕ) (ps qs : List (ℕ × ℕ)) → is_pair i j (ps ++ qs) ≡ (is_pair i j ps || is_pair i j qs)
is_pair-append i j [] qs = refl
is_pair-append i j (p ∷ ps) qs = ground (arith, is_pair-append i j ps qs)

module _ {F : Type 0} where
  -- Both orders exist, and each names the other's creator.
  abbrev pub mutual_at : Option (Order F) → Option (Order F) → Bool
  mutual_at (some bid) (some offer) = is_mutual bid offer
  mutual_at _ _ = false

  pairs_with-before :
      (i k l j : ℕ) (bid : Order F) (offers : List (Order F))
      → l < j
      → is_pair k l (pairs_with i bid j offers) ≡ false
  unfolding pairs_with
  pairs_with-before i k l j bid [] h = refl
  pairs_with-before i k l j bid (offer ∷ offers) h =
      ground (arith, pairs_with-before i k l (suc j) bid offers (omega arith), nat_beq_iff j l)

  pairs_with_lem :
      (i k l j m : ℕ) (bid : Order F) (offers : List (Order F))
      → l ≡ j + m
      → is_pair k l (pairs_with i bid j offers)
        ≡ (nat_beq i k && mutual_at (some bid) (get_elem? offers m))
  unfolding pairs_with
  pairs_with_lem i k l j m bid [] e = ground arith
  pairs_with_lem i k l j zero bid (offer ∷ offers) e =
      ground (arith, pairs_with-before i k l (suc j) bid offers (omega arith), nat_beq_iff j l)
  pairs_with_lem i k l j (suc m) bid (offer ∷ offers) e =
      ground (arith, pairs_with_lem i k l (suc j) m bid offers (omega arith), nat_beq_iff j l)

  pairs_from-before :
      (i k l : ℕ) (bids offers : List (Order F))
      → k < i
      → is_pair k l (pairs_from i bids offers) ≡ false
  unfolding pairs_from
  pairs_from-before i k l [] offers h = refl
  pairs_from-before i k l (bid ∷ bids) offers h = ground (
    arith,
    is_pair-append k l (pairs_with i bid 0 offers) (pairs_from (suc i) bids offers),
    pairs_with_lem i k l 0 l bid offers (omega arith),
    nat_beq_iff i k,
    pairs_from-before (suc i) k l bids offers (omega arith),
  )

  pairs_from_lem :
      (i k l m : ℕ) (bids offers : List (Order F))
      → k ≡ i + m
      → is_pair k l (pairs_from i bids offers) ≡ mutual_at (get_elem? bids m) (get_elem? offers l)
  unfolding pairs_from
  pairs_from_lem i k l m [] offers e = refl
  pairs_from_lem i k l zero (bid ∷ bids) offers e = ground (
    arith,
    is_pair-append k l (pairs_with i bid 0 offers) (pairs_from (suc i) bids offers),
    pairs_with_lem i k l 0 l bid offers (omega arith),
    nat_beq_iff i k,
    pairs_from-before (suc i) k l bids offers (omega arith),
  )
  pairs_from_lem i k l (suc m) (bid ∷ bids) offers e = ground (
    arith,
    is_pair-append k l (pairs_with i bid 0 offers) (pairs_from (suc i) bids offers),
    pairs_with_lem i k l 0 l bid offers (omega arith),
    nat_beq_iff i k,
    pairs_from_lem (suc i) k l m bids offers (omega arith),
  )

  pub find_mutual_preferred_pairs-mutual_at :
      (bids offers : List (Order F)) (i j : ℕ)
      → is_pair i j (find_mutual_preferred_pairs bids offers)
        ≡ mutual_at (get_elem? bids i) (get_elem? offers j)
  unfolding find_mutual_preferred_pairs
  find_mutual_preferred_pairs-mutual_at bids offers i j =
      pairs_from_lem 0 i j i bids offers (omega arith)

  -- The order declares this creator as a preferred partner.
  abbrev pub Prefers : Order F → String → Type 0
  Prefers o creator =
      (r : Requirements) × ((o.requirements ≡ some r) × Any (λ p. p ≡ creator) r.trading_partner_id)

  -- A bid and an offer stand at these positions, and each order prefers the creator of the other.
  abbrev pub AreMutual : List (Order F) → List (Order F) → ℕ → ℕ → Type 0
  AreMutual bids offers i j =
      (bid : Order F) × ((offer : Order F) × ((get_elem? bids i ≡ some bid)
          × ((get_elem? offers j ≡ some offer)
              × (Prefers bid offer.created_by × Prefers offer bid.created_by))))

  partners-Prefers :
      (o : Order F) (creator : String) → (member creator (partners o) ≡ true) ↔ Prefers o creator
  partners-Prefers o creator = elim (Option-cases o.requirements) [
    | inl absent ↦
        (λ e. absurd (ground (arith, rw absent at e)), λ (r, (e, _)). absurd (none-some absent e))
    | inr (r, e) ↦ (
      λ known. (r, (e, (member_iff creator r.trading_partner_id).0 (rw e at known))),
      λ (r', (e', known)). rw e' ((member_iff creator r'.trading_partner_id).1 known),
    )
  ]

  mutual_both :
      (bid offer : Order F) (bids offers : List (Order F)) (i j : ℕ)
      → get_elem? bids i ≡ some bid
      → get_elem? offers j ≡ some offer
      → is_mutual bid offer ≡ true
      → AreMutual bids offers i j
  mutual_both bid offer bids offers i j e e' h =
      let wanted = (partners-Prefers bid offer.created_by).0 (ground (arith, h)) in
      let wanting = (partners-Prefers offer bid.created_by).0 (ground (arith, h)) in
      (bid, (offer, (e, (e', (wanted, wanting)))))

  both_mutual :
      (b o bid offer : Order F)
      → b ≡ bid
      → o ≡ offer
      → Prefers b o.created_by
      → Prefers o b.created_by
      → is_mutual bid offer ≡ true
  both_mutual b o bid offer same_bid same_offer p q =
      ap (λ x. is_mutual x offer) (sym same_bid)
      ∙ ap (λ y. is_mutual b y) (sym same_offer)
      ∙ ground (arith, (partners-Prefers b o.created_by).1 p, (partners-Prefers o b.created_by).1 q)

  mutual_at-AreMutual :
      (x y : Option (Order F)) (bids offers : List (Order F)) (i j : ℕ)
      → get_elem? bids i ≡ x
      → get_elem? offers j ≡ y
      → (mutual_at x y ≡ true) ↔ AreMutual bids offers i j
  mutual_at-AreMutual none y bids offers i j e e' =
      (λ h. absurd (ground (arith, h)), λ (b, (o, (h, _))). absurd (none-some e h))
  mutual_at-AreMutual (some bid) none bids offers i j e e' =
      (λ h. absurd (ground (arith, h)), λ (b, (o, (_, (h, _)))). absurd (none-some e' h))
  mutual_at-AreMutual (some bid) (some offer) bids offers i j e e' = (
    λ h. mutual_both bid offer bids offers i j e e' h,
    λ (b, (o, (h, (h', (p, q))))).
        both_mutual b o bid offer (some-injective (sym h ∙ e)) (some-injective (sym h' ∙ e')) p q,
  )

  -- The positions i and j are among the pairs found exactly if there is a bid at i and an offer at
  -- j, the bid has declared partners and the offer's creator is one of them, and the offer has declared
  -- partners and the bid's creator is one of them.
  pub find_mutual_preferred_pairs_lem :
      (bids offers : List (Order F)) (i j : ℕ)
      → (is_pair i j (find_mutual_preferred_pairs bids offers) ≡ true) ↔ AreMutual bids offers i j
  find_mutual_preferred_pairs_lem bids offers i j =
      let same = find_mutual_preferred_pairs-mutual_at bids offers i j in
      let iff =
        mutual_at-AreMutual (get_elem? bids i) (get_elem? offers j) bids offers i j refl refl in
      (λ e. iff.0 (sym same ∙ e), λ m. same ∙ iff.1 m)
