-- ===== src/Settlement/Builder/Accounting.antt =====
-- What the builder keeps: the energy of each order over its matches, and the trades of each market.
use mathlib.Core.List.{map-append, append_assoc, append-nil}
use ammba_uoc.Prelude.{
  ℕ, String, true, false, Option, none, some, List, [], ◌∷◌, ◌++◌, map, ◌≡◌, ◌≢◌, refl, sym, ◌∙◌,
  ◌==◌, string_eq, bytes_eq, if◌then◌else◌, arith, Result, ok, err, value_error, Bool-cases, inl,
  inr, Result-cases, Post, returns, Post->>=_eq, post_rules, Post-mono, Post-ok,
}
use ammba_uoc.Prelude.Int.{ℤ, pos, ◌+ℤ◌, ◌≤ℤ◌, ◌<ℤ◌, int_laws, ltb_ℤ}
use ammba_uoc.Prelude.Dict.{Dict, lookup, lookup-insert_self, lookup-insert_ne}
use ammba_uoc.Arith.{Arith, IsRounded}
use ammba_uoc.Wire.{Host, IntOrder, IntTrade}
use ammba_uoc.Settlement.Ids.{uuid_to_bytes16}
use ammba_uoc.Settlement.Structs.{OrderParams, Match, scale, scaling_factor, residual}
use ammba_uoc.Settlement.Builder.{
  Building, no_building, add_match, residual_order_uuid, remaining, take_form, append_match,
  build_direct, build_buyer_pool, build_pool_seller, build_trade, build_trades,
}

module _ {F : Type 0} ⦃a : Arith F⦄ ⦃h : Host⦄ where
  -- What a match leaves of an order: a residual with the rest of its energy, or nothing.
  abbrev pub Leaves : OrderParams F → F → String → Option String → OrderParams F → Type 0
  Leaves current quantity residual_id none next =
      (next ≡ current) × (scale current.energy_kwh ≤ℤ scale quantity)
  Leaves current quantity residual_id (some id) next =
      (id ≡ residual_id)
      × (next.order_id ≡ id)
      × (next.energy_rate ≡ current.energy_rate)
      × (next.created_by ≡ current.created_by)
      × (scale quantity <ℤ scale current.energy_kwh)
      × (scale next.energy_kwh +ℤ scale quantity ≡ scale current.energy_kwh)

  scale_scaled : (r : IsRounded F) (n : ℤ) → scale (a.div (a.of_ℤ n) (a.dec scaling_factor 0)) ≡ n
  unfolding scale
  scale_scaled r n = r.round_scaled n

  remaining_pos :
      (current : OrderParams F) (quantity : F)
      → ltb_ℤ (pos 0) (remaining current quantity) ≡ true
      → (scale quantity <ℤ scale current.energy_kwh)
        × (remaining current quantity +ℤ scale quantity ≡ scale current.energy_kwh)
  unfolding remaining
  remaining_pos current quantity e = grind int_laws

  remaining_nonpos :
      (current : OrderParams F) (quantity : F)
      → ltb_ℤ (pos 0) (remaining current quantity) ≡ false
      → scale current.energy_kwh ≤ℤ scale quantity
  unfolding remaining
  remaining_nonpos current quantity e = grind int_laws

  -- A match consumes the current form of an order. If the order has more energy than the match
  -- takes, in the integers of the chain, the form that the next match will consume has the new
  -- residual id and the rest of the energy, and the two energies add up; if not, the form stays and
  -- there is no residual. The form of any other order stays.
  pub take_form_lem :
      (r : IsRounded F) (current : OrderParams F) (key other trade_id : String) (quantity : F)
      (live : Dict String (OrderParams F))
      → key ≢ other
      → let (taken, residual_id, live') = take_form current key quantity trade_id live in
        (taken ≡ current)
        × ((next : OrderParams F) × (lookup key live' ≡ some next)
            × Leaves current quantity (residual_order_uuid key trade_id) residual_id next)
        × (lookup other live' ≡ lookup other live)
  unfolding take_form
  take_form_lem r current key other trade_id quantity live apart =
      elim (Bool-cases (ltb_ℤ (pos 0) (remaining current quantity))) [
        | inl more ↦
            let left = a.div (a.of_ℤ (remaining current quantity)) (a.dec scaling_factor 0) in
            let next = residual current (residual_order_uuid key trade_id) left in
            let (less, adds) = remaining_pos current quantity more in
            rw more (
              refl,
              (
                next,
                lookup-insert_self key next live,
                (refl, refl, refl, refl, less, rw (scale_scaled r) adds),
              ),
              lookup-insert_ne key other next live apart,
            )
        | inr done ↦ rw done (
          refl,
          (
            current,
            lookup-insert_self key current live,
            (refl, remaining_nonpos current quantity done),
          ),
          lookup-insert_ne key other current live apart,
        )
      ]

-- What a match reports of the trade that it settles.
abbrev pub Entry : Type 0 → Type 0
Entry F = String × F × F

abbrev pub match_entry : {F : Type 0} → Match F → Entry F
match_entry m = (m.trade_id, m.selected_energy_kwh, m.clearing_price)

abbrev pub trade_entry : {F : Type 0} → IntTrade F → Entry F
trade_entry t = (t.trade_id, t.trade_quantity, t.trade_price)

-- The matches filed under a market.
abbrev pub matches_of : {F : Type 0} → List ℕ → Dict (List ℕ) (List (Match F)) → List (Match F)
matches_of k d = elim (lookup k d) [ none ↦ [] | some ms ↦ ms ]

abbrev pub prepend_if : {E : Type 0} → List ℕ → Result (List ℕ) → E → List E → List E
prepend_if k (ok m) x xs = if m == k then x ∷ xs else xs
prepend_if k (err _) x xs = xs

-- The trades of a market, in their order.
abbrev pub trades_of : {F : Type 0} → List ℕ → List (IntTrade F) → List (Entry F)
trades_of k [] = []
trades_of k (t ∷ ts) = prepend_if k (uuid_to_bytes16 t.market_id) (trade_entry t) (trades_of k ts)

module _ {F : Type 0} where
  matches_of-append_match :
      (j k : List ℕ) (m : Match F) (d : Dict (List ℕ) (List (Match F)))
      → matches_of k (append_match j m d)
        ≡ (if j == k then matches_of k d ++ (m ∷ []) else matches_of k d)
  matches_of-append_match j k m [] = ground arith
  matches_of-append_match j k m ((i, ms) ∷ d) = ground (
    arith,
    bytes_eq.beq_iff j k,
    bytes_eq.beq_iff i j,
    bytes_eq.beq_iff i k,
    matches_of-append_match j k m d,
  )

module _ {F : Type 0} ⦃a : Arith F⦄ ⦃h : Host⦄ where
  -- A round of the loop files one match, with the numbers of its trade.
  abbrev Files : IntTrade F → Building F → Building F → Type 0
  Files t b b' =
      (j : List ℕ) × (m : Match F) × (uuid_to_bytes16 t.market_id ≡ ok j)
      × (match_entry m ≡ trade_entry t)
      × (b'.matches_by_market ≡ append_match j m b.matches_by_market)

  add_match-Files :
      (t : IntTrade F) (bid : OrderParams F) (rb : Option String) (offer : OrderParams F)
      (ro : Option String) (kind : ℕ) (live : Dict String (OrderParams F))
      (pool : List (OrderParams F)) (b : Building F)
      → Post (Files t b) (add_match t bid rb offer ro kind live pool b.matches_by_market)
  unfolding add_match
  add_match-Files t bid rb offer ro kind live pool b =
      Post->>=_eq (uuid_to_bytes16 t.market_id) _ λ j e. returns (j, _, e, refl, refl)

  module _ (orders : Dict String (IntOrder F)) (pool_actor : String) (hi lo : F) where
    build_trade-Files :
        (t : IntTrade F) (b : Building F)
        → Post (Files t b) (build_trade orders pool_actor hi lo t b)
    unfolding build_trade build_direct build_buyer_pool build_pool_seller
    build_trade-Files t b = search (post_rules, add_match-Files) depth 12

    -- The trades of a market before and after a round.
    Files-trades_of :
        (t : IntTrade F) (ts : List (IntTrade F)) (b b' : Building F) (k : List ℕ)
        → Files t b b'
        → map match_entry (matches_of k b'.matches_by_market) ++ trades_of k ts
          ≡ map match_entry (matches_of k b.matches_by_market) ++ trades_of k (t ∷ ts)
    Files-trades_of t ts b b' k (j, m, e, same, filed) =
        rw (filed, matches_of-append_match j k m b.matches_by_market, e)
          (elim (Bool-cases (j == k)) [
            | inl here ↦ rw here (simp (map-append, append_assoc, same))
            | inr other ↦ rw other
          ])

    build_trades-trades_of :
        (ts : List (IntTrade F)) (b : Building F)
        → Post
            (λ b'.
              (k : List ℕ)
              → map match_entry (matches_of k b'.matches_by_market)
                ≡ map match_entry (matches_of k b.matches_by_market) ++ trades_of k ts)
            (build_trades orders pool_actor hi lo ts b)
    unfolding build_trades
    build_trades-trades_of [] b = returns λ k. sym (append-nil _)
    build_trades-trades_of (t ∷ ts) b =
        Post->>=_eq (build_trade orders pool_actor hi lo t b) _ λ b1 e.
          Post-mono (build_trades-trades_of ts b1)
            λ b' ih k. ih k ∙ Files-trades_of t ts b b1 k (Post-ok (build_trade-Files t b) e)

    -- If the loop over the trades returns, then the matches filed under each market are the trades
    -- of that market: as many, in the same order, with the same ids, energies and prices.
    pub build_trades_lem :
        (trades : List (IntTrade F)) (b : Building F) (market : List ℕ)
        → build_trades orders pool_actor hi lo trades no_building ≡ ok b
        → map match_entry (matches_of market b.matches_by_market) ≡ trades_of market trades
    build_trades_lem trades b market e =
        Post-ok (build_trades-trades_of trades no_building) e market

    -- A trade with the pool on both sides makes the whole build raise a `ValueError`, if the trades
    -- before it are built.
    build_trades_both_pool :
        (before after : List (IntTrade F)) (t : IntTrade F) (b b' : Building F)
        → build_trades orders pool_actor hi lo before b ≡ ok b'
        → t.buyer_id ≡ pool_actor
        → t.seller_id ≡ pool_actor
        → build_trades orders pool_actor hi lo (before ++ (t ∷ after)) b ≡ err value_error
    unfolding build_trades build_trade
    build_trades_both_pool [] after t b b' e buyer seller = rw (
      (string_eq.beq_iff t.buyer_id pool_actor).1 buyer,
      (string_eq.beq_iff t.seller_id pool_actor).1 seller,
    )
    build_trades_both_pool (x ∷ before) after t b b' e buyer seller =
        elim (Result-cases (build_trade orders pool_actor hi lo x b)) [
          | inl (b1, e1) ↦
              rw e1 (build_trades_both_pool before after t b1 b' (rw e1 at e) buyer seller)
          | inr (x1, e1) ↦ absurd (cc (rw e1 at e))
        ]
