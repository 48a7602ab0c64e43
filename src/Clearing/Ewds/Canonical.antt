-- ===== src/Clearing/Ewds/Canonical.antt =====
-- The orders and trades that the client of the gateway returns.
use ammba_uoc.Prelude.{
  ℕ, ◌≡◌, true, false, List, [], ◌∷◌, concat, All, All-append, bytes_eq, Bool-cases, Result-cases,
  inl, inr, Result, ok, map_result, ap, ◌∙◌, Post, Post->>=, Post->>=_eq, Post-ok, Post-ok_intro,
  returns, string_eq,
}
use ammba_uoc.Prelude.Int.{ℤ}
use ammba_uoc.Arith.{Arith}
use ammba_uoc.Wire.Json.{Json, Fields, truth}
use ammba_uoc.Clearing.MarketIds.{Python, storage_market_id}
use ammba_uoc.Clearing.Dialects.{Printer, str_of, is_empty, fields_of, ewds_order_to_int_order}
use ammba_uoc.Clearing.Dialects.Canonical.{ewds_order_to_int_order_idem}
use ammba_uoc.Clearing.Ewds.{EwdsConfig, Bus, query}
use ammba_uoc.Clearing.Ewds.Client.{
  elements, kept, normalized_each, filter_result, trades_market, get_orders, get_trades,
}

module _ {F A : Type 0} (normalize : Fields F → Result A) (P : A → Type 0)
    (h : (d : Fields F) → Post P (normalize d)) where
  kept-All : (dto : Json F) → Post (All P) (kept normalize dto)
  unfolding kept
  kept-All dto = Post->>= (fields_of dto) _ λ d. elim (Result-cases (normalize d)) [
    | inl (x, e) ↦ rw e (returns (Post-ok (h d) e, tt))
    | inr (exn, e) ↦ rw e (returns tt)
  ]

  each-All :
      (dtos : List (Json F)) → Post (λ xss. All P (concat xss)) (map_result (kept normalize) dtos)
  unfolding map_result
  each-All [] = returns tt
  each-All (dto ∷ dtos) = Post->>=_eq (kept normalize dto) _ λ xs first.
      Post->>=_eq (map_result (kept normalize) dtos) _ λ xss rest.
        returns (
          All-append P xs (concat xss) (Post-ok (kept-All dto) first)
            (Post-ok (each-All dtos) rest))

  normalized_each-All : (received : Json F) → Post (All P) (normalized_each normalize received)
  unfolding normalized_each
  normalized_each-All received = Post->>= (elements received) _ λ dtos.
      Post->>=_eq (map_result (kept normalize) dtos) _ λ xss e. returns (Post-ok (each-All dtos) e)

module _ {F : Type 0} (test : Json F → Result _) where
  -- What a filter keeps passes its test.
  filter_result-All :
      (xs : List (Json F)) → Post (All (λ x. test x ≡ ok true)) (filter_result test xs)
  unfolding filter_result
  filter_result-All [] = returns tt
  filter_result-All (x ∷ xs) = Post->>=_eq (test x) _ λ keeps e.
      Post->>=_eq (filter_result test xs) _ λ rest e'. elim (Bool-cases keeps) [
        | inl passes ↦ rw passes (returns (e ∙ ap ok passes, Post-ok (filter_result-All xs) e'))
        | inr fails ↦ rw fails (returns (Post-ok (filter_result-All xs) e'))
      ]

module _ {F : Type 0} ⦃a : Arith F⦄ ⦃py : Python⦄ ⦃p : Printer F⦄ (bus : Bus F)
    (config : EwdsConfig) where
  module _ (printed : (v : Json F) → truth v ≡ true → is_empty (str_of v) ≡ false) where
    -- Whatever dialect the gateway answers in, each order that the client returns is canonical: the
    -- normalization returns it as it is. Python's `str` of a value that counts as true is not empty.
    pub get_orders-Canonical :
        (market_id : List ℕ) (start_time end_time : ℤ) (orders : List (Fields F))
        → get_orders bus config market_id start_time end_time ≡ ok orders
        → All (λ n. ewds_order_to_int_order n ≡ ok n) orders
    unfolding get_orders
    get_orders-Canonical market_id start_time end_time orders e =
        Post-ok
          (Post->>= (py.unix_to_iso start_time) _ λ start.
            Post->>= (py.unix_to_iso end_time) _ λ stop.
              Post->>= (query bus config "orders.query" _) _ λ received.
                normalized_each-All (λ dto. ewds_order_to_int_order dto)
                  (λ n. ewds_order_to_int_order n ≡ ok n) canonical received)
          e
      where
        canonical :
            (d : Fields F)
            → Post (λ n. ewds_order_to_int_order n ≡ ok n) (ewds_order_to_int_order d)
        canonical d =
            Post-ok_intro (ewds_order_to_int_order d)
              (λ n. ewds_order_to_int_order_idem printed d n)

  -- Every trade that the client returns is of the market that was asked for, in either form of its id.
  pub get_trades-market :
      (market_id : List ℕ) (trades : List (Json F))
      → get_trades bus config market_id ≡ ok trades
      → All (λ t. trades_market (storage_market_id market_id) t ≡ ok true) trades
  unfolding get_trades
  get_trades-market market_id trades e =
      Post-ok
        (Post->>= (query bus config "trades.query" _) _ λ received.
          Post->>= (elements received) _
            λ ts. filter_result-All (λ t. trades_market (storage_market_id market_id) t) ts)
        e
