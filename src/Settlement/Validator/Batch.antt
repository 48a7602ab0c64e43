-- ===== src/Settlement/Validator/Batch.antt =====
-- A market that the batch validation does not report has no violation.
use ammba_uoc.Prelude.{
  ◌⊎◌, String, true, false, ◌≡◌, refl, List, [], ◌∷◌, All, arith, Bool-cases, inl, inr, string_eq,
}
use ammba_uoc.Prelude.Dict.{Dict, contains, contains-insert}
use ammba_uoc.Arith.{Arith}
use ammba_uoc.Settlement.Structs.{MarketSettlement}
use ammba_uoc.Settlement.Validator.{
  Violation, validate_settlement, file_violations, validate_from, validate_batch,
}

contains-file_violations :
    (k m : String) (vs : List Violation) (d : Dict String (List Violation))
    → contains k d ≡ true
    → contains k (file_violations m vs d) ≡ true
contains-file_violations k m [] d h = h
contains-file_violations k m (v ∷ vs) d h = ground (arith, contains-insert m k (v ∷ vs) d)

filed :
    (m : String) (vs : List Violation) (d : Dict String (List Violation))
    → contains m (file_violations m vs d) ≡ false
    → vs ≡ []
filed m [] d h = refl
filed m (v ∷ vs) d h = ground (arith, contains-insert m m (v ∷ vs) d, string_eq.beq_iff m m)

module _ {F : Type 0} ⦃a : Arith F⦄ where
  contains-validate_from :
      (k : String) (ss : List (MarketSettlement F)) (d : Dict String (List Violation))
      → contains k d ≡ true
      → contains k (validate_from ss d) ≡ true
  unfolding validate_from
  contains-validate_from k [] d h = h
  contains-validate_from k (s ∷ ss) d h =
      contains-validate_from k ss _
        (contains-file_violations k s.market_id (validate_settlement s) d h)

  validate_from_lem :
      (ss : List (MarketSettlement F)) (d : Dict String (List Violation))
      → All (λ s. contains s.market_id (validate_from ss d) ≡ false → validate_settlement s ≡ []) ss
  unfolding validate_from
  validate_from_lem [] d = tt
  validate_from_lem (s ∷ ss) d =
      let d' = file_violations s.market_id (validate_settlement s) d in
      (
        λ h. elim (Bool-cases (contains s.market_id d')) [
          | inl known ↦ ground (arith, contains-validate_from s.market_id ss d' known)
          | inr new ↦ filed s.market_id (validate_settlement s) d new
        ],
        validate_from_lem ss d',
      )

  -- A market whose id is not among the reported ones has no violation.
  pub validate_batch-passed :
      (ss : List (MarketSettlement F))
      → All (λ s. contains s.market_id (validate_batch ss) ≡ false → validate_settlement s ≡ []) ss
  unfolding validate_batch
  validate_batch-passed ss = validate_from_lem ss []

  reported_or_passed :
      (xs ss : List (MarketSettlement F))
      → All (λ s. contains s.market_id (validate_batch ss) ≡ false → validate_settlement s ≡ []) xs
      → All
          (λ s. (contains s.market_id (validate_batch ss) ≡ true) ⊎ (validate_settlement s ≡ []))
          xs
  reported_or_passed [] ss h = tt
  reported_or_passed (x ∷ xs) ss (f, fs) = (
    elim (Bool-cases (contains x.market_id (validate_batch ss))) [
      | inl reported ↦ inl reported
      | inr passed ↦ inr (f passed)
    ],
    reported_or_passed xs ss fs,
  )

  -- Each market of a batch has its id among the reported ones, or has no violation.
  pub validate_batch_lem :
      (ss : List (MarketSettlement F))
      → All
          (λ s. (contains s.market_id (validate_batch ss) ≡ true) ⊎ (validate_settlement s ≡ []))
          ss
  validate_batch_lem ss = reported_or_passed ss ss (validate_batch-passed ss)
