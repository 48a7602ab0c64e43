-- ===== src/Clearing/Retry/Bounds.antt =====
-- How often a request is tried, with what ending, and how long the waits are.
use ammba_uoc.Prelude.{
  ℕ, zero, suc, ◌+◌, ◌^◌, ◌≤◌, ◌≡◌, ◌⊎◌, inl, inr, true, false, not, ◌||◌, length, All, Bool-cases,
}
use ammba_uoc.Prelude.Int.{pos}
use ammba_uoc.Arith.{Arith, ◌≼◌, nought, min_of, IsOrdered, IsRounded}
use ammba_uoc.Arith.Facts
use ammba_uoc.Clearing.Retry.{
  Attempt, attempted, is_retryable, Outcome, is_last, sleep_after, retry_loop, request_with_retries,
}

module _ {F : Type 0} ⦃a : Arith F⦄ (request : ℕ → Attempt) (uniform : ℕ → F)
    (base_delay_s max_delay_s : F) where
  -- The attempts up to one, from another on, may be retried.
  abbrev pub AllRetryable : ℕ → ℕ → Type 0
  AllRetryable from zero = Unit
  AllRetryable from (suc n) = (is_retryable (request from) ≡ true) × AllRetryable (suc from) n

  -- The ending is that of the attempt `m`, the ones before it may be retried, and it may not or is
  -- the last one. There is one request for each attempt up to it, and a sleep between each two.
  abbrev pub EndsAt : ℕ → ℕ → Outcome F → ℕ → Type 0
  EndsAt left from o m =
      (o.ending ≡ attempted (request m))
      × (from + o.requests ≡ suc m)
      × (from + length o.sleeps ≡ m)
      × AllRetryable from (length o.sleeps)
      × ((is_retryable (request m) ≡ false) ⊎ (suc m ≡ from + left))
      × (suc m ≤ from + left)

  module _ (o : IsOrdered F) (r : IsRounded F) where
    sleeps_bounds :
        (left attempt : ℕ)
        → ((n : ℕ)
            → a.mul base_delay_s (a.of_ℤ (pos (2 ^ n))) ≼ a.mul base_delay_s (a.of_ℤ (pos (2 ^ n))))
        → nought ≼ max_delay_s
        → max_delay_s ≼ max_delay_s
        → ((n : ℕ) → (nought ≼ uniform n) × (uniform n ≼ a.dec 125 2))
        → All
            (λ x. x ≼ a.mul max_delay_s (a.dec 125 2))
            (retry_loop request uniform base_delay_s max_delay_s left attempt).sleeps
    unfolding retry_loop sleep_after
    sleeps_bounds zero attempt b p m u = tt
    sleeps_bounds (suc left) attempt b p m u =
        let rest = sleeps_bounds left (suc attempt) b p m u in
        let (u0, u1) = u attempt in
        let delay = min_of (a.mul base_delay_s (a.of_ℤ (pos (2 ^ attempt)))) max_delay_s in
        let e =
          r.mul_mono delay max_delay_s (uniform attempt) (Facts.min_of-le_right o _ _ (b attempt) m)
            u0 in
        let now =
          o.le_trans _ _ _ e (r.mul_mono_right (uniform attempt) (a.dec 125 2) max_delay_s u1 p) in
        elim (Bool-cases (not (is_retryable (request attempt)) || is_last left)) [
          | inl done ↦ rw done tt
          | inr again ↦ rw again (now, rest)
        ]

    -- Every sleep is at most the longest delay with the largest jitter, for a base delay whose
    -- doublings are numbers, a longest delay that is not negative, and jitter between 0 and 1.25.
    pub request_with_retries-sleeps :
        (attempts : ℕ)
        → ((n : ℕ)
            → a.mul base_delay_s (a.of_ℤ (pos (2 ^ n))) ≼ a.mul base_delay_s (a.of_ℤ (pos (2 ^ n))))
        → nought ≼ max_delay_s
        → ((n : ℕ) → (nought ≼ uniform n) × (uniform n ≼ a.dec 125 2))
        → All
            (λ x. x ≼ a.mul max_delay_s (a.dec 125 2))
            (request_with_retries request uniform base_delay_s max_delay_s attempts).sleeps
    unfolding request_with_retries
    request_with_retries-sleeps attempts b p u =
        sleeps_bounds attempts 0 b p (o.num_of_le _ _ p).1 u
