-- ===== src/Clearing/Retry.antt =====
-- amm-clearing-node/src/retry.py: bounded retries with exponential backoff.
pub mod Bounds
use ammba_uoc.Prelude.{
  ℕ, zero, suc, ◌^◌, Bool, true, false, not, ◌||◌, List, [], ◌∷◌, any, ◌==◌, nat_eq, if◌then◌else◌,
}
use ammba_uoc.Prelude.Int.{pos}
use ammba_uoc.Arith.{Arith, min_of}

abbrev pub retryable_status : List ℕ
retryable_status = 500 ∷ 502 ∷ 503 ∷ 504 ∷ []

-- What one HTTP request ends with: a response by its status, or a transport error.
pub data Attempt : Type 0 where
  response : ℕ → Attempt
  transport_error : Attempt

-- What the function ends with: the response or the error of an attempt, or neither.
pub data Ending : Type 0 where
  attempted : Attempt → Ending
  exited_unexpectedly : Ending

unfoldable pub is_retryable : Attempt → Bool
is_retryable transport_error = true
is_retryable (response status) = any (λ s. s == status) retryable_status

-- The ending, the number of requests, and the sleeps between them.
pub record Outcome (F : Type 0) : Type 0 where
  pub ending : Ending
  pub requests : ℕ
  pub sleeps : List F

-- `is_last` for the attempt `attempts - 1`
abbrev pub is_last : ℕ → Bool
is_last zero = true
is_last (suc n) = false

module _ {F : Type 0} ⦃a : Arith F⦄ (request : ℕ → Attempt) (uniform : ℕ → F)
    (base_delay_s max_delay_s : F) where
  -- `delay * random.uniform(0.75, 1.25)` after an attempt
  unfoldable pub sleep_after : ℕ → F
  sleep_after attempt =
      a.mul (min_of (a.mul base_delay_s (a.of_ℤ (pos (2 ^ attempt)))) max_delay_s) (uniform attempt)

  -- The loop at an attempt, with the number of attempts left. Its end is reached only without one:
  -- the last attempt returns or raises.
  unfoldable pub retry_loop : ℕ → ℕ → Outcome F
  unfolding is_retryable sleep_after
  retry_loop zero attempt = record { ending = exited_unexpectedly; requests = 0; sleeps = [] }
  retry_loop (suc left) attempt =
      let rest = retry_loop left (suc attempt) in
      if not (is_retryable (request attempt)) || is_last left
      then record { ending = attempted (request attempt); requests = 1; sleeps = [] }
      else record {
        ending = rest.ending;
        requests = suc rest.requests;
        sleeps = sleep_after attempt ∷ rest.sleeps;
      }

  unfoldable pub request_with_retries : ℕ → Outcome F
  unfolding retry_loop
  request_with_retries attempts = retry_loop attempts 0
