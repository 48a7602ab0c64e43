-- ===== src/Clearing/Ewds/Polling.antt =====
-- amm-clearing-node/src/ewds_client.py, `_poll`: the loop over the polls of a query.
use ammba_uoc.Prelude.{
  ℕ, suc, Option, none, some, List, [], ◌∷◌, Result, ok, err, ewds_timeout, raise_if, ◌>>=◌, ◌>>◌,
}
use ammba_uoc.Prelude.Int.{ℤ}
use ammba_uoc.Arith.{Arith, nought, min_of, max_of}
use ammba_uoc.Wire.Json.{Json}
use ammba_uoc.Clearing.Ewds.Messages.{Gateway, request, check_status, read_messages}

-- What the polls of a query return or raise, and the sleeps between them, in seconds.
pub record Polled (F : Type 0) : Type 0 where
  pub answer : Result (Json F)
  pub sleeps : List F

module _ {F : Type 0} where
  abbrev pub at_once : Result (Json F) → Polled F
  at_once answer = record { answer = answer; sleeps = [] }

  -- What a poll ends with, given what follows when it has found nothing.
  unfoldable pub ended : Result (Option (Json F)) → Polled F → Polled F
  ended (err e) rest = at_once (err e)
  ended (ok (some found)) rest = at_once (ok found)
  ended (ok none) rest = rest

  abbrev pub slept : F → Polled F → Polled F
  slept delay rest = record { answer = rest.answer; sleeps = delay ∷ rest.sleeps }

module _ {F : Type 0} ⦃a : Arith F⦄ (gateway : Gateway F) (request_id : List ℕ)
    (timeout_ms : ℤ) where
  abbrev pub deadline : F
  deadline = a.add gateway.started (a.div (a.of_ℤ timeout_ms) (a.dec 1000 0))

  -- A poll: the data of the own response, or nothing if it is not there yet.
  unfoldable pub poll_once : ℕ → Result (Option (Json F))
  unfolding request check_status read_messages
  poll_once n = do
    raise_if (a.lt deadline (gateway.before n)) ewds_timeout
    status ← request (gateway.fetch n) (gateway.fetch_uniform n)
    check_status status
    messages ← gateway.body n
    read_messages gateway.loads request_id messages

  -- `asyncio.sleep(min(delay_ms / 1000.0, remaining_s))`
  unfoldable pub sleep_of : ℤ → ℕ → F
  sleep_of delay_ms n =
      min_of (a.div (a.of_ℤ delay_ms) (a.dec 1000 0))
        (max_of nought (a.sub deadline (gateway.after n)))

  -- The loop from a poll on, with the delays that are left.
  unfoldable pub poll_loop : List ℤ → ℕ → Polled F
  unfolding poll_once sleep_of ended
  poll_loop [] n = ended (poll_once n) (at_once (err ewds_timeout))
  poll_loop (delay_ms ∷ delays) n =
      ended (poll_once n) (slept (sleep_of delay_ms n) (poll_loop delays (suc n)))
