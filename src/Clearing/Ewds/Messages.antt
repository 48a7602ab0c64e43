-- ===== src/Clearing/Ewds/Messages.antt =====
-- amm-clearing-node/src/ewds_client.py, `_poll`: the messages of a response, and the loop over polls.
use ammba_uoc.Prelude.{
  ℕ, Bool, false, Option, none, some, List, [], ◌∷◌, leb, ◌==◌, nat_eq, string_eq, bytes_eq,
  if◌then◌else◌, Exn, Result, ok, err, ewds_error, attribute_error,
  transport_error as transport_failed, runtime_error, raise_if,
}
use ammba_uoc.Arith.{Arith}
use ammba_uoc.Wire.Json.{Json, Fields, string, array, object, nil, end, get, truth, or_else}
use ammba_uoc.Clearing.Dialects.{fields_of}
use ammba_uoc.Clearing.Retry.{
  Attempt, response, transport_error, Ending, attempted, exited_unexpectedly, request_with_retries,
}

-- The gateway as the client meets it in one query, and the clock: the attempts of the publishing POST;
-- for each poll its attempts and the messages that `resp.json()` iterates over; `json.loads`, with
-- `none` for a JSONDecodeError; the jitter of the retries; `time.monotonic()` when the polling starts,
-- and before and after each poll.
pub record Gateway (F : Type 0) : Type 0 where
  pub publish : ℕ → Attempt
  pub fetch : ℕ → ℕ → Attempt
  pub body : ℕ → Result (List (Json F))
  pub loads : List ℕ → Option (Json F)
  pub publish_uniform : ℕ → F
  pub fetch_uniform : ℕ → ℕ → F
  pub started : F
  pub before : ℕ → F
  pub after : ℕ → F

-- The response of a request with retries, or what it raises.
unfoldable pub status_of : Ending → Result ℕ
status_of (attempted (response status)) = ok status
status_of (attempted transport_error) = err transport_failed
status_of exited_unexpectedly = err runtime_error

-- `if resp.status_code >= 300: raise`
unfoldable pub check_status : ℕ → Result (Unit {0})
check_status status = raise_if (leb 300 status) ewds_error

module _ {F : Type 0} ⦃a : Arith F⦄ where
  -- A request with the defaults of retry.py.
  unfoldable pub request : (ℕ → Attempt) → (ℕ → F) → Result ℕ
  unfolding status_of request_with_retries
  request attempt uniform =
      status_of (request_with_retries attempt uniform (a.dec 25 2) (a.dec 2 0) 3).ending

  -- `parsed.get("requestId") or parsed.get("request_id")`
  unfoldable pub is_own : List ℕ → Fields F → Bool
  is_own request_id parsed = elim (or_else (get "requestId" parsed) (get "request_id" parsed)) [
    | string text ↦ text == request_id
    | _ ↦ false
  ]

  -- the exception for a response without success: `error` is read as a dict
  unfoldable pub failure : Fields F → Exn
  failure parsed = elim (or_else (get "error" parsed) (object end)) [
    | object d ↦ ewds_error
    | _ ↦ attribute_error
  ]

  -- What a parsed message ends the search with, if anything.
  unfoldable pub read_own : Fields F → Result (Option (Json F))
  unfolding failure
  read_own parsed =
      if truth (get "success" parsed)
      then ok (some (or_else (get "data" parsed) (array nil)))
      else err (failure parsed)

  unfoldable pub read_parsed :
      List ℕ → Result (Fields F) → Result (Option (Json F)) → Result (Option (Json F))
  unfolding is_own read_own
  read_parsed request_id (err e) rest = err e
  read_parsed request_id (ok parsed) rest =
      if is_own request_id parsed then read_own parsed else rest

  unfoldable pub read_payload :
      List ℕ → Option (Json F) → Result (Option (Json F)) → Result (Option (Json F))
  unfolding read_parsed fields_of
  read_payload request_id none rest = rest
  read_payload request_id (some parsed) rest = read_parsed request_id (fields_of parsed) rest

  module _ (loads : List ℕ → Option (Json F)) where
    -- `json.loads(message["payload"])`, or nothing for an exception that the loop passes over
    unfoldable pub payload_of : Json F → Option (Json F)
    payload_of (object d) = elim (get "payload" d) [ string text ↦ loads text | _ ↦ none ]
    payload_of _ = none

    -- `for message in resp.json()`
    unfoldable pub read_messages : List ℕ → List (Json F) → Result (Option (Json F))
    unfolding payload_of read_payload
    read_messages request_id [] = ok none
    read_messages request_id (message ∷ messages) =
        read_payload request_id (payload_of message) (read_messages request_id messages)
