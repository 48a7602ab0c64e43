-- ===== src/Clearing/Ewds/Answers.antt =====
-- Which data the polls of a query return, and that a response in time is found.
use ammba_uoc.Prelude.{
  ℕ, zero, suc, ◌+◌, ◌≤◌, ◌≡◌, refl, sym, ap, subst, ◌∙◌, ◌⊎◌, inl, inr, false, Option, none, some,
  List, [], ◌∷◌, length, leb, All, arith, Result, ok, err, ok-injective, bind-ok_iff, raise_if,
  raise_if-ok, ewds_timeout,
}
use ammba_uoc.Prelude.Int.{ℤ}
use ammba_uoc.Arith.{Arith}
use ammba_uoc.Wire.Json.{Json}
use ammba_uoc.Clearing.Orders.{default_to}
use ammba_uoc.Clearing.Ewds.Messages.{Gateway, request, check_status, read_messages}
use ammba_uoc.Clearing.Ewds.Polling.{
  Polled, at_once, ended, slept, deadline, poll_once, sleep_of, poll_loop,
}
use ammba_uoc.Clearing.Ewds.Reading.{
  IsForeign, HoldResponse, read_messages-none, read_messages-response, read_messages-cases,
}

ended-ok :
    {F : Type 0} (r : Result (Option (Json F))) (rest : Polled F) (found : Json F)
    → (ended r rest).answer ≡ ok found
    → (r ≡ ok (some found)) ⊎ ((r ≡ ok none) × (rest.answer ≡ ok found))
unfolding ended
ended-ok (err e) rest found h = absurd (ground arith)
ended-ok (ok none) rest found h = inr (refl, h)
ended-ok (ok (some v)) rest found h = inl (ap (λ w. ok (some w)) (ok-injective h))

some-injective : {F : Type 0} {v w : Json F} → some v ≡ some w → v ≡ w
some-injective {v} e = ap (λ o. default_to o v) e

module _ {F : Type 0} ⦃a : Arith F⦄ (gateway : Gateway F) (request_id : List ℕ)
    (timeout_ms : ℤ) where
  -- A poll before the deadline that the gateway answers, after retries, with a status below 300.
  abbrev pub Delivers : ℕ → List (Json F) → Type 0
  Delivers n messages =
      (a.lt (deadline gateway request_id timeout_ms) (gateway.before n) ≡ false)
      × ((status : ℕ) × ((request (gateway.fetch n) (gateway.fetch_uniform n) ≡ ok status)
            × ((leb 300 status ≡ false) × (gateway.body n ≡ ok messages))))

  abbrev pub DeliversNone : ℕ → Type 0
  DeliversNone n =
      (messages : List (Json F)) × (Delivers n messages
        × All (IsForeign gateway.loads request_id) messages)

  abbrev pub DeliversResponse : ℕ → Json F → Type 0
  DeliversResponse n found =
      (messages : List (Json F)) × (Delivers n messages
        × HoldResponse gateway.loads request_id found messages)

  -- As many polls, from one on, that deliver foreign messages only.
  abbrev pub NoneIn : ℕ → ℕ → Type 0
  NoneIn from zero = Unit
  NoneIn from (suc k) = DeliversNone from × NoneIn (suc from) k

  poll_once-Delivers :
      (n : ℕ) (messages : List (Json F))
      → Delivers n messages
      → poll_once gateway request_id timeout_ms n ≡ read_messages gateway.loads request_id messages
  unfolding poll_once
  poll_once-Delivers n messages (early, (status, (e, (fine, body)))) =
      rw (early, e, fine, body) refl

  poll_once-cases :
      (n : ℕ) (result : Option (Json F))
      → poll_once gateway request_id timeout_ms n ≡ ok result
      → (messages : List (Json F)) × (Delivers n messages
          × (read_messages gateway.loads request_id messages ≡ ok result))
  unfolding poll_once
  poll_once-cases n result h =
      let late = a.lt (deadline gateway request_id timeout_ms) (gateway.before n) in
      let (_, (early, h₁)) = (bind-ok_iff (raise_if late ewds_timeout) _ result).0 h in
      let (status, (e, h₂)) =
        (bind-ok_iff (request (gateway.fetch n) (gateway.fetch_uniform n)) _ result).0 h₁ in
      let (_, (fine, h₃)) = (bind-ok_iff (check_status status) _ result).0 h₂ in
      let (messages, (body, h₄)) = (bind-ok_iff (gateway.body n) _ result).0 h₃ in
      (
        messages,
        (
          (
            raise_if-ok late _ _ early,
            (status, (e, (raise_if-ok (leb 300 status) _ _ fine, body))),
          ),
          h₄,
        ),
      )

  poll_once-none : (n : ℕ) → DeliversNone n → poll_once gateway request_id timeout_ms n ≡ ok none
  poll_once-none n (messages, (delivered, foreign)) =
      poll_once-Delivers n messages delivered
      ∙ read_messages-none gateway.loads request_id messages foreign

  poll_once-found :
      (n : ℕ) (found : Json F)
      → DeliversResponse n found
      → poll_once gateway request_id timeout_ms n ≡ ok (some found)
  poll_once-found n found (messages, (delivered, held)) =
      poll_once-Delivers n messages delivered
      ∙ read_messages-response gateway.loads request_id found messages held

  poll_loop-found :
      (delays : List ℤ) (n : ℕ) (found : Json F)
      → poll_once gateway request_id timeout_ms n ≡ ok (some found)
      → poll_loop gateway request_id timeout_ms delays n ≡ at_once (ok found)
  unfolding poll_loop
  poll_loop-found [] n found e = ap (λ r. ended r (at_once (err ewds_timeout))) e
  poll_loop-found (d ∷ ds) n found e =
      ap
        (λ r. ended r (
          slept (sleep_of gateway request_id timeout_ms d n)
            (poll_loop gateway request_id timeout_ms ds (suc n))))
        e

  poll_loop-none :
      (d : ℤ) (ds : List ℤ) (n : ℕ)
      → poll_once gateway request_id timeout_ms n ≡ ok none
      → poll_loop gateway request_id timeout_ms (d ∷ ds) n
        ≡ slept
            (sleep_of gateway request_id timeout_ms d n)
            (poll_loop gateway request_id timeout_ms ds (suc n))
  unfolding poll_loop
  poll_loop-none d ds n e =
      ap
        (λ r. ended r (
          slept (sleep_of gateway request_id timeout_ms d n)
            (poll_loop gateway request_id timeout_ms ds (suc n))))
        e

  -- A response that arrives in time is returned: if the gateway delivers every poll up to one that the
  -- delays still allow, each before the deadline and with a status below 300, and only that poll
  -- delivers a successful response to the own request, behind foreign messages, then the loop returns
  -- its data, after one sleep for each earlier poll.
  pub poll_loop_complete :
      (delays : List ℤ) (from k : ℕ) (found : Json F)
      → k ≤ length delays
      → NoneIn from k
      → DeliversResponse (from + k) found
      → let polled = poll_loop gateway request_id timeout_ms delays from in
        (polled.answer ≡ ok found) × (length polled.sleeps ≡ k)
  poll_loop_complete delays from zero found bound _ last =
      let now = subst (λ n. DeliversResponse n found) (omega arith) last in
      subst (λ p. (p.answer ≡ ok found) × (length p.sleeps ≡ 0))
        (sym (poll_loop-found delays from found (poll_once-found from found now))) (refl, refl)
  poll_loop_complete [] from (suc k) found bound _ _ = absurd (omega (arith, bound))
  poll_loop_complete (d ∷ ds) from (suc k) found bound (first, nones) last =
      let shift : from + suc k ≡ suc from + k = omega arith in
      let next = subst (λ n. DeliversResponse n found) shift last in
      let (answer, count) =
        poll_loop_complete ds (suc from) k found (omega (arith, bound)) nones next in
      subst (λ p. (p.answer ≡ ok found) × (length p.sleeps ≡ suc k))
        (sym (poll_loop-none d ds from (poll_once-none from first))) (answer, ap suc count)

  -- What one poll that returns leads to.
  poll_once_sound :
      (n : ℕ) (result : Option (Json F))
      → poll_once gateway request_id timeout_ms n ≡ ok result
      → ((result ≡ none) × DeliversNone n)
        ⊎ ((found : Json F) × (DeliversResponse n found × (result ≡ some found)))
  poll_once_sound n result h =
      let (messages, (delivered, e)) = poll_once-cases n result h in
      elim (read_messages-cases gateway.loads request_id messages result e) [
        | inl (none_yet, foreign) ↦ inl (none_yet, (messages, (delivered, foreign)))
        | inr (found, (held, e')) ↦ inr (found, ((messages, (delivered, held)), e'))
      ]

  response_now :
      (n : ℕ) (found : Json F)
      → poll_once gateway request_id timeout_ms n ≡ ok (some found)
      → DeliversResponse (n + 0) found
  response_now n found e = elim (poll_once_sound n (some found) e) [
    | inl (wrong, _) ↦ absurd (ground arith)
    | inr (found', (delivers, same)) ↦
        subst (λ v. DeliversResponse (n + 0) v) (sym (some-injective same))
          (subst (λ m. DeliversResponse m found') (omega arith) delivers)
  ]

  none_now : (n : ℕ) → poll_once gateway request_id timeout_ms n ≡ ok none → DeliversNone n
  none_now n e = elim (poll_once_sound n none e) [
    | inl (_, delivers) ↦ delivers
    | inr (found, (_, wrong)) ↦ absurd (ground arith)
  ]

  -- Only data of the own response is returned: if the loop returns, a poll that the delays allow was
  -- delivered before the deadline with a status below 300 and held a successful response to the own
  -- request with these data, behind foreign messages only, and so were the polls before it, which held
  -- foreign messages only.
  pub poll_loop_sound :
      (delays : List ℤ) (from : ℕ) (found : Json F)
      → (poll_loop gateway request_id timeout_ms delays from).answer ≡ ok found
      → (k : ℕ) × ((k ≤ length delays) × (NoneIn from k × DeliversResponse (from + k) found))
  unfolding poll_loop
  poll_loop_sound [] from found h =
      elim (ended-ok (poll_once gateway request_id timeout_ms from) _ found h) [
        | inl e ↦ (zero, (omega arith, (tt, response_now from found e)))
        | inr (e, timeout) ↦ absurd (ground arith)
      ]
  poll_loop_sound (d ∷ ds) from found h =
      elim (ended-ok (poll_once gateway request_id timeout_ms from) _ found h) [
        | inl e ↦ (zero, (omega arith, (tt, response_now from found e)))
        | inr (e, h') ↦
            let (k, (bound, (nones, last))) = poll_loop_sound ds (suc from) found h' in
            (
              suc k,
              (
                omega (arith, bound),
                (
                  (none_now from e, nones),
                  subst (λ n. DeliversResponse n found) (omega arith) last,
                ),
              ),
            )
      ]
