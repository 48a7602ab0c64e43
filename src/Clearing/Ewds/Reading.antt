-- ===== src/Clearing/Ewds/Reading.antt =====
-- amm-clearing-node/src/ewds_client.py, `_poll`: what the messages hold, and what reading them gives.
use ammba_uoc.Prelude.{
  ℕ, ◌≡◌, refl, sym, ap, ◌∙◌, ◌⊎◌, inl, inr, true, false, Option, none, some, List, [], ◌∷◌, ◌++◌,
  All, arith, Bool-cases, Result, ok, err, ok-injective, if◌then◌else◌,
}
use ammba_uoc.Arith.{Arith}
use ammba_uoc.Wire.Json.{Json, Fields, array, object, nil, get, truth, or_else}
use ammba_uoc.Clearing.Ewds.Messages.{
  payload_of, is_own, failure, read_own, read_payload, read_messages,
}

module _ {F : Type 0} ⦃a : Arith F⦄ (loads : List ℕ → Option (Json F)) (request_id : List ℕ) where
  -- A message that cannot be read, or an object that answers another request.
  abbrev pub IsForeign : Json F → Type 0
  IsForeign message =
      (payload_of loads message ≡ none)
      ⊎ ((parsed : Fields F) × ((payload_of loads message ≡ some (object parsed))
            × (is_own request_id parsed ≡ false)))

  -- A successful response to the own request, with its data.
  abbrev pub RespondsWith : Json F → Json F → Type 0
  RespondsWith found message =
      (parsed : Fields F) × ((payload_of loads message ≡ some (object parsed))
        × ((is_own request_id parsed ≡ true)
            × ((truth (get "success" parsed) ≡ true)
                × (found ≡ or_else (get "data" parsed) (array nil)))))

  -- The messages hold such a response, and before it foreign messages only.
  abbrev pub HoldResponse : Json F → List (Json F) → Type 0
  HoldResponse found messages =
      (earlier : List (Json F)) × ((message : Json F) × ((later : List (Json F)) × ((messages
              ≡ earlier ++ (message ∷ later))
            × (All IsForeign earlier × RespondsWith found message))))

  read_payload-foreign :
      (message : Json F) (rest : _)
      → IsForeign message
      → read_payload request_id (payload_of loads message) rest ≡ rest
  unfolding read_payload
  read_payload-foreign message rest (inl e) = rw e refl
  read_payload-foreign message rest (inr (parsed, (e, other))) = rw e (rw other refl)

  read_messages-foreign :
      (messages rest : List (Json F))
      → All IsForeign messages
      → read_messages loads request_id (messages ++ rest) ≡ read_messages loads request_id rest
  unfolding read_messages
  read_messages-foreign [] rest _ = refl
  read_messages-foreign (m ∷ ms) rest (h, hs) =
      read_payload-foreign m _ h ∙ read_messages-foreign ms rest hs

  pub read_messages-none :
      (messages : List (Json F))
      → All IsForeign messages
      → read_messages loads request_id messages ≡ ok none
  unfolding read_messages
  read_messages-none [] _ = refl
  read_messages-none (m ∷ ms) (h, hs) = read_payload-foreign m _ h ∙ read_messages-none ms hs

  read_payload-response :
      (found message : Json F) (rest : _)
      → RespondsWith found message
      → read_payload request_id (payload_of loads message) rest ≡ ok (some found)
  unfolding read_payload
  read_payload-response found message rest (parsed, (e, (own, (success, same)))) =
      rw e (rw (own, success) (ap (λ v. ok (some v)) (sym same)))

  pub read_messages-response :
      (found : Json F) (messages : List (Json F))
      → HoldResponse found messages
      → read_messages loads request_id messages ≡ ok (some found)
  unfolding read_messages
  read_messages-response found messages (earlier, (m, (later, (e, (foreign, responds))))) =
      rw e (
        read_messages-foreign earlier (m ∷ later) foreign
        ∙ read_payload-response found m _ responds)

  -- A message either is foreign, or ends the search.
  abbrev ForeignOrFound : Json F → Result (Option (Json F)) → Option (Json F) → Type 0
  ForeignOrFound message rest result =
      (IsForeign message × (rest ≡ ok result))
      ⊎ ((found : Json F) × (RespondsWith found message × (result ≡ some found)))

  payload-cases :
      (o : Option (Json F)) (message : Json F) (rest : _) (result : Option (Json F))
      → payload_of loads message ≡ o
      → read_payload request_id o rest ≡ ok result
      → ForeignOrFound message rest result
  unfolding read_payload
  payload-cases none message rest result e h = inl (inl e, h)
  payload-cases (some (object parsed)) message rest result e h =
      elim (Bool-cases (is_own request_id parsed)) [
        | inr other ↦ inl (
          inr (parsed, (e, other)),
          sym (ap (λ b. if b then read_own parsed else rest) other) ∙ h,
        )
        | inl own ↦ elim (Bool-cases (truth (get "success" parsed))) [
          | inr failed ↦ absurd (ground arith)
          | inl success ↦ inr (
            or_else (get "data" parsed) (array nil),
            (
              (parsed, (e, (own, (success, refl)))),
              ok-injective (
                  sym h
                  ∙ (ap (λ b. if b then read_own parsed else rest) own
                      ∙ ap
                          (λ b.
                            if b
                            then ok (some (or_else (get "data" parsed) (array nil)))
                            else err (failure parsed))
                          success)),
            ),
          )
        ]
      ]
  payload-cases (some v) message rest result e h = absurd (ground arith)

  pub read_messages-cases :
      (messages : List (Json F)) (result : Option (Json F))
      → read_messages loads request_id messages ≡ ok result
      → ((result ≡ none) × All IsForeign messages)
        ⊎ ((found : Json F) × (HoldResponse found messages × (result ≡ some found)))
  unfolding read_messages
  read_messages-cases [] result h = inl (sym (ok-injective h), tt)
  read_messages-cases (m ∷ ms) result h =
      elim (payload-cases (payload_of loads m) m (read_messages loads request_id ms) result refl
        h) [
          | inr (found, (responds, e)) ↦ inr (found, (([], (m, (ms, (refl, (tt, responds))))), e))
          | inl (foreign, rest) ↦ elim (read_messages-cases ms result rest) [
            | inl (e, others) ↦ inl (e, (foreign, others))
            | inr (found, ((earlier, (m', (later, (e', (others, responds))))), e)) ↦ inr (
              found,
              ((m ∷ earlier, (m', (later, (ap (◌∷◌ m) e', ((foreign, others), responds))))), e),
            )
          ]
        ]
