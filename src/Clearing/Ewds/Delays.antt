-- ===== src/Clearing/Ewds/Delays.antt =====
-- amm-clearing-node/src/ewds_client.py, `poll_delays_ms`: the sleeps between the polls of a query.
use ammba_uoc.Prelude.{
  ℕ, zero, suc, ◌≡◌, refl, ap, subst, inl, inr, true, false, ◌||◌, Option, none, some, List, [],
  ◌∷◌, All, Bool-cases, arith, if◌then◌else◌,
}
use ammba_uoc.Prelude.Int.{
  ℤ, pos, pos_part, ◌+ℤ◌, ◌≤ℤ◌, ◌<ℤ◌, ltb_ℤ, leb_ℤ, sum_ℤ, int_laws, +ℤ_parts,
}
use ammba_uoc.Arith.{Arith, ◌≼◌, nought, unit, min_of, IsOrdered, IsRounded}
use ammba_uoc.Arith.Facts

abbrev pub min_ℤ : ℤ → ℤ → ℤ
min_ℤ x y = if ltb_ℤ y x then y else x

abbrev pub max_ℤ : ℤ → ℤ → ℤ
max_ℤ x y = if ltb_ℤ x y then y else x

abbrev prepend : ℤ → Option (List ℤ) → Option (List ℤ)
prepend step none = none
prepend step (some steps) = some (step ∷ steps)

module _ {F : Type 0} ⦃a : Arith F⦄ where
  -- `POLL_BACKOFF_FACTOR`
  unfoldable pub poll_backoff_factor : F
  poll_backoff_factor = a.dec 15 1

  -- the loop on fuel, where `none` says that it has run out; `max_ms` is at least the first delay
  unfoldable pub delays_loop : (max_ms timeout_ms : ℤ) → F → ℕ → F → ℤ → Option (List ℤ)
  delays_loop max_ms timeout_ms factor zero current elapsed = none
  delays_loop max_ms timeout_ms factor (suc fuel) current elapsed =
      let step = min_ℤ (a.trunc current) max_ms in
      let rest =
        delays_loop max_ms timeout_ms factor fuel (min_of (a.mul current factor) (a.of_ℤ max_ms))
          (elapsed +ℤ step) in
      if ltb_ℤ timeout_ms (elapsed +ℤ step) then some [] else prepend step rest

  -- Each delay is at least a millisecond, so that fuel for each one and the last test is enough.
  unfoldable pub poll_delays_ms : (initial_ms max_ms timeout_ms : ℤ) → F → Option (List ℤ)
  unfolding delays_loop
  poll_delays_ms initial_ms max_ms timeout_ms factor =
      if leb_ℤ initial_ms (pos 0) || leb_ℤ timeout_ms (pos 0)
      then some []
      else delays_loop (max_ℤ max_ms initial_ms) timeout_ms factor (suc (pos_part timeout_ms))
          (a.of_ℤ initial_ms) (pos 0)

  module _ (o : IsOrdered F) (r : IsRounded F) (initial_ms max_ms timeout_ms : ℤ) (factor : F)
      (positive : pos 0 <ℤ initial_ms) (below : initial_ms ≤ℤ max_ms) (grows : unit ≼ factor)
      (initial_exact : a.trunc (a.of_ℤ initial_ms) ≡ initial_ms) where
    abbrev Between : ℤ → Type 0
    Between step = (initial_ms ≤ℤ step) × (step ≤ℤ max_ms)

    -- What the loop returns from an elapsed time on.
    abbrev Fills : ℤ → Option (List ℤ) → Type 0
    Fills elapsed result =
        (steps : List ℤ) × ((result ≡ some steps)
          × (All Between steps
              × (((elapsed +ℤ sum_ℤ steps) ≤ℤ timeout_ms)
                  × (timeout_ms <ℤ (elapsed +ℤ sum_ℤ steps) +ℤ max_ms))))

    step-Between :
        (current : F) → a.of_ℤ initial_ms ≼ current → Between (min_ℤ (a.trunc current) max_ms)
    step-Between current lo =
        let h : initial_ms ≤ℤ a.trunc current =
          subst (λ z. z ≤ℤ a.trunc current) initial_exact (r.trunc_mono _ _ lo) in
        ground arith

    grown : (current : F) → a.of_ℤ initial_ms ≼ current → a.of_ℤ initial_ms ≼ a.mul current factor
    grown current lo =
        let n = o.num_of_le _ _ lo in
        let zero_le : nought ≼ current =
          o.le_trans _ _ _ (r.of_ℤ_nonneg 0)
            (o.le_trans _ _ _ (r.of_ℤ_mono (pos 0) initial_ms (ground arith)) lo) in
        o.le_trans _ _ _ lo (
          o.le_trans _ _ _ (r.mul_one_right current n.1).1
            (r.mul_mono_right unit factor current grows zero_le))

    next_lo :
        (current : F)
        → a.of_ℤ initial_ms ≼ current
        → current ≼ a.of_ℤ max_ms
        → a.of_ℤ initial_ms ≼ min_of (a.mul current factor) (a.of_ℤ max_ms)
    next_lo current lo hi = Facts.le-min_of o _ _ _ (grown current lo) (o.le_trans _ _ _ lo hi)

    next_hi :
        (current : F)
        → a.of_ℤ initial_ms ≼ current
        → current ≼ a.of_ℤ max_ms
        → min_of (a.mul current factor) (a.of_ℤ max_ms) ≼ a.of_ℤ max_ms
    next_hi current lo hi =
        Facts.min_of-le_right o _ _ (o.num_of_le _ _ (grown current lo)).1 (o.num_of_le _ _ hi).1

    stopped :
        (elapsed step : ℤ)
        → Between step
        → elapsed ≤ℤ timeout_ms
        → ltb_ℤ timeout_ms (elapsed +ℤ step) ≡ true
        → ((elapsed +ℤ pos 0) ≤ℤ timeout_ms) × (timeout_ms <ℤ (elapsed +ℤ pos 0) +ℤ max_ms)
    stopped elapsed step within late over =
        let h : timeout_ms <ℤ elapsed +ℤ step = ground arith in
        (omega (int_laws, late, within), omega (int_laws, h, within))

    fuelled :
        (elapsed step : ℤ) (fuel : ℕ)
        → Between step
        → timeout_ms <ℤ elapsed +ℤ pos (suc fuel)
        → timeout_ms <ℤ (elapsed +ℤ step) +ℤ pos fuel
    fuelled elapsed step fuel within enough = omega (int_laws, positive, within, enough)

    resumed :
        (elapsed step total : ℤ)
        → ((elapsed +ℤ step) +ℤ total) ≤ℤ timeout_ms
        → timeout_ms <ℤ ((elapsed +ℤ step) +ℤ total) +ℤ max_ms
        → ((elapsed +ℤ (step +ℤ total)) ≤ℤ timeout_ms)
          × (timeout_ms <ℤ (elapsed +ℤ (step +ℤ total)) +ℤ max_ms)
    resumed elapsed step total h k = (omega (int_laws, h), omega (int_laws, k))

    delays_loop_lem :
        (fuel : ℕ) (current : F) (elapsed : ℤ)
        → a.of_ℤ initial_ms ≼ current
        → current ≼ a.of_ℤ max_ms
        → elapsed ≤ℤ timeout_ms
        → timeout_ms <ℤ elapsed +ℤ pos fuel
        → Fills elapsed (delays_loop max_ms timeout_ms factor fuel current elapsed)
    unfolding delays_loop sum_ℤ
    delays_loop_lem zero current elapsed lo hi late enough =
        absurd (omega (int_laws, late, enough, +ℤ_parts elapsed (pos 0)))
    delays_loop_lem (suc fuel) current elapsed lo hi late enough =
        let step = min_ℤ (a.trunc current) max_ms in
        let within = step-Between current lo in
        elim (Bool-cases (ltb_ℤ timeout_ms (elapsed +ℤ step))) [
          | inl over ↦ rw over ([], (refl, (tt, (stopped elapsed step within late over))))
          | inr fits ↦ rw fits (
              let next = min_of (a.mul current factor) (a.of_ℤ max_ms) in
              let (steps, (e, (each, (total, left)))) =
                delays_loop_lem fuel next (elapsed +ℤ step) (next_lo current lo hi)
                  (next_hi current lo hi) (ground arith)
                  (fuelled elapsed step fuel within enough) in
              (
                step ∷ steps,
                (
                  ap (prepend step) e,
                  ((within, each), resumed elapsed step (sum_ℤ steps) total left),
                ),
              ))
        ]

module _ {F : Type 0} ⦃a : Arith F⦄ (o : IsOrdered F) (r : IsRounded F) where
  -- The loop ends, and the fuel is enough for it. For a first delay and a timeout above zero, a
  -- factor of at least one, and a first delay that a float holds exactly, every delay is between the
  -- first one and the longest one, and together they fill the timeout: they do not exceed it, and
  -- one more of the longest would.
  pub poll_delays_ms_lem :
      (initial_ms max_ms timeout_ms : ℤ) (factor : F)
      → pos 0 <ℤ initial_ms
      → pos 0 <ℤ timeout_ms
      → unit ≼ factor
      → a.trunc (a.of_ℤ initial_ms) ≡ initial_ms
      → (delays : List ℤ) × ((poll_delays_ms initial_ms max_ms timeout_ms factor ≡ some delays)
          × (All (λ d. (initial_ms ≤ℤ d) × (d ≤ℤ max_ℤ max_ms initial_ms)) delays
              × ((sum_ℤ delays ≤ℤ timeout_ms)
                  × (timeout_ms <ℤ sum_ℤ delays +ℤ max_ℤ max_ms initial_ms))))
  unfolding poll_delays_ms
  poll_delays_ms_lem initial_ms max_ms timeout_ms factor positive some_time grows exact =
      let guard : leb_ℤ initial_ms (pos 0) || leb_ℤ timeout_ms (pos 0) ≡ false = ground arith in
      let longest = max_ℤ max_ms initial_ms in
      let below : initial_ms ≤ℤ longest = ground arith in
      let first = r.of_ℤ_mono initial_ms longest below in
      let (delays, (e, (each, (total, left)))) =
        delays_loop_lem o r initial_ms longest timeout_ms factor positive below grows exact
          (suc (pos_part timeout_ms)) (a.of_ℤ initial_ms) (pos 0) (o.num_of_le _ _ first).0 first
          (ground arith) (omega (int_laws, some_time)) in
      rw guard (delays, (e, (each, (omega (int_laws, total), omega (int_laws, left)))))
