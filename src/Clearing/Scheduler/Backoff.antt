-- ===== src/Clearing/Scheduler/Backoff.antt =====
-- The interval between ticks stays in its bounds.
use ammba_uoc.Prelude.{Bool, true, false, List, [], ◌∷◌, arith}
use ammba_uoc.Arith.{Arith, ◌≼◌, nought, unit, IsOrdered, IsRounded}
use ammba_uoc.Arith.Facts
use ammba_uoc.Clearing.Scheduler.{next_tick_interval_sec}

module _ {F : Type 0} ⦃a : Arith F⦄ where
  -- The interval after these ticks, failed or not, as the loop computes it.
  pub interval_after : F → F → List Bool → F
  unfolding next_tick_interval_sec
  interval_after base current [] = current
  interval_after base current (failed ∷ later) =
      interval_after base (next_tick_interval_sec current base failed) later

  abbrev pub IsWithin : F → F → Type 0
  IsWithin base x = (base ≼ x) × (x ≼ a.mul base (a.dec 10 0))

  module _ (o : IsOrdered F) (r : IsRounded F) where
    open o use {le_trans, num_of_le, dec_mono}
    open r use {mul_mono_right, mul_one_right}

    scaled : (k : F) (x : F) → unit ≼ k → nought ≼ x → x ≼ a.mul x k
    scaled k x e p =
        le_trans x (a.mul x unit) (a.mul x k) (mul_one_right x (num_of_le nought x p).1).1
          (mul_mono_right unit k x e p)

    base-IsWithin : (base : F) → nought ≼ base → IsWithin base base
    base-IsWithin base p =
        ((num_of_le nought base p).1, scaled (a.dec 10 0) base (dec_mono 1 10 0 (omega arith)) p)

    next-IsWithin :
        (current base : F) (failed : Bool)
        → nought ≼ base
        → IsWithin base current
        → IsWithin base (next_tick_interval_sec current base failed)
    unfolding next_tick_interval_sec
    next-IsWithin current base false p w = base-IsWithin base p
    next-IsWithin current base true p (l, u) =
        let doubled =
          scaled (a.dec 2 0) current (dec_mono 1 2 0 (omega arith))
            (le_trans nought base current p l) in
        let top = (base-IsWithin base p).1 in
        (
          Facts.le-min_of o _ _ base (le_trans base current _ l doubled) top,
          Facts.min_of-le_right o _ _ (num_of_le _ _ doubled).1 (num_of_le _ _ top).1,
        )

    from-IsWithin :
        (base : F) (ticks : List Bool) (current : F)
        → nought ≼ base
        → IsWithin base current
        → IsWithin base (interval_after base current ticks)
    unfolding interval_after
    from-IsWithin base [] current p w = w
    from-IsWithin base (failed ∷ ticks) current p w =
        from-IsWithin base ticks _ p (next-IsWithin current base failed p w)

    -- From a base interval that is not negative, the interval is at least the base and at most ten
    -- times the base after any sequence of ticks that succeed or fail.
    pub next_tick_interval_sec_bounds :
        (base : F) (ticks : List Bool)
        → nought ≼ base
        → IsWithin base (interval_after base base ticks)
    next_tick_interval_sec_bounds base ticks p =
        from-IsWithin base ticks base p (base-IsWithin base p)
