-- ===== src/Arith/Facts.antt =====
-- Facts about the order, `min` and `max` that follow from the laws.
use ammba_uoc.Prelude.{◌≡◌, true, false, arith}
use ammba_uoc.Arith.Builtins.{Arith, ◌≼◌, nought, unit, min_of, max_of, IsOrdered}

module _ {F : Type 0} ⦃a : Arith F⦄ (o : IsOrdered F) where
  open o use {num_of_le, num_of_lt, le_trans, le_total, lt-eq-not-le, zero_lt_one, eq_iff_le}

  pub le_of_lt : (x y : F) → a.lt x y ≡ true → x ≼ y
  le_of_lt x y h =
      let n = num_of_lt x y h in ground (arith, lt-eq-not-le x y n.0 n.1, le_total x y n.0 n.1)

  pub le_of_not-lt : (x y : F) → x ≼ x → y ≼ y → a.lt x y ≡ false → y ≼ x
  le_of_not-lt x y n m h = ground (arith, lt-eq-not-le x y n m)

  pub lt_of_not-le : (x y : F) → x ≼ x → y ≼ y → a.le x y ≡ false → a.lt y x ≡ true
  lt_of_not-le x y n m h = ground (arith, lt-eq-not-le y x m n)

  pub le_of_not-le : (x y : F) → x ≼ x → y ≼ y → a.le x y ≡ false → y ≼ x
  le_of_not-le x y n m h = ground (arith, le_total x y n m)

  pub not-le_of_lt : (x y : F) → a.lt x y ≡ true → a.le y x ≡ false
  not-le_of_lt x y h = let n = num_of_lt x y h in ground (arith, lt-eq-not-le x y n.0 n.1)

  pub lt_of_lt-le : (x y z : F) → a.lt x y ≡ true → y ≼ z → a.lt x z ≡ true
  lt_of_lt-le x y z h k =
      let n = num_of_lt x y h in
      let m = num_of_le y z k in
      ground (arith, lt-eq-not-le x z n.0 m.1, lt-eq-not-le x y n.0 n.1, le_trans y z x k)

  pub lt_of_le-lt : (x y z : F) → x ≼ y → a.lt y z ≡ true → a.lt x z ≡ true
  lt_of_le-lt x y z k h =
      let n = num_of_lt y z h in
      let m = num_of_le x y k in
      ground (
        arith,
        lt-eq-not-le x z m.0 n.1,
        lt-eq-not-le y z n.0 n.1,
        λ (e : z ≼ x). le_trans z x y e k,
      )

  -- `min` keeps a number below its first argument, also where the second is NaN.
  pub min_of-le_left : (x y : F) → x ≼ x → min_of x y ≼ x
  min_of-le_left x y n = ground (arith, le_of_lt y x)

  pub min_of-le_right : (x y : F) → x ≼ x → y ≼ y → min_of x y ≼ y
  min_of-le_right x y n m = ground (arith, le_of_not-lt y x m n)

  pub le-max_of_left : (x y : F) → x ≼ x → x ≼ max_of x y
  le-max_of_left x y n = ground (arith, le_of_lt x y)

  pub le-max_of_right : (x y : F) → x ≼ x → y ≼ y → y ≼ max_of x y
  le-max_of_right x y n m = ground (arith, le_of_not-lt x y n m)

  pub le-min_of : (x y z : F) → z ≼ x → z ≼ y → z ≼ min_of x y
  le-min_of x y z h k = ground arith

  pub max_of-le : (x y z : F) → x ≼ z → y ≼ z → max_of x y ≼ z
  max_of-le x y z h k = ground arith

  pub min_of_mono : (x y z : F) → z ≼ z → x ≼ y → min_of z x ≼ min_of z y
  min_of_mono x y z n h =
      let m = num_of_le x y h in
      le-min_of z y (min_of z x) (min_of-le_left z x n)
        (le_trans (min_of z x) x y (min_of-le_right z x n m.0) h)

  pub max_of_mono : (x y z : F) → z ≼ z → x ≼ y → max_of z x ≼ max_of z y
  max_of_mono x y z n h =
      let m = num_of_le x y h in
      max_of-le z x (max_of z y) (le-max_of_left z y n)
        (le_trans x y (max_of z y) h (le-max_of_right z y n m.1))

  pub zero_num : nought {F = F} ≼ nought
  zero_num = (num_of_lt _ _ zero_lt_one).0

  pub one_num : unit {F = F} ≼ unit
  one_num = (num_of_lt _ _ zero_lt_one).1

  -- What is at least one is positive, and is no zero.
  pub pos_of-one_le : (x : F) → unit ≼ x → a.lt nought x ≡ true
  pos_of-one_le x h = lt_of_lt-le nought unit x zero_lt_one h

  pub ne_zero_of_pos : (x : F) → a.lt nought x ≡ true → a.eq x nought ≡ false
  ne_zero_of_pos x h = ground (arith, eq_iff_le x nought, not-le_of_lt nought x h)
