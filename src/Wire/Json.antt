-- ===== src/Wire/Json.antt =====
-- JSON values as Python holds them, with `dict.get`, `in` and truth. A text is its code points.
use ammba_uoc.Prelude.{
  ℕ, String, Bool, true, false, not, ◌||◌, List, [], ◌∷◌, ◌==◌, string_eq, if◌then◌else◌,
}
use ammba_uoc.Prelude.Int.{ℤ, pos, beq_ℤ}
use ammba_uoc.Arith.{Arith}

mutual
  pub data Json (F : Type 0) : Type 0 where
    null : Json F
    bool : Bool → Json F
    int : ℤ → Json F
    float : F → Json F
    string : List ℕ → Json F
    array : Items F → Json F
    object : Fields F → Json F

  pub data Items (F : Type 0) : Type 0 where
    nil : Items F
    cons : Json F → Items F → Items F

  pub data Fields (F : Type 0) : Type 0 where
    end : Fields F
    field : String → Json F → Fields F → Fields F

module _ {F : Type 0} where
  -- `d.get(key)`, where `None` stands for a key that is absent
  abbrev pub get : String → Fields F → Json F
  get key end = null
  get key (field k v d) = if k == key then v else get key d

  -- `key in d`
  abbrev pub has : String → Fields F → Bool
  has key end = false
  has key (field k v d) = k == key || has key d

  abbrev pub keys : Fields F → List String
  keys end = []
  keys (field k v d) = k ∷ keys d

  abbrev pub to_list : Items F → List (Json F)
  to_list nil = []
  to_list (cons x xs) = x ∷ to_list xs

  abbrev pub of_list : List (Json F) → Items F
  of_list [] = nil
  of_list (x ∷ xs) = cons x (of_list xs)

  abbrev pub is_null : Json F → Bool
  is_null null = true
  is_null _ = false

module _ {F : Type 0} ⦃a : Arith F⦄ where
  -- `bool(value)`
  abbrev pub truth : Json F → Bool
  truth null = false
  truth (bool b) = b
  truth (int n) = not (beq_ℤ n (pos 0))
  truth (float x) = not (a.eq x (a.dec 0 0))
  truth (string []) = false
  truth (string (c ∷ cs)) = true
  truth (array nil) = false
  truth (array (cons x xs)) = true
  truth (object end) = false
  truth (object (field k v d)) = true

  -- `first or second`
  abbrev pub or_else : Json F → Json F → Json F
  or_else first second = if truth first then first else second
