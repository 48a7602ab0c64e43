-- ===== src/Clearing/Texts.antt =====
-- Stripping a text and changing its case, done twice, change nothing more.
use ammba_uoc.Prelude.{
  suc, length, ℕ, ◌≡◌, refl, ap, ◌∙◌, ◌⊎◌, inl, inr, false, List, [], ◌∷◌, map, arith,
  if◌then◌else◌, Bool-cases,
}
use ammba_uoc.Prelude.Text.{lower_code, upper_code, is_blank, lstrip, rstrip, strip}

abbrev pub lowered : List ℕ → List ℕ
lowered cs = map lower_code cs

abbrev pub uppered : List ℕ → List ℕ
uppered cs = map upper_code cs

pub lowered_idem : (cs : List ℕ) → lowered (lowered cs) ≡ lowered cs
lowered_idem [] = refl
lowered_idem (c ∷ cs) = ground (arith, lowered_idem cs)

pub uppered_idem : (cs : List ℕ) → uppered (uppered cs) ≡ uppered cs
uppered_idem [] = refl
uppered_idem (c ∷ cs) = ground (arith, uppered_idem cs)

-- `rstrip` of a text, from that of the text without its first character
abbrev onto : ℕ → List ℕ → List ℕ
onto c [] = if is_blank c then [] else c ∷ []
onto c (d ∷ ds) = c ∷ d ∷ ds

rstrip-onto : (c : ℕ) (r : List ℕ) → rstrip r ≡ r → rstrip (onto c r) ≡ onto c r
rstrip-onto c [] e = elim (Bool-cases (is_blank c)) [
  | inl blank ↦ rw blank refl
  | inr other ↦ rw other (rw other refl)
]
rstrip-onto c (d ∷ ds) e = ap (onto c) e

pub rstrip_idem : (cs : List ℕ) → rstrip (rstrip cs) ≡ rstrip cs
rstrip_idem [] = refl
rstrip_idem (c ∷ cs) = rstrip-onto c (rstrip cs) (rstrip_idem cs)

onto_kept : (c : ℕ) (r : List ℕ) → is_blank c ≡ false → onto c r ≡ c ∷ r
onto_kept c [] h = rw h refl
onto_kept c (d ∷ ds) h = refl

-- A text with nothing to strip at its front.
abbrev Starts : List ℕ → Type 0
Starts cs = (cs ≡ []) ⊎ ((c : ℕ) × ((ds : List ℕ) × ((cs ≡ c ∷ ds) × (is_blank c ≡ false))))

lstrip-Starts : (cs : List ℕ) → Starts (lstrip cs)
lstrip-Starts [] = inl refl
lstrip-Starts (c ∷ cs) = elim (Bool-cases (is_blank c)) [
  | inl e ↦ rw e (lstrip-Starts cs)
  | inr e ↦ rw e (inr (c, (cs, (refl, e))))
]

strip-rstrip : (cs : List ℕ) → Starts cs → strip (rstrip cs) ≡ rstrip cs
strip-rstrip cs (inl e) = rw e refl
strip-rstrip cs (inr (c, (ds, (e, h)))) =
    rw (e, onto_kept c (rstrip ds) h, h)
      (onto_kept c (rstrip (rstrip ds)) h ∙ ap (◌∷◌ c) (rstrip_idem ds))

pub strip_idem : (cs : List ℕ) → strip (strip cs) ≡ strip cs
strip_idem cs = strip-rstrip (lstrip cs) (lstrip-Starts cs)

pub rstrip-cons : (c : ℕ) (cs : List ℕ) → is_blank c ≡ false → rstrip (c ∷ cs) ≡ c ∷ rstrip cs
rstrip-cons c cs h = onto_kept c (rstrip cs) h

unfoldable without_first : List ℕ → List ℕ
without_first [] = []
without_first (c ∷ cs) = cs

onto_tail : (c : ℕ) (r ds : List ℕ) → onto c r ≡ c ∷ ds → r ≡ ds
unfolding without_first
onto_tail c [] [] e = refl
onto_tail c [] (d ∷ ds) e = absurd (ground arith)
onto_tail c (x ∷ r) ds e = ap without_first e

-- A text with nothing to strip at its end, and the text without its first character.
pub rstrip-tail : (c : ℕ) (cs : List ℕ) → rstrip (c ∷ cs) ≡ c ∷ cs → rstrip cs ≡ cs
rstrip-tail c cs e = onto_tail c (rstrip cs) cs e

pub length-lowered : (cs : List ℕ) → length (lowered cs) ≡ length cs
length-lowered [] = refl
length-lowered (c ∷ cs) = ap suc (length-lowered cs)

onto-lowered : (c : ℕ) (r : List ℕ) → onto (lower_code c) (lowered r) ≡ lowered (onto c r)
onto-lowered c [] = ground arith
onto-lowered c (d ∷ ds) = refl

pub rstrip-lowered : (cs : List ℕ) → rstrip (lowered cs) ≡ lowered (rstrip cs)
rstrip-lowered [] = refl
rstrip-lowered (c ∷ cs) = ap (onto (lower_code c)) (rstrip-lowered cs) ∙ onto-lowered c (rstrip cs)
