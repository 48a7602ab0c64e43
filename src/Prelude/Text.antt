-- ===== src/Prelude/Text.antt =====
-- Texts by their code points; the case changes and trims of Python, on ASCII.
use Prim.Native.Char.{code}
use Prim.Native.String.{String, compare}
use Prim.Native.Nat.{Ordering}
use ammba_uoc.Prelude.{
  ℕ, ◌+◌, ◌-◌, Bool, true, false, ◌&&◌, ◌||◌, Option, none, some, List, [], ◌∷◌, map, leb,
  if◌then◌else◌,
}
pub use Prim.Native.String.{◌++◌ as append}

abbrev pub codes : String → List ℕ
codes String.[] = []
codes (String.◌∷◌ c s) = code c ∷ codes s

abbrev pub lower_code : ℕ → ℕ
lower_code c = if leb b'A' c && leb c b'Z' then c + 32 else c

abbrev pub upper_code : ℕ → ℕ
upper_code c = if leb b'a' c && leb c b'z' then c - 32 else c

-- `s.lower()` and `s.upper()`
abbrev pub lower : String → List ℕ
lower s = map lower_code (codes s)

abbrev pub upper : String → List ℕ
upper s = map upper_code (codes s)

-- what `str.strip` drops: tab to carriage return, the separators 28 to 31, the blank
abbrev pub is_blank : ℕ → Bool
is_blank c = (leb 9 c && leb c 13) || (leb 28 c && leb c 32)

abbrev pub lstrip : List ℕ → List ℕ
lstrip [] = []
lstrip (c ∷ cs) = if is_blank c then lstrip cs else c ∷ cs

abbrev pub rstrip : List ℕ → List ℕ
rstrip [] = []
rstrip (c ∷ cs) = elim (rstrip cs) [
  | [] ↦ (if is_blank c then [] else c ∷ [])
  | d ∷ ds ↦ c ∷ d ∷ ds
]

abbrev pub strip : List ℕ → List ℕ
strip cs = rstrip (lstrip cs)

-- truth of a text: it is not empty
abbrev pub truthy : String → Bool
truthy String.[] = false
truthy (String.◌∷◌ _ _) = true

-- truth of an optional text: neither `None` nor empty
abbrev pub present : Option String → Bool
present none = false
present (some s) = truthy s

abbrev pub text_leb : String → String → Bool
text_leb s t = elim (compare s t) [ Ordering.gt ↦ false | _ ↦ true ]

insert_sorted : String → List String → List String
insert_sorted s [] = s ∷ []
insert_sorted s (t ∷ ts) = if text_leb s t then s ∷ t ∷ ts else t ∷ insert_sorted s ts

-- `sorted(texts)`
unfoldable pub sorted : List String → List String
unfolding insert_sorted
sorted [] = []
sorted (s ∷ ss) = insert_sorted s (sorted ss)
