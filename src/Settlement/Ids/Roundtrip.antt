-- ===== src/Settlement/Ids/Roundtrip.antt =====
-- Encoding an id and parsing it back, and the texts for which the parser returns too few bytes.
use ammba_uoc.Prelude.{
  ℕ, ◌*◌, ◌/◌, ◌%◌, ◌<◌, ◌≡◌, ◌∙◌, ap, refl, false, not, List, [], ◌∷◌, ◌++◌, All, filter, length,
  arith, ok, some, ◌==◌, nat_eq,
}
use ammba_uoc.Prelude.Text.{is_blank, rstrip, strip}
use ammba_uoc.Settlement.Ids.{
  hex_value, is_hex_space, from_hex, hex_part, parse_codes, hex_digit, to_hex, bytes16_to_hex,
  bytes16_to_uuid, dashed,
}

abbrev IsByte : ℕ → Type 0
IsByte b = b < 256

-- A code that is neither blank nor a dash, nor the `x` of a prefix.
abbrev IsPlain : ℕ → Type 0
IsPlain c = (is_blank c ≡ false) × ((c == b'-') ≡ false) × ((c == b'x') ≡ false)

pub hex_digit_lem :
    (n : ℕ)
    → n < 16
    → (hex_value (hex_digit n) ≡ some n)
      × (is_hex_space (hex_digit n) ≡ false)
      × IsPlain (hex_digit n)
hex_digit_lem n h = ground arith

pub from_hex-to_hex : (bs : List ℕ) → All IsByte bs → from_hex (to_hex bs) ≡ some bs
unfolding from_hex to_hex
from_hex-to_hex [] _ = refl
from_hex-to_hex (b ∷ bs) (h, hs) =
    ground (arith, hex_digit_lem (b / 16), hex_digit_lem (b % 16), from_hex-to_hex bs hs)

to_hex-IsPlain : (bs : List ℕ) → All IsByte bs → All IsPlain (to_hex bs)
unfolding to_hex
to_hex-IsPlain [] _ = tt
to_hex-IsPlain (b ∷ bs) (h, hs) = (
  (hex_digit_lem (b / 16) (omega arith)).2,
  ((hex_digit_lem (b % 16) (omega arith)).2, to_hex-IsPlain bs hs),
)

length-to_hex : (bs : List ℕ) → length (to_hex bs) ≡ 2 * length bs
unfolding to_hex
length-to_hex [] = refl
length-to_hex (b ∷ bs) = omega (arith, length-to_hex bs)

rstrip-cons : (c : ℕ) (cs : List ℕ) → is_blank c ≡ false → rstrip cs ≡ cs → rstrip (c ∷ cs) ≡ c ∷ cs
rstrip-cons c [] h e = ground arith
rstrip-cons c (d ∷ cs) h e = rw e

rstrip-append : (xs ys : List ℕ) → All IsPlain xs → rstrip ys ≡ ys → rstrip (xs ++ ys) ≡ xs ++ ys
rstrip-append [] ys _ e = e
rstrip-append (x ∷ xs) ys (h, hs) e = rstrip-cons x (xs ++ ys) h.0 (rstrip-append xs ys hs e)

rstrip-plain : (cs : List ℕ) → All IsPlain cs → rstrip cs ≡ cs
rstrip-plain [] _ = refl
rstrip-plain (c ∷ cs) (h, hs) = rstrip-cons c cs h.0 (rstrip-plain cs hs)

abbrev undashed : List ℕ → List ℕ
undashed = filter λ e. not (e == b'-')

undashed-append : (xs ys : List ℕ) → All IsPlain xs → undashed (xs ++ ys) ≡ xs ++ undashed ys
undashed-append [] ys _ = refl
undashed-append (x ∷ xs) ys (h, hs) = rw (h.1, undashed-append xs ys hs)

undashed-plain : (cs : List ℕ) → All IsPlain cs → undashed cs ≡ cs
undashed-plain [] _ = refl
undashed-plain (c ∷ cs) (h, hs) = rw (h.1, undashed-plain cs hs)

to_hex-append : (xs ys : List ℕ) → to_hex (xs ++ ys) ≡ to_hex xs ++ to_hex ys
unfolding to_hex
to_hex-append [] ys = refl
to_hex-append (x ∷ xs) ys = rw (to_hex-append xs ys)

-- A text whose hexadecimal part has 32 codes is parsed to the bytes that these stand for.
parse_codes_of-hex_part :
    (text digits bs : List ℕ)
    → strip text ≡ text
    → hex_part text ≡ digits
    → length digits ≡ 32
    → from_hex digits ≡ some bs
    → parse_codes text ≡ ok bs
unfolding parse_codes
parse_codes_of-hex_part text digits bs stripped e n h = rw (stripped, e, h) (ground arith)

length-to_hex_bytes16 : (bs : List ℕ) → length bs ≡ 16 → length (to_hex bs) ≡ 32
length-to_hex_bytes16 bs n = omega (arith, length-to_hex bs)

-- Sixteen bytes, written as `0x` and their hexadecimal digits, are parsed back to the same bytes.
pub parse_codes-bytes16_to_hex :
    (bs : List ℕ) → length bs ≡ 16 → All (λ b. b < 256) bs → parse_codes (bytes16_to_hex bs) ≡ ok bs
unfolding bytes16_to_hex
parse_codes-bytes16_to_hex bs n h =
    parse_codes_of-hex_part (bytes16_to_hex bs) (to_hex bs) bs
      (rstrip-cons _ _ refl (rstrip-cons _ _ refl (rstrip-plain (to_hex bs) (to_hex-IsPlain bs h))))
      refl (length-to_hex_bytes16 bs n) (from_hex-to_hex bs h)

strip_lem :
    (c : ℕ) (cs : List ℕ) → is_blank c ≡ false → rstrip (c ∷ cs) ≡ c ∷ cs → strip (c ∷ cs) ≡ c ∷ cs
strip_lem c cs h e = rw h e

hex_part_lem :
    (c d : ℕ) (cs : List ℕ) → (d == b'x') ≡ false → hex_part (c ∷ d ∷ cs) ≡ undashed (c ∷ d ∷ cs)
hex_part_lem c d cs h = ground arith

-- The groups of a UUID: a text that is plain but for the dash that closes it, and what follows.
module _ (xs ys zs : List ℕ) (h : All IsPlain xs) where
  undashed-group : undashed ys ≡ zs → undashed (xs ++ (b'-' ∷ ys)) ≡ xs ++ zs
  undashed-group e = undashed-append xs (b'-' ∷ ys) h ∙ ap (◌++◌ xs) e

module _ (xs ys : List ℕ) (h : All IsPlain xs) where
  rstrip-group : rstrip ys ≡ ys → rstrip (xs ++ (b'-' ∷ ys)) ≡ xs ++ (b'-' ∷ ys)
  rstrip-group e = rstrip-append xs (b'-' ∷ ys) h (rstrip-cons b'-' ys refl e)

-- Five plain groups with dashes between them.
module _ (xs ys zs us ws : List ℕ) where
  abbrev grouped : List ℕ
  grouped = xs ++ (b'-' ∷ (ys ++ (b'-' ∷ (zs ++ (b'-' ∷ (us ++ (b'-' ∷ ws)))))))

  grouped_lem :
      All IsPlain xs
      → All IsPlain ys
      → All IsPlain zs
      → All IsPlain us
      → All IsPlain ws
      → (rstrip grouped ≡ grouped) × (undashed grouped ≡ xs ++ (ys ++ (zs ++ (us ++ ws))))
  grouped_lem px py pz pu pw = (
    rstrip-group xs _ px
        (rstrip-group ys _ py (rstrip-group zs _ pz (rstrip-group us ws pu (rstrip-plain ws pw)))),
    undashed-group xs _ _ px (
        undashed-group ys _ _ py
          (undashed-group zs _ _ pz (undashed-group us ws ws pu (undashed-plain ws pw)))),
  )

-- Sixteen bytes, written as a UUID, are parsed back to the same bytes.
pub parse_codes-bytes16_to_uuid :
    (bs text : List ℕ)
    → length bs ≡ 16
    → All (λ b. b < 256) bs
    → bytes16_to_uuid bs ≡ ok text
    → parse_codes text ≡ ok bs
unfolding bytes16_to_uuid
parse_codes-bytes16_to_uuid (a ∷ b ∷ c ∷ d ∷ e ∷ f ∷ g ∷ h ∷ i ∷ j ∷ rest) text n
      (pa, (pb, (pc, (pd, (pe, (pf, (pg, (ph, (pi, (pj, p)))))))))) q =
    let bs : List ℕ = a ∷ b ∷ c ∷ d ∷ e ∷ f ∷ g ∷ h ∷ i ∷ j ∷ rest in
    let first = to_hex-IsPlain (a ∷ b ∷ c ∷ d ∷ []) (pa, (pb, (pc, (pd, tt)))) in
    let parts =
      grouped_lem (to_hex (a ∷ b ∷ c ∷ d ∷ [])) (to_hex (e ∷ f ∷ [])) (to_hex (g ∷ h ∷ []))
        (to_hex (i ∷ j ∷ [])) (to_hex rest) first (to_hex-IsPlain (e ∷ f ∷ []) (pe, (pf, tt)))
        (to_hex-IsPlain (g ∷ h ∷ []) (pg, (ph, tt))) (to_hex-IsPlain (i ∷ j ∷ []) (pi, (pj, tt)))
        (to_hex-IsPlain rest p) in
    let same : dashed bs ≡ text = ground arith in
    rw (← same) (
      parse_codes_of-hex_part (dashed bs) (to_hex bs) bs
        (strip_lem (hex_digit (a / 16)) _ first.0.0 parts.0)
        (hex_part_lem (hex_digit (a / 16)) (hex_digit (a % 16)) _ first.1.0.2 ∙ parts.1)
        (length-to_hex_bytes16 bs n)
        (from_hex-to_hex bs (pa, (pb, (pc, (pd, (pe, (pf, (pg, (ph, (pi, (pj, p))))))))))))
parse_codes-bytes16_to_uuid _ text n _ q = absurd (omega arith)

-- The two blanks that `bytes.fromhex` skips.
from_hex-blanks :
    (b : ℕ) (rest : List ℕ)
    → b < 256
    → All IsByte rest
    → from_hex (to_hex (b ∷ []) ++ (b' ' ∷ b' ' ∷ to_hex rest)) ≡ some (b ∷ rest)
unfolding from_hex to_hex
from_hex-blanks b [] hb _ = ground (arith, hex_digit_lem (b / 16), hex_digit_lem (b % 16))
from_hex-blanks b (c ∷ rest) hb h =
    ground (arith, hex_digit_lem (b / 16), hex_digit_lem (b % 16), from_hex-to_hex (c ∷ rest) h)

-- The parser checks the length of the text and not that of the result: with a pair of blanks in
-- place of a byte it accepts the text and returns fifteen bytes.
pub parse_codes_blanks :
    (b : ℕ) (rest : List ℕ)
    → length rest ≡ 14
    → All (λ c. c < 256) (b ∷ rest)
    → let text = b'0' ∷ b'x' ∷ (to_hex (b ∷ []) ++ (b' ' ∷ b' ' ∷ to_hex rest)) in
      (length (b ∷ rest) ≡ 15) × (parse_codes text ≡ ok (b ∷ rest))
unfolding to_hex
parse_codes_blanks b (c ∷ rest) n (hb, h) =
    let digits = to_hex-IsPlain (b ∷ []) (hb, tt) in
    let ending = rstrip-plain (to_hex (c ∷ rest)) (to_hex-IsPlain (c ∷ rest) h) in
    let blanks : rstrip (b' ' ∷ b' ' ∷ to_hex (c ∷ rest)) ≡ b' ' ∷ b' ' ∷ to_hex (c ∷ rest) =
      rw ending in
    (
      omega arith,
      parse_codes_of-hex_part _ (to_hex (b ∷ []) ++ (b' ' ∷ b' ' ∷ to_hex (c ∷ rest)))
          (b ∷ c ∷ rest)
          (rstrip-cons b'0' _ refl
            (rstrip-cons b'x' _ refl (rstrip-append (to_hex (b ∷ [])) _ digits blanks)))
          refl (omega (arith, length-to_hex rest)) (from_hex-blanks b (c ∷ rest) hb h),
    )
parse_codes_blanks b [] n h = absurd (omega arith)
