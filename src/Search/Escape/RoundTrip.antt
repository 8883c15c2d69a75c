-- ===== src/Search/Escape/RoundTrip.antt =====
-- What `escape` writes, `unescape` and `location.search` read back.
use hex_fiend.Prelude.{
  ℕ, ◌+◌, ◌*◌, ◌/◌, ◌%◌, ◌<◌, true, false, [], ◌∷◌, ◌++◌, none, some, ltb, ◌==◌, Str, ◌≡◌, refl,
  IsText, arith, ap, ◌∙◌, inl, inr, Bool-cases, All,
}
use hex_fiend.Search.Escape.{
  is_kept, hex_digit, hex_value, hex_pair, hex_quad, decode_char, escape_char, escape,
  unescape_from, unescape, before, location_search,
}

hex_value-hex_digit : (d : ℕ) → d < 16 → hex_value (hex_digit d) ≡ some d
unfolding hex_value hex_digit
hex_value-hex_digit d h = ground arith

hex_pair-hex_digit :
    (a b : ℕ) (s : Str)
    → a < 16
    → b < 16
    → hex_pair (hex_digit a ∷ hex_digit b ∷ s) ≡ some (a * 16 + b)
unfolding hex_pair
hex_pair-hex_digit a b s ha hb = ground (arith, hex_value-hex_digit a, hex_value-hex_digit b)

-- A pair is no quad, since no digit is the letter u.
hex_quad-hex_digit : (a : ℕ) (s : Str) → a < 16 → hex_quad (hex_digit a ∷ s) ≡ none
unfolding hex_quad hex_digit
hex_quad-hex_digit a [] h = refl
hex_quad-hex_digit a (b ∷ []) h = refl
hex_quad-hex_digit a (b ∷ c ∷ s) h = ground arith

kept_ne_percent : (c : ℕ) → is_kept c ≡ true → (c == b'%') ≡ false
unfolding is_kept
kept_ne_percent c h = ground arith

decode_kept : (c : ℕ) (s : Str) → is_kept c ≡ true → decode_char c s ≡ (c, 0)
unfolding decode_char
decode_kept c s h = ground (arith, kept_ne_percent c h)

decode_pair :
    (c : ℕ) (s : Str)
    → c < 256
    → decode_char b'%' (hex_digit (c / 16) ∷ hex_digit (c % 16) ∷ s) ≡ (c, 2)
unfolding decode_char
decode_pair c s h = ground (
  arith,
  hex_quad-hex_digit (c / 16) (hex_digit (c % 16) ∷ s),
  hex_pair-hex_digit (c / 16) (c % 16) s,
)

hex_quad_lem :
    (a b c d : ℕ) (s : Str)
    → a < 16
    → b < 16
    → c < 16
    → d < 16
    → hex_quad (b'u' ∷ hex_digit a ∷ hex_digit b ∷ hex_digit c ∷ hex_digit d ∷ s)
      ≡ some ((a * 16 + b) * 256 + (c * 16 + d))
unfolding hex_quad
hex_quad_lem a b c d s ha hb hc hd =
    ground (arith, hex_pair-hex_digit a b [], hex_pair-hex_digit c d s)

decode_quad :
    (c : ℕ) (s : Str)
    → c < 0x10000
    → decode_char b'%' (
        b'u'
        ∷ hex_digit (c / 4096)
        ∷ hex_digit (c / 256 % 16)
        ∷ hex_digit (c / 16 % 16)
        ∷ hex_digit (c % 16)
        ∷ s)
      ≡ (c, 5)
unfolding decode_char
decode_quad c s h = ground (arith, hex_quad_lem (c / 4096) (c / 256 % 16) (c / 16 % 16) (c % 16) s)

unescape_from-cons :
    (c x k : ℕ) (s : Str)
    → decode_char c s ≡ (x, k)
    → unescape_from 0 (c ∷ s) ≡ x ∷ unescape_from k s
unfolding unescape_from
unescape_from-cons c x k s e = rw e

unescape_from-escape_char :
    (c : ℕ) (s : Str) → c < 0x10000 → unescape_from 0 (escape_char c ++ s) ≡ c ∷ unescape_from 0 s
unfolding escape_char unescape_from
unescape_from-escape_char c s h = elim (Bool-cases (is_kept c)) [
  | inl kept ↦ rw kept (unescape_from-cons c c 0 s (decode_kept c s kept))
  | inr other ↦ elim (Bool-cases (ltb c 256)) [
    | inl low ↦
        rw (other, low)
          (unescape_from-cons b'%' c 2 (hex_digit (c / 16) ∷ hex_digit (c % 16) ∷ s)
            (decode_pair c s (ground arith)))
    | inr high ↦
        rw (other, high)
          (unescape_from-cons b'%' c 5
            (b'u'
              ∷ hex_digit (c / 4096)
              ∷ hex_digit (c / 256 % 16)
              ∷ hex_digit (c / 16 % 16)
              ∷ hex_digit (c % 16)
              ∷ s)
            (decode_quad c s h))
  ]
]

pub unescape-escape : (s : Str) → IsText s → unescape (escape s) ≡ s
unfolding unescape escape
unescape-escape [] h = refl
unescape-escape (c ∷ s) h =
    unescape_from-escape_char c (escape s) h.0 ∙ ap (c ∷◌) (unescape-escape s h.1)

hex_digit_ne_hash : (d : ℕ) → (hex_digit d == b'#') ≡ false
unfolding hex_digit
hex_digit_ne_hash d = ground arith

kept_ne_hash : (c : ℕ) → is_kept c ≡ true → (c == b'#') ≡ false
unfolding is_kept
kept_ne_hash c h = ground arith

before-escape_char :
    (c : ℕ) (s : Str) → before b'#' (escape_char c ++ s) ≡ escape_char c ++ before b'#' s
unfolding before escape_char
before-escape_char c s = elim (Bool-cases (is_kept c)) [
  | inl kept ↦ rw kept (rw (kept_ne_hash c kept))
  | inr other ↦ elim (Bool-cases (ltb c 256)) [
    | inl low ↦ rw (other, low) (simp hex_digit_ne_hash)
    | inr high ↦ rw (other, high) (simp hex_digit_ne_hash)
  ]
]

-- What `escape` writes has no `#`, which would end the query.
before-escape : (s : Str) → before b'#' (escape s) ≡ escape s
unfolding escape before
before-escape [] = refl
before-escape (c ∷ s) = rw (before-escape_char c (escape s), before-escape s)

-- Neither `?` nor `#` stands in it: the path of a page.
abbrev pub IsPagePath : Str → Type 0
IsPagePath = All (λ c. ((c == b'?') ≡ false) × ((c == b'#') ≡ false))

-- The query of an address made of a page, `?` and an escaped word.
pub location_search-escape :
    (page s : Str) → IsPagePath page → location_search (page ++ b'?' ∷ escape s) ≡ b'?' ∷ escape s
unfolding location_search
location_search-escape [] s h = rw before-escape
location_search-escape (c ∷ page) s (h, more) = rw (h.0, h.1) (location_search-escape page s more)

pub location_search-page : (page : Str) → IsPagePath page → location_search page ≡ []
unfolding location_search
location_search-page [] h = refl
location_search-page (c ∷ page) (h, more) = rw (h.0, h.1) (location_search-page page more)
