-- ===== src/Search/Escape.antt =====
-- The global functions `escape` and `unescape` of JavaScript, and `window.location.search`, by which
-- docs/docs/search/search.js hands the search word from the page to its results frame.
pub mod RoundTrip
use hex_fiend.Prelude.{
  ℕ, zero, suc, ◌+◌, ◌-◌, ◌*◌, ◌/◌, ◌%◌, Bool, true, false, ◌&&◌, ◌||◌, List, [], ◌∷◌, ◌++◌, Option,
  none, some, ltb, leb, ◌==◌, if◌then◌else◌, Str, codes, ◌≡◌, refl,
}

between : ℕ → ℕ → ℕ → Bool
between lo hi c = leb lo c && leb c hi

-- the characters that `escape` keeps: A-Z a-z 0-9 @ * _ + - . /
unfoldable pub is_kept : ℕ → Bool
unfolding between
is_kept c =
    between b'A' b'Z' c
    || between b'a' b'z' c
    || between b'0' b'9' c
    || between b'-' b'/' c
    || c == b'@'
    || c == b'*'
    || c == b'_'
    || c == b'+'

hex_digit : ℕ → ℕ
hex_digit d = if ltb d 10 then b'0' + d else b'A' + (d - 10)

escape_char : ℕ → Str
unfolding is_kept hex_digit
escape_char c =
    if is_kept c
    then c ∷ []
    else if ltb c 256
    then b'%' ∷ hex_digit (c / 16) ∷ hex_digit (c % 16) ∷ []
    else b'%'
      ∷ b'u'
      ∷ hex_digit (c / 4096)
      ∷ hex_digit (c / 256 % 16)
      ∷ hex_digit (c / 16 % 16)
      ∷ hex_digit (c % 16)
      ∷ []

unfoldable pub escape : Str → Str
unfolding escape_char
escape [] = []
escape (c ∷ s) = escape_char c ++ escape s

hex_value : ℕ → Option ℕ
unfolding between
hex_value c =
    if between b'0' b'9' c
    then some (c - b'0')
    else if between b'a' b'f' c
    then some (c - b'a' + 10)
    else if between b'A' b'F' c
    then some (c - b'A' + 10)
    else none

-- two hexadecimal digits at the front
hex_pair : Str → Option ℕ
unfolding hex_value
hex_pair (a ∷ b ∷ s) = elim (hex_value a) [
  | none ↦ none
  | some x ↦ elim (hex_value b) [ none ↦ none | some y ↦ some (x * 16 + y) ]
]
hex_pair _ = none

-- four of them, behind `u`
hex_quad : Str → Option ℕ
unfolding hex_pair
hex_quad (u ∷ a ∷ b ∷ s) =
    if u == b'u'
    then elim (hex_pair (a ∷ b ∷ [])) [
      | none ↦ none
      | some x ↦ elim (hex_pair s) [ none ↦ none | some y ↦ some (x * 256 + y) ]
    ]
    else none
hex_quad _ = none

-- What stands at a character, and how many more characters it takes up.
decode_char : ℕ → Str → ℕ × ℕ
unfolding hex_quad
decode_char c s =
    if c == b'%'
    then elim (hex_quad s) [
      | some x ↦ (x, 5)
      | none ↦ elim (hex_pair s) [ some x ↦ (x, 2) | none ↦ (c, 0) ]
    ]
    else (c, 0)

unescape_from : ℕ → Str → Str
unfolding decode_char
unescape_from skip [] = []
unescape_from (suc skip) (c ∷ s) = unescape_from skip s
unescape_from zero (c ∷ s) = let (x, skip) = decode_char c s in x ∷ unescape_from skip s

unfoldable pub unescape : Str → Str
unfolding unescape_from
unescape s = unescape_from 0 s

before : ℕ → Str → Str
before stop [] = []
before stop (c ∷ s) = if c == stop then [] else c ∷ before stop s

-- `location.search`: from the question mark up to the fragment.
unfoldable pub location_search : Str → Str
unfolding before
location_search [] = []
location_search (c ∷ s) =
    if c == b'#' then [] else if c == b'?' then c ∷ before b'#' s else location_search s
