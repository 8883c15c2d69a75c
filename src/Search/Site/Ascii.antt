-- ===== src/Search/Site/Ascii.antt =====
-- ASCII words of the search field.
use hex_fiend.Prelude.{
  ℕ, ◌<◌, false, [], ◌∷◌, ◌==◌, Str, ◌≡◌, refl, arith, map, IsText, IsAscii, lower_char,
  LowersAscii, Bool-cases, inl, inr,
}
use hex_fiend.Search.Spaces.{strip_leading, strip_trailing, cons_unless_last_space}
use hex_fiend.Search.Panel.Query.{Strings, index_char, starts_high_surrogate}

pub strip_leading-IsAscii : (s : Str) → IsAscii s → IsAscii (strip_leading s)
unfolding strip_leading
strip_leading-IsAscii [] h = tt
strip_leading-IsAscii (c ∷ s) h = elim (Bool-cases (c == b' ')) [
  | inl space ↦ rw space (strip_leading-IsAscii s h.1)
  | inr other ↦ rw other h
]

kept-IsAscii : (c : ℕ) (t : Str) → c < 128 → IsAscii t → IsAscii (cons_unless_last_space c t)
kept-IsAscii c [] h k = elim (Bool-cases (c == b' ')) [
  | inl space ↦ rw space tt
  | inr other ↦ rw other (h, tt)
]
kept-IsAscii c (d ∷ t) h k = (h, k)

pub strip_trailing-IsAscii : (s : Str) → IsAscii s → IsAscii (strip_trailing s)
unfolding strip_trailing
strip_trailing-IsAscii [] h = tt
strip_trailing-IsAscii (c ∷ s) h =
    kept-IsAscii c (strip_trailing s) h.0 (strip_trailing-IsAscii s h.1)

kept-cons :
    (c : ℕ) (t : Str) → (c == b' ') ≡ false → (r : Str) × (cons_unless_last_space c t ≡ c ∷ r)
kept-cons c [] h = ([], rw h refl)
kept-cons c (d ∷ t) h = (d ∷ t, refl)

-- A character that is no space stays in front.
pub strip_trailing-cons :
    (c : ℕ) (s : Str) → (c == b' ') ≡ false → (r : Str) × (strip_trailing (c ∷ s) ≡ c ∷ r)
unfolding strip_trailing
strip_trailing-cons c s h = kept-cons c (strip_trailing s) h

pub map_lower-IsText : (s : Str) → IsAscii s → IsText (map lower_char s)
unfolding lower_char
map_lower-IsText [] h = tt
map_lower-IsText (c ∷ s) h = (ground arith, map_lower-IsText s h.1)

pub index_char-ascii :
    (js : Strings) (c : ℕ) (s : Str)
    → LowersAscii js.lower
    → IsAscii (c ∷ s)
    → index_char js (c ∷ s) ≡ lower_char c ∷ []
unfolding index_char starts_high_surrogate lower_char
index_char-ascii js c s lowers h = rw (lowers (c ∷ s) h, lowers (c ∷ []) (h.0, tt)) (ground arith)
