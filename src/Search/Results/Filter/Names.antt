-- ===== src/Search/Results/Filter/Names.antt =====
-- A search among entries whose identifiers are those of known names.
use hex_fiend.Prelude.{
  ℕ, ◌/◌, ◌%◌, ◌<◌, true, List, [], ◌∷◌, ◌++◌, Str, codes, ◌≡◌, refl, arith, ap, ap₂, map,
  Bool-cases, inl, inr, ◌∙◌, All, IsText, IsAscii, ascii-IsText, lower_char, LowersAscii,
  All-append,
}
use hex_fiend.Prelude.Digits.{digit}
use hex_fiend.Search.Ident.{convert_to_id, convert_char, stands_for_itself, is_prefix}
use hex_fiend.Search.Ident.Matching.{
  is_prefix-convert_to_id, convert_to_id-nil, convert_to_id-cons, escaped_char, plain_char,
}
use hex_fiend.Search.Results.{Entry, result_div, create_results, new_page, set_class_attr}
use hex_fiend.Search.Results.Filter.{strip_row_prefix, row_matches, search_word, search_key, search}
use hex_fiend.Search.Results.Filter.Rows.{rows, shown_if, rows-search}
use hex_fiend.Search.Results.Filter.Created.{rows-create_results}

-- A character of an identifier: ASCII, and not in upper case.
abbrev IsPlain : ℕ → Type 0
IsPlain c = (c < 128) × (lower_char c ≡ c)

digit-IsPlain : (d : ℕ) → d < 16 → IsPlain (digit d)
unfolding digit lower_char
digit-IsPlain d h = (ground arith, ground arith)

underscore-IsPlain : IsPlain b'_'
unfolding lower_char
underscore-IsPlain = (omega arith, refl)

itself-IsPlain : (c : ℕ) → c < 128 → stands_for_itself c ≡ true → IsPlain c
unfolding stands_for_itself lower_char
itself-IsPlain c h e = (h, ground arith)

convert_char-IsPlain : (c : ℕ) → c < 128 → All IsPlain (convert_char c)
convert_char-IsPlain c h = elim (Bool-cases (stands_for_itself c)) [
  | inl e ↦ rw (plain_char c e) (itself-IsPlain c h e, tt)
  | inr e ↦ rw (escaped_char c (omega arith) e) (
    underscore-IsPlain,
    (digit-IsPlain (c / 16) (omega arith), (digit-IsPlain (c % 16) (omega arith), tt)),
  )
]

convert_to_id-IsPlain : (s : Str) → IsAscii s → All IsPlain (convert_to_id s)
convert_to_id-IsPlain [] h = rw convert_to_id-nil tt
convert_to_id-IsPlain (c ∷ s) h = rw (convert_to_id-cons c s) (
    All-append IsPlain (convert_char c) (convert_to_id s) (convert_char-IsPlain c h.0)
      (convert_to_id-IsPlain s h.1))

plain-IsAscii : (s : Str) → All IsPlain s → IsAscii s
plain-IsAscii [] h = tt
plain-IsAscii (c ∷ s) h = (h.0.0, plain-IsAscii s h.1)

plain_lower : (s : Str) → All IsPlain s → map lower_char s ≡ s
plain_lower [] h = refl
plain_lower (c ∷ s) h = ap₂ ◌∷◌ h.0.1 (plain_lower s h.1)

row_matches-result_div :
    (lower : Str → Str) (x : Entry) (key : Str)
    → row_matches lower key (result_div x)
      ≡ is_prefix key (strip_row_prefix (lower (codes "SR_" ++ x.id)))
unfolding row_matches set_class_attr
row_matches-result_div lower x key = refl

pub search_key_lem :
    (lower : Str → Str) (location word : Str)
    → search_key lower location word ≡ convert_to_id (search_word lower location word)
unfolding search_key
search_key_lem lower location word = refl

module _ (lower : Str → Str) (lowers : LowersAscii lower) where
  -- The name that the code compares for a row is the identifier of the entry.
  strip_row_prefix-id :
      (t : Str)
      → IsAscii t
      → strip_row_prefix (lower (codes "SR_" ++ convert_to_id t)) ≡ convert_to_id t
  unfolding lower_char strip_row_prefix
  strip_row_prefix-id t h =
      let plain = convert_to_id-IsPlain t h in
      ap strip_row_prefix (
        lowers (codes "SR_" ++ convert_to_id t)
          (omega arith, (omega arith, (omega arith, plain-IsAscii (convert_to_id t) plain))))
      ∙ plain_lower (convert_to_id t) plain

  -- An entry with the identifier of `t` matches a word exactly if `t` starts with the word.
  pub row_matches-entry :
      (x : Entry) (t w : Str)
      → x.id ≡ convert_to_id t
      → IsAscii t
      → IsText w
      → row_matches lower (convert_to_id w) (result_div x) ≡ is_prefix w t
  row_matches-entry x t w e ht hw =
      row_matches-result_div lower x (convert_to_id w)
      ∙ ap (λ i. is_prefix (convert_to_id w) (strip_row_prefix (lower (codes "SR_" ++ i)))) e
      ∙ ap (is_prefix (convert_to_id w)) (strip_row_prefix-id t ht)
      ∙ is_prefix-convert_to_id w t hw (ascii-IsText t ht)

  map_rows :
      (name : Entry → Str) (w : Str)
      → IsText w
      → (es : List Entry) → All (λ x. (x.id ≡ convert_to_id (name x)) × IsAscii (name x)) es
      → map (λ r. shown_if (row_matches lower (convert_to_id w) r) r) (map (λ x. result_div x) es)
        ≡ map (λ x. shown_if (is_prefix w (name x)) (result_div x)) es
  map_rows name w hw [] h = refl
  map_rows name w hw (x ∷ es) h =
      ap₂ ◌∷◌ (ap (λ b. shown_if b (result_div x)) (row_matches-entry x (name x) w h.0.0 h.0.1 hw))
        (map_rows name w hw es h.1)

-- On the page that `createResults` builds from entries whose identifiers are those of ASCII names,
-- a search shows exactly the entries whose name starts with the word, in the order of the entries.
-- `toLowerCase` does on ASCII text what the standard says, and the word is of 16-bit code units.
pub search-create_results :
    (lower : Str → Str) (location word : Str) (es : List Entry) (name : Entry → Str)
    → LowersAscii lower
    → IsText (search_word lower location word)
    → All (λ x. (x.id ≡ convert_to_id (name x)) × IsAscii (name x)) es
    → rows (search lower location word (new_page (create_results es))).results
      ≡ map (λ x. shown_if (is_prefix (search_word lower location word) (name x)) (result_div x)) es
search-create_results lower location word es name lowers hw named =
    (rows-search lower location word (new_page (create_results es))).0
    ∙ ap (map (λ r. shown_if (row_matches lower (search_key lower location word) r) r))
        (rows-create_results es)
    ∙ rw (search_key_lem lower location word)
        (map_rows lower lowers name (search_word lower location word) hw es named)
