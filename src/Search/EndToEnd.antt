-- ===== src/Search/EndToEnd.antt =====
-- From the search field to the rows of the results frame (docs/docs/search/search.js).
use hex_fiend.Prelude.{
  ℕ, false, List, [], ◌∷◌, ◌++◌, some, ◌==◌, Str, codes, get_elem?, drop, ◌≡◌, refl, arith, ap, map,
  ◌∙◌, All, IsText, IsAscii, All-append, ◌<◌, LowersAscii, Bool-cases, inl, inr,
}
use hex_fiend.Prelude.Digits.{digit, to_hex, to_string-All}
use hex_fiend.Prelude.Outcome.{returns}
use hex_fiend.Search.Spaces.{strip_leading, strip_trailing, strip_leading_idem}
use hex_fiend.Search.Ident.{convert_to_id, is_prefix}
use hex_fiend.Search.Escape.{escape, unescape}
use hex_fiend.Search.Escape.RoundTrip.{unescape-escape, location_search-escape, IsPagePath}
use hex_fiend.Search.Sections.{Sections, index_of}
use hex_fiend.Search.Panel.{Layout, Panel}
use hex_fiend.Search.Panel.Query.{
  Strings, index_char, section_name, results_page, pages, show_results, open_pages, search,
}
use hex_fiend.Search.Results.{Entry, result_div, create_results, new_page}
use hex_fiend.Search.Results.Filter
use hex_fiend.Search.Results.Filter.{search_word}
use hex_fiend.Search.Results.Filter.Rows.{rows, shown_if}
use hex_fiend.Search.Results.Filter.Names.{search-create_results}

-- If the path of the page has neither `?` nor `#`, the results page reads back from its address the
-- word, of 16-bit code units, that the panel has put in: without the spaces around it, and through
-- `toLowerCase`.
pub search_word-escape :
    (lower : Str → Str) (page value : Str)
    → IsPagePath page
    → IsText value
    → search_word lower (page ++ b'?' ∷ escape value) []
      ≡ lower (strip_trailing (strip_leading value))
unfolding search_word
search_word-escape lower page value path text =
    ap (λ q. lower (strip_trailing (strip_leading (unescape (drop 1 q)))))
      (location_search-escape page value path)
    ∙ ap (λ v. lower (strip_trailing (strip_leading v))) (unescape-escape value text)

abbrev IsPathChar : ℕ → Type 0
IsPathChar c = ((c == b'?') ≡ false) × ((c == b'#') ≡ false)

digit_path : (d : ℕ) → d < 36 → IsPathChar (digit d)
unfolding digit
digit_path d h = (ground arith, ground arith)

slash : IsPagePath (codes "/")
slash = ((refl, refl), tt)

underscore : IsPagePath (codes "_")
underscore = ((refl, refl), tt)

html : IsPagePath (codes ".html")
html = ((refl, refl), ((refl, refl), ((refl, refl), ((refl, refl), ((refl, refl), tt)))))

results_page-IsPagePath :
    (path section : Str) (idx : ℕ)
    → IsPagePath path
    → IsPagePath section
    → IsPagePath (results_page path section idx)
unfolding results_page
results_page-IsPagePath path section idx hp hs =
    let name =
      All-append IsPathChar (path ++ codes "/") section
        (All-append IsPathChar path (codes "/") hp slash) hs in
    let bar = All-append IsPathChar (path ++ codes "/" ++ section) (codes "_") name underscore in
    let number =
      All-append IsPathChar (path ++ codes "/" ++ section ++ codes "_") (to_hex idx) bar
        (to_string-All IsPathChar 16 idx (omega arith) (omega arith) digit_path) in
    All-append IsPathChar (path ++ codes "/" ++ section ++ codes "_" ++ to_hex idx) (codes ".html")
      number html

show_results-frame_location :
    (lay : Layout) (p : Panel) → (show_results lay p).frame_location ≡ p.frame_location
unfolding show_results
show_results-frame_location lay p = ground arith

pub search_lem :
    (js : Strings) (table : Sections) (lay : Layout) (p : Panel) (chars : Str)
    → get_elem? table.with_content p.search_index ≡ some chars
    → search js table lay p
      ≡ returns (
          open_pages lay
            (strip_leading p.field_value)
            (pages p.results_path
              (section_name table p.search_index)
              (index_of (index_char js (strip_leading p.field_value)) chars)
              (strip_leading p.field_value))
            (record p { key_timeout = 0 }))
unfolding search
search_lem js table lay p chars h = rw (h, search)

pub open_pages-frame_location :
    (lay : Layout) (value page address : Str) (p : Panel)
    → (open_pages lay value (page, address) p).frame_location ≡ address
unfolding open_pages
open_pages-frame_location lay value page address p =
    show_results-frame_location lay (record p { frame_location = address })

pub pages-found :
    (path section value : Str) (idx : ℕ)
    → pages path section (some idx) value
      ≡ (results_page path section idx, results_page path section idx ++ b'?' ∷ escape value)
unfolding pages
pages-found path section value idx = refl

strip_leading-IsText : (s : Str) → IsText s → IsText (strip_leading s)
unfolding strip_leading
strip_leading-IsText [] h = tt
strip_leading-IsText (c ∷ s) h = elim (Bool-cases (c == b' ')) [
  | inl space ↦ rw space (strip_leading-IsText s h.1)
  | inr other ↦ rw other h
]

-- A search from the panel: where the table lists the first character of the word for the chosen
-- section, the frame gets an address with which the results page, built by `createResults`, shows
-- exactly the entries whose name starts with the word of the search field, the spaces around it
-- taken off and in lower case. The names are ASCII and the identifiers of the entries are made of
-- them, `toLowerCase` does on ASCII text what the standard says, the word is of 16-bit code units,
-- in lower case too, and neither the path nor the section's name has `?` or `#`.
pub search_shows :
    (js : Strings) (table : Sections) (lay : Layout) (p : Panel) (chars : Str) (idx : ℕ)
    (es : List Entry) (name : Entry → Str)
    → get_elem? table.with_content p.search_index ≡ some chars
    → index_of (index_char js (strip_leading p.field_value)) chars ≡ some idx
    → IsPagePath p.results_path
    → IsPagePath (section_name table p.search_index)
    → IsText p.field_value
    → LowersAscii js.lower
    → IsText (js.lower (strip_trailing (strip_leading p.field_value)))
    → All (λ x. (x.id ≡ convert_to_id (name x)) × IsAscii (name x)) es
    → (p' : Panel) × (search js table lay p ≡ returns p')
      × (rows (Filter.search js.lower p'.frame_location [] (new_page (create_results es))).results
          ≡ map
              (λ x.
                shown_if
                  (is_prefix (js.lower (strip_trailing (strip_leading p.field_value))) (name x))
                  (result_div x))
              es)
search_shows js table lay p chars idx es name h i path section text lowers wide named =
    let value = strip_leading p.field_value in
    let address =
      results_page p.results_path (section_name table p.search_index) idx ++ b'?' ∷ escape value in
    let p' =
      open_pages lay value
        (pages p.results_path (section_name table p.search_index)
          (index_of (index_char js value) chars) value)
        (record p { key_timeout = 0 }) in
    let loaded : p'.frame_location ≡ address =
      ap (λ q. (open_pages lay value q (record p { key_timeout = 0 })).frame_location)
        (ap (λ o. pages p.results_path (section_name table p.search_index) o value) i
          ∙ pages-found p.results_path (section_name table p.search_index) value idx)
      ∙ open_pages-frame_location lay value _ address (record p { key_timeout = 0 }) in
    let word : search_word js.lower p'.frame_location [] ≡ js.lower (strip_trailing value) =
      ap (λ a. search_word js.lower a []) loaded
      ∙ search_word-escape js.lower
          (results_page p.results_path (section_name table p.search_index) idx) value
          (results_page-IsPagePath p.results_path (section_name table p.search_index) idx path
            section)
          (strip_leading-IsText p.field_value text)
      ∙ ap (λ v. js.lower (strip_trailing v)) (strip_leading_idem p.field_value) in
    (
      p',
      search_lem js table lay p chars h,
      search-create_results js.lower p'.frame_location [] es name lowers (rw word wide) named
          ∙ ap (λ w. map (λ x. shown_if (is_prefix w (name x)) (result_div x)) es) word,
    )
