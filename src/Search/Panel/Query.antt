-- ===== src/Search/Panel/Query.antt =====
-- `SearchBox.Search` of docs/docs/search/search.js: which page of results is loaded.
use hex_fiend.Prelude.{
  ℕ, Bool, false, ◌&&◌, [], ◌∷◌, ◌++◌, Option, none, some, leb, if◌then◌else◌, Str, codes, str_eq,
  get_elem?, take,
}
use hex_fiend.Prelude.Digits.{to_string, to_hex}
use hex_fiend.Prelude.Int.{pos, ◌+ℤ◌, ◌-ℤ◌}
use hex_fiend.Prelude.Outcome.{Outcome, returns, throws}
use hex_fiend.Search.Spaces.{strip_leading}
use hex_fiend.Search.Escape.{escape}
use hex_fiend.Search.Sections.{Sections, index_of}
use hex_fiend.Search.Panel.{Layout, Panel, get_x_pos, get_y_pos}

-- What the code takes from the language on strings: `toLowerCase`, and the test `s > 1`, which
-- converts the string to a number.
pub record Strings : Type 0 where
  pub lower : Str → Str
  pub greater_than_one : Str → Bool

-- `charCodeAt(0)` in the range of the first halves of surrogate pairs; not so for the empty string.
unfoldable pub starts_high_surrogate : Str → Bool
starts_high_surrogate [] = false
starts_high_surrogate (c ∷ s) = leb 0xD800 c && leb c 0xDBFF

-- The character under which a word is looked up.
unfoldable pub index_char : Strings → Str → Str
unfolding starts_high_surrogate
index_char js value =
    if starts_high_surrogate (js.lower value) && js.greater_than_one value
    then take 2 value
    else js.lower (take 1 value)

-- The name of a section that the table lacks is the text of `undefined`.
abbrev pub section_name : Sections → ℕ → Str
section_name table k = elim (get_elem? table.names k) [
  | none ↦ codes "undefined"
  | some name ↦ name
]

unfoldable pub results_page : Str → Str → ℕ → Str
unfolding to_string
results_page path section idx =
    path ++ codes "/" ++ section ++ codes "_" ++ to_hex idx ++ codes ".html"

abbrev pub no_matches_page : Str → Str
no_matches_page path = path ++ codes "/nomatches.html"

-- The results page, and its address with the search word.
unfoldable pub pages : Str → Str → Option ℕ → Str → Str × Str
unfolding results_page escape
pages path section (some idx) value =
    (results_page path section idx, results_page path section idx ++ b'?' ∷ escape value)
pages path section none value = (no_matches_page path, no_matches_page path)

-- The popup with the results is placed and shown, unless it is shown already.
unfoldable pub show_results : Layout → Panel → Panel
unfolding str_eq get_x_pos get_y_pos ◌+ℤ◌ ◌-ℤ◌
show_results lay p =
    if str_eq p.results_window.display (codes "block")
    then p
    else if p.inside_frame
    then (let width = pos lay.body_width -ℤ pos 8 in
        record p {
          close_display = codes "inline";
          results_window = record (p.results_window) {
            position = codes "relative";
            display = codes "block";
            width = width;
          };
          results_frame_width = width;
        })
    else record p {
      close_display = codes "inline";
      results_window = record (p.results_window) {
        display = codes "block";
        left = get_x_pos lay.search_box +ℤ pos 150 -ℤ pos lay.results_width;
        top = get_y_pos lay.search_box +ℤ pos 20;
      };
    }

unfoldable pub open_pages : Layout → Str → Str × Str → Panel → Panel
open_pages lay value (page, address) p =
    record (show_results lay (record p { frame_location = address })) {
      last_search_value = value;
      last_results_page = page;
    }

-- `Search`; it throws if the section is not in the table.
unfoldable pub search : Strings → Sections → Layout → Panel → Outcome Panel
search js table lay p =
    let value = strip_leading p.field_value in
    elim (get_elem? table.with_content p.search_index) [
      | none ↦ throws
      | some chars ↦ returns (
          open_pages lay value
            (pages p.results_path (section_name table p.search_index)
              (index_of (index_char js value) chars) value)
            (record p { key_timeout = 0 }))
    ]
