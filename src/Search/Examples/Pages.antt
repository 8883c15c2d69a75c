-- ===== src/Search/Examples/Pages.antt =====
-- The properties of the results page, at the page of the sample entries.
use mathlib.Core.Option
use hex_fiend.Prelude.{
  ◌≡◌, ◌≢◌, ◌⊎◌, ◌==◌, refl, [], ◌∷◌, ◌++◌, Option, none, some, if◌then◌else◌, Str, codes, str_eq,
  arith, map, lower_char, length,
}
use hex_fiend.Prelude.Outcome.{returns, throws}
use hex_fiend.Search.Spaces.{strip_leading, strip_trailing}
use hex_fiend.Search.Ident.{convert_to_id, is_prefix}
use hex_fiend.Search.Escape.{unescape, location_search}
use hex_fiend.Search.Dom.{
  Elem, Nodes, nil, node, create_element, Way, size, id_of, get_element_by_id, node_at,
}
use hex_fiend.Search.Dom.Lookup.{elem_at}
use hex_fiend.Search.Results.{Page, item_id, result_div, create_results, new_page}
use hex_fiend.Search.Results.Filter
use hex_fiend.Search.Results.Filter.{search, search_word, search_key, row_matches}
use hex_fiend.Search.Results.Filter.Rows.{rows, others, shown, shown_if, rows-search}
use hex_fiend.Search.Results.Filter.Names.{search-create_results}
use hex_fiend.Search.Results.Children.{find_child_element, toggle, display_at}
use hex_fiend.Search.Results.Children.First.{IsFirst}
use hex_fiend.Search.Results.Children.Found.{find_child_element_lem, toggle_lem}
use hex_fiend.Search.Results.Nav.{nav_next}
use hex_fiend.Search.Results.Nav.Visible.{FirstVisible, nav_next_lem}
use hex_fiend.Search.Results.Nav.Created.{FirstMatch, nav_next-FirstMatch}
use hex_fiend.Search.Examples.{sample_entries, name_of}

abbrev lower : Str → Str
lower = map lower_char

abbrev sample_page : Page
sample_page = new_page (create_results sample_entries)

rows-search_example :
    let after = search lower [] (codes "he") sample_page in
    let key = search_key lower [] (codes "he") in
    (rows after.results
      ≡ map (λ r. shown_if (row_matches lower key r) r) (rows sample_page.results))
    × (others after.results ≡ others sample_page.results)
    × (after.last_match_count ≡ length (shown (rows after.results)))
    × (after.no_matches
        ≡ (if length (shown (rows after.results)) == 0 then codes "block" else codes "none"))
rows-search_example = rows-search lower [] (codes "he") sample_page

search-create_results_example :
    rows (search lower [] (codes "he") sample_page).results
    ≡ map
        (λ x. shown_if (is_prefix (search_word lower [] (codes "he")) (name_of x)) (result_div x))
        sample_entries
unfolding search_word strip_leading strip_trailing unescape location_search convert_to_id lower_char
    str_eq
search-create_results_example =
    search-create_results lower [] (codes "he") sample_entries name_of (λ s h. refl)
      (omega arith, (omega arith, tt))
      (
        (refl, (omega arith, (omega arith, (omega arith, (omega arith, tt))))),
        ((refl, (omega arith, (omega arith, (omega arith, tt)))), tt),
      )

find_child_element_lem_example :
    let doc = sample_page.results in
    (get_element_by_id doc (codes "SR_hex") ≡ none)
      × (find_child_element doc (codes "SR_hex") ≡ throws)
    ⊎ ((w : Way) × (e : Elem) × (kids : Nodes) × (first : Option Way) × (get_element_by_id doc
            (codes "SR_hex")
          ≡ some w)
        × (node_at w doc ≡ some (e, kids))
        × (id_of e ≡ codes "SR_hex")
        × (find_child_element doc (codes "SR_hex") ≡ returns (Option.map (w ++◌) first))
        × IsFirst kids first)
find_child_element_lem_example = find_child_element_lem sample_page.results (codes "SR_hex")

-- The list of the second entry: in the second row, in its entry, behind the link.
abbrev second_list : Way
second_list = 1 ∷ 0 ∷ 1 ∷ []

found : find_child_element sample_page.results (codes "SR_hex") ≡ returns (some second_list)
unfolding find_child_element create_results get_element_by_id node_at size
found = refl

-- A list inside an element that is not a DIV is not found.
abbrev list_in_span : Nodes
list_in_span =
    node (record (create_element (codes "DIV")) { attrs = (codes "id", codes "X") ∷ [] })
      (node (create_element (codes "SPAN"))
        (node
          (record (create_element (codes "DIV")) {
            attrs = (codes "class", codes "SRChildren") ∷ [];
          })
          nil nil)
        nil)
      nil

not_found : find_child_element list_in_span (codes "X") ≡ returns none
unfolding find_child_element get_element_by_id node_at size
not_found = refl

toggle_lem_example :
    (page' : Page) × (toggle sample_page (codes "SR_hex") ≡ returns page')
    × (display_at page'.results second_list ≡ (
        if str_eq (display_at sample_page.results second_list) (codes "block")
        then codes "none"
        else codes "block"))
    × ((u : Way) → u ≢ second_list → elem_at u page'.results ≡ elem_at u sample_page.results)
toggle_lem_example = toggle_lem sample_page (codes "SR_hex") found

nav_next-FirstMatch_example :
    (o : Option Way) × (nav_next
        (Filter.search lower [] (codes "he") (new_page (create_results sample_entries))).results
        0
      ≡ returns o)
    × FirstMatch (λ x. is_prefix (search_word lower [] (codes "he")) (name_of x)) sample_entries 0 o
unfolding search_word strip_leading strip_trailing unescape location_search convert_to_id lower_char
    str_eq
nav_next-FirstMatch_example =
    nav_next-FirstMatch lower [] (codes "he") sample_entries name_of (λ s h. refl)
      (omega arith, (omega arith, tt))
      (
        (refl, (omega arith, (omega arith, (omega arith, (omega arith, tt))))),
        ((refl, (omega arith, (omega arith, (omega arith, tt)))), tt),
      )
      0

nav_next_lem_example :
    (o : Option Way) × (nav_next sample_page.results 1 ≡ returns o)
    × FirstVisible item_id sample_page.results 1 o
nav_next_lem_example = nav_next_lem sample_page.results 1
