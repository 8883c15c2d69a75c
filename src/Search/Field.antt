-- ===== src/Search/Field.antt =====
-- `OnSearchFieldChange` of docs/docs/search/search.js: a key in the search field.
pub mod KeyTimer
use hex_fiend.Prelude.{
  ℕ, suc, Bool, true, false, ◌&&◌, ◌||◌, List, [], ◌∷◌, Option, none, some, ◌==◌, if◌then◌else◌,
  Str, codes, str_eq, not,
}
use hex_fiend.Prelude.Outcome.{Outcome, returns, throws, out_of_fuel, ◌>>=◌}
use hex_fiend.Search.Dom.{Way}
use hex_fiend.Search.Spaces.{strip_all}
use hex_fiend.Search.Panel.{
  Layout, Panel, Item, Action, run_search, activate, clear_timeout, set_timeout, key_timeout_length,
  on_search_select_show, hide_results,
}
use hex_fiend.Search.Panel.Selection.{is_select_item}
use hex_fiend.Search.Results.{Page, Focus, on_item}
use hex_fiend.Search.Results.Nav.{World, focus_on, nav_next}

-- The place of the first child of class SelectItem, which gets the focus.
first_select_item : ℕ → List Item → Option ℕ
unfolding is_select_item
first_select_item i [] = none
first_select_item i (item ∷ more) =
    let rest = first_select_item (suc i) more in if is_select_item item then some i else rest

-- The results frame holds its page only after the first search has loaded one; the focus may stand
-- in it, or on an item of the selection window.
pub record Site : Type 0 where
  pub panel : Panel
  pub frame : Option Page
  pub selected : Option ℕ

stop_key_timer : Panel → Panel
unfolding clear_timeout
stop_key_timer p =
    if p.key_timeout == 0 then p else record (clear_timeout p.key_timeout p) { key_timeout = 0 }

-- What follows the keys: a search is due if the word has changed.
unfoldable pub field_changed : Panel → Panel
field_changed p =
    let value = strip_all p.field_value in
    if str_eq value p.last_search_value
    then p
    else if str_eq value []
    then record (hide_results p) { last_search_value = [] }
    else record (set_timeout run_search key_timeout_length p) { key_timeout = p.next_timer }

focus_at : Option Way → Page → Page
focus_at none page = page
focus_at (some way) page = record page { focus = on_item way }

-- The first item of the results gets the focus.
focus_first : Option Page → Outcome (Option Page)
unfolding nav_next focus_at
focus_first none = returns none
focus_first (some page) = nav_next page.results 0 >>= λ found. returns (some (focus_at found page))

escape_field : Panel → Panel
unfolding activate
escape_field p = activate false (record (hide_results p) { last_search_value = [] })

-- `OnSearchFieldChange`, by the code of the key and whether shift is held.
pub on_search_field_change : Layout → ℕ → Bool → Site → Outcome Site
on_search_field_change lay key shift site =
    let p = stop_key_timer site.panel in
    if key == 40 || key == 13
    then if shift
      then (let shown = on_search_select_show lay p in
          returns (record site { panel = shown; selected = first_select_item 0 shown.items }))
      else (focus_first site.frame >>= λ frame.
          returns (record site { panel = field_changed p; frame = frame }))
    else if key == 27
    then returns (record site { panel = escape_field p })
    else returns (record site { panel = field_changed p })
