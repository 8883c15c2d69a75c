-- ===== src/Search/Results/Nav/Keys.antt =====
-- `Nav` and `NavChild` of docs/docs/search/search.js.
use hex_fiend.Prelude.{
  ℕ, suc, ◌-◌, Bool, true, false, Option, none, some, ltb, ◌==◌, if◌then◌else◌, Str, codes,
}
use hex_fiend.Prelude.Outcome.{Outcome, returns, ◌>>=◌}
use hex_fiend.Search.Dom.{Nodes, Way, get_element_by_id, set_display}
use hex_fiend.Search.Panel.{close_results_window}
use hex_fiend.Search.Results.{on_item, on_search_field, item_id, child_id}
use hex_fiend.Search.Results.Nav.{
  Event, World, focus_on, or_throw, child_of_item, shows, nav_next, nav_up, process_keys,
}

-- The focus goes to the element, if there is one.
focus_if : Option Way → World → World
focus_if none w = w
focus_if (some way) w = focus_on (on_item way) w

unfoldable pub or_next : Nodes → ℕ → Option Way → Outcome (Option Way)
unfolding nav_next
or_next doc index none = nav_next doc index
or_next doc index (some way) = returns (some way)

unfoldable pub nav_down : ℕ → World → Outcome World
unfolding child_of_item or_next focus_if
nav_down i w = do
  let doc = w.page.results
  item ← or_throw (get_element_by_id doc (item_id i))
  elem ← child_of_item doc item
  focus_item ←
      or_next doc (suc i) (if shows doc elem then get_element_by_id doc (child_id i 0) else none)
  returns (focus_if focus_item w)

display_on : Str → Option Way → World → World
display_on v none w = w
display_on v (some way) w = record w {
  page = record (w.page) { results = set_display way v w.page.results };
}

unfoldable pub nav_side : Str → ℕ → World → Outcome World
unfolding child_of_item display_on
nav_side v i w = do
  item ← or_throw (get_element_by_id w.page.results (item_id i))
  elem ← child_of_item w.page.results item
  returns (display_on v elem w)

-- Escape: the panel around the page closes its results and gets the focus.
nav_escape : World → World
unfolding close_results_window
nav_escape w = focus_on on_search_field (record w { panel = close_results_window w.panel })

-- What `Nav` does by `lastKey`, with its result.
unfoldable pub nav_key : ℕ → ℕ → World → Outcome (World × Bool)
unfolding nav_up nav_down nav_side nav_escape
nav_key key i w =
    if key == 38
    then (nav_up i w >>= λ w'. returns (w', false))
    else if key == 40
    then (nav_down i w >>= λ w'. returns (w', false))
    else if key == 39
    then (nav_side (codes "block") i w >>= λ w'. returns (w', false))
    else if key == 37
    then (nav_side (codes "none") i w >>= λ w'. returns (w', false))
    else if key == 27
    then returns (nav_escape w, false)
    else returns (w, key == 13)

unfoldable pub with_processed : Event → World → World × Bool
unfolding process_keys
with_processed e w = let (page, go_on) = process_keys e w.page in (record w { page = page }, go_on)

-- `Nav`
unfoldable pub nav : Event → ℕ → World → Outcome (World × Bool)
unfolding nav_key with_processed
nav e i w =
    let (w', go_on) = with_processed e w in
    if e.key_code == 13
    then returns (w, true)
    else if go_on
    then nav_key w'.page.last_key i w'
    else returns (w', false)

unfoldable pub child_up : ℕ → ℕ → World → Outcome World
child_up i c w = do
  let doc = w.page.results
  target ← or_throw (get_element_by_id doc (if ltb 0 c then child_id i (c - 1) else item_id i))
  returns (focus_on (on_item target) w)

unfoldable pub child_down : ℕ → ℕ → World → Outcome World
unfolding or_next focus_if
child_down i c w = do
  elem ← or_next w.page.results (suc i) (get_element_by_id w.page.results (child_id i (suc c)))
  returns (focus_if elem w)

unfoldable pub child_key : ℕ → ℕ → ℕ → World → Outcome (World × Bool)
unfolding child_up child_down nav_escape
child_key key i c w =
    if key == 38
    then (child_up i c w >>= λ w'. returns (w', false))
    else if key == 40
    then (child_down i c w >>= λ w'. returns (w', false))
    else if key == 27
    then returns (nav_escape w, false)
    else returns (w, key == 13)

-- `NavChild`
unfoldable pub nav_child : Event → ℕ → ℕ → World → Outcome (World × Bool)
unfolding child_key with_processed
nav_child e i c w =
    let (w', go_on) = with_processed e w in
    if e.key_code == 13
    then returns (w, true)
    else if go_on
    then child_key w'.page.last_key i c w'
    else returns (w', false)
