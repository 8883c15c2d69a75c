-- ===== src/Search/Results/Nav.antt =====
-- The keyboard in the results of docs/docs/search/search.js: `NavNext`, `NavPrev`, `ProcessKeys`,
-- `Nav` and `NavChild`.
pub mod Visible
pub mod Items
pub mod Created
pub mod Keys
pub mod Held
pub mod Ended
use hex_fiend.Prelude.{
  ℕ, zero, suc, ◌+◌, ◌-◌, Bool, true, false, not, ◌&&◌, List, [], ◌∷◌, ◌++◌, Option, none, some,
  ltb, ◌==◌, if◌then◌else◌, Str, codes, str_eq,
}
use hex_fiend.Prelude.Digits.{to_decimal}
use hex_fiend.Prelude.Int.{ℤ, pos, pred_ℤ, int_string}
use hex_fiend.Prelude.Outcome.{Outcome, returns, throws, out_of_fuel, ◌>>=◌}
use hex_fiend.Search.Dom.{
  Nodes, Way, size, id_of, get_element_by_id, node_at, set_display, parent_node,
}
use hex_fiend.Search.Panel.{Panel, close_results_window}
use hex_fiend.Search.Results.{Page, Focus, on_item, on_search_field, item_id, child_id}
use hex_fiend.Search.Results.Children.{find_child_element, display_at}

-- `parentNode.parentNode.style.display == 'block'`
unfoldable pub is_visible : Nodes → Way → Bool
unfolding str_eq
is_visible doc w = str_eq (display_at doc (parent_node (parent_node w))) (codes "block")

-- The loop of `NavNext`.
unfoldable pub nav_next_from : ℕ → Nodes → ℕ → Outcome (Option Way)
nav_next_from zero doc index = out_of_fuel
nav_next_from (suc fuel) doc index = elim (get_element_by_id doc (item_id index)) [
  | none ↦ returns none
  | some w ↦ elim (is_visible doc w) [
    | true ↦ returns (some w)
    | false ↦ nav_next_from fuel doc (suc index)
  ]
]

-- `NavNext`: each round looks at one more element of the document.
unfoldable pub nav_next : Nodes → ℕ → Outcome (Option Way)
unfolding nav_next_from
nav_next doc index = nav_next_from (suc (size doc)) doc index

-- The loop of `NavPrev`; the index may fall below zero.
unfoldable pub nav_prev_from : ℕ → Nodes → ℤ → Outcome (Option Way)
nav_prev_from zero doc index = out_of_fuel
nav_prev_from (suc fuel) doc index =
    elim (get_element_by_id doc (codes "Item" ++ int_string index)) [
      | none ↦ returns none
      | some w ↦ elim (is_visible doc w) [
        | true ↦ returns (some w)
        | false ↦ nav_prev_from fuel doc (pred_ℤ index)
      ]
    ]

-- `NavPrev`
unfoldable pub nav_prev : Nodes → ℤ → Outcome (Option Way)
unfolding nav_prev_from
nav_prev doc index = nav_prev_from (suc (size doc)) doc index

pub data Kind : Type 0 where
  keydown keypress keyup other_kind : Kind

pub record Event : Type 0 where
  pub kind : Kind
  pub key_code : ℕ

-- `ProcessKeys`
process_kind : Kind → ℕ → Page → Page × Bool
process_kind keydown key p =
    let q = record p { repeat_on = false; last_key = key } in (q, not (q.last_key == 0))
process_kind keypress key p =
    if p.repeat_on
    then (p, not (p.last_key == 0))
    else (record p { repeat_on = not (p.last_key == 0) }, false)
process_kind keyup key p =
    let q = record p { last_key = 0; repeat_on = false } in (q, not (q.last_key == 0))
process_kind other_kind key p = (p, not (p.last_key == 0))

unfoldable pub process_keys : Event → Page → Page × Bool
unfolding process_kind
process_keys e p = process_kind e.kind e.key_code p

-- The results page with the search panel of the page around it, which the results page reaches as
-- `parent`.
pub record World : Type 0 where
  pub page : Page
  pub panel : Panel

abbrev pub focus_on : Focus → World → World
focus_on f w = record w { page = record (w.page) { focus = f } }

abbrev or_throw {ℓ} : {A : Type ℓ} → Option A → Outcome A
or_throw none = throws
or_throw (some a) = returns a

-- The search for the last child: the last in a row of identifiers that are there.
last_child_from : ℕ → Nodes → Str → ℕ → Way → Outcome Way
last_child_from zero doc prefix n found = out_of_fuel
last_child_from (suc fuel) doc prefix n found =
    elim (get_element_by_id doc (prefix ++ to_decimal n)) [
      | none ↦ returns found
      | some w ↦ last_child_from fuel doc prefix (suc n) w
    ]

abbrev element_id : Nodes → Way → Str
element_id doc w = elim (node_at w doc) [ none ↦ [] | some found ↦ id_of found.0 ]

-- `FindChildElement(item.parentNode.parentNode.id)`
child_of_item : Nodes → Way → Outcome (Option Way)
unfolding find_child_element
child_of_item doc w = find_child_element doc (element_id doc (parent_node (parent_node w)))

abbrev shows : Nodes → Option Way → Bool
shows doc none = false
shows doc (some w) = str_eq (display_at doc w) (codes "block")

-- What gets the focus on the way up, from the item that `NavPrev` found.
last_inside : Nodes → Str → Way → Outcome Way
unfolding child_of_item last_child_from str_eq
last_inside doc prefix w = do
  child ← child_of_item doc w
  (if shows doc child then last_child_from (suc (size doc)) doc prefix 0 w else returns w)

focus_or_field : Option Way → World → World
focus_or_field none w = focus_on on_search_field w
focus_or_field (some way) w = focus_on (on_item way) w

-- The focus goes to the item that `NavPrev` found, or to the last of its children if they are shown.
focus_up : Str → Option Way → World → Outcome World
unfolding last_inside focus_or_field
focus_up prefix none w = returns (focus_or_field none w)
focus_up prefix (some way) w =
    last_inside w.page.results prefix way >>= λ last. returns (focus_or_field (some last) w)

nav_up : ℕ → World → Outcome World
unfolding nav_prev focus_up
nav_up item_index w = do
  let index = pred_ℤ (pos item_index)
  focus_item ← nav_prev w.page.results index
  focus_up (codes "Item" ++ int_string index ++ codes "_c") focus_item w
