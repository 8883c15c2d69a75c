-- ===== src/Search/Results/Children.antt =====
-- `SearchResults.FindChildElement` and `Toggle` of docs/docs/search/search.js.
pub mod Order
pub mod First
pub mod Leads
pub mod Found
use hex_fiend.Prelude.{
  ℕ, zero, suc, ◌+◌, Bool, true, false, ◌&&◌, List, [], ◌∷◌, ◌++◌, Option, none, some,
  if◌then◌else◌, Str, codes, str_eq, ◌≡◌, refl,
}
use hex_fiend.Prelude.Outcome.{Outcome, returns, throws, out_of_fuel, ◌>>=◌}
use hex_fiend.Search.Dom.{
  Elem, Nodes, nil, node, Way, size, get_attribute, class_name, get_element_by_id, node_at,
  set_display,
}
use hex_fiend.Search.Results.{Page}

pub is_div : Elem → Bool
unfolding str_eq
is_div e = str_eq e.tag (codes "DIV")

unfoldable pub is_children_div : Elem → Bool
unfolding is_div get_attribute
is_children_div e = is_div e && str_eq (class_name e) (codes "SRChildren")

abbrev has_child_nodes : Nodes → Bool
has_child_nodes nil = false
has_child_nodes (node e kids rest) = true

-- The variable `element`: it is the first of `here`, whose place among its siblings and those of
-- its ancestors below `parentElement` are in `place`, the innermost first; `ups` has for each of
-- these ancestors its following siblings.
pub record Cursor : Type 0 where
  pub here : Nodes
  pub ups : List Nodes
  pub place : List ℕ

abbrev pub next_place : List ℕ → List ℕ
next_place [] = []
next_place (i ∷ up) = suc i ∷ up

abbrev parent_place : List ℕ → List ℕ
parent_place [] = []
parent_place (i ∷ up) = up

-- The inner `do` loop and the step to the next sibling behind it; `none` where `parentElement` is
-- reached. The place is that of the element whose parent is taken next.
climb : List Nodes → List ℕ → Option Cursor
climb [] place = none
climb (nil ∷ ups) place = climb ups (parent_place place)
climb (node e kids rest ∷ ups) place =
    some (record { here = node e kids rest; ups = ups; place = next_place (parent_place place) })

-- What the last `else` goes on with.
step_on : Nodes → List Nodes → List ℕ → Option Cursor
unfolding climb
step_on nil ups place = climb ups place
step_on (node e kids rest) ups place =
    some (record { here = node e kids rest; ups = ups; place = next_place place })

-- One round of the outer loop, from an element that is not the one looked for.
advance : Elem → Nodes → Nodes → List Nodes → List ℕ → Option Cursor
unfolding step_on
advance e kids rest ups place =
    if is_div e && has_child_nodes kids
    then some (record { here = kids; ups = rest ∷ ups; place = 0 ∷ place })
    else step_on rest ups place

-- The outer loop. It returns the place of the element, or that there is none.
pub walk : ℕ → Nodes → List Nodes → List ℕ → Outcome (Option (List ℕ))
unfolding advance
walk zero here ups place = out_of_fuel
walk (suc fuel) nil ups place = returns none
walk (suc fuel) (node e kids rest) ups place = elim (is_children_div e) [
  | true ↦ returns (some place)
  | false ↦ elim (advance e kids rest ups place) [
    | none ↦ returns none
    | some c ↦ walk fuel c.here c.ups c.place
  ]
]

-- The way down from the outermost place.
unfoldable pub way_onto : List ℕ → Way → Way
way_onto [] way = way
way_onto (i ∷ up) way = way_onto up (i ∷ way)

find_below : Way → Elem × Nodes → Outcome (Option Way)
unfolding walk way_onto is_children_div
find_below parent found = do
  place ← walk (suc (size found.1)) found.1 [] (0 ∷ [])
  returns (elim place [ none ↦ none | some p ↦ some (parent ++ way_onto p []) ])

abbrev or_throw {ℓ} : {A : Type ℓ} → Option A → Outcome A
or_throw none = throws
or_throw (some a) = returns a

-- `FindChildElement`; it throws if there is no element with the identifier.
unfoldable pub find_child_element : Nodes → Str → Outcome (Option Way)
unfolding find_below
find_child_element doc id = do
  parent ← or_throw (get_element_by_id doc id)
  found ← or_throw (node_at parent doc)
  find_below parent found

abbrev pub display_at : Nodes → Way → Str
display_at doc way = elim (node_at way doc) [ none ↦ [] | some found ↦ found.0.display ]

toggle_at : Page → Option Way → Page
toggle_at page none = page
toggle_at page (some way) = record page {
  results =
      set_display way
        (if str_eq (display_at page.results way) (codes "block")
          then codes "none"
          else codes "block")
        page.results;
}

-- `Toggle`
unfoldable pub toggle : Page → Str → Outcome Page
unfolding find_child_element toggle_at
toggle page id = do element ← find_child_element page.results id; returns (toggle_at page element)
