-- ===== src/Search/Panel/Timers.antt =====
-- The timers that `SearchBox` of docs/docs/search/search.js leaves waiting, and their firing.
pub mod Pending
pub mod Firing
use hex_fiend.Prelude.{ℕ, Bool, true, false, List, [], ◌∷◌, Option, none, some, ◌==◌, if◌then◌else◌}
use hex_fiend.Prelude.Outcome.{Outcome, returns}
use hex_fiend.Search.Sections.{Sections}
use hex_fiend.Search.Panel.{
  Layout, Panel, Timer, Action, close_selection, run_search, clear_timeout, close_selection_window,
}
use hex_fiend.Search.Panel.Query.{Strings, search}

abbrev same_action : Action → Action → Bool
same_action close_selection close_selection = true
same_action run_search run_search = true
same_action _ _ = false

-- The identifiers of the timers that wait to run an action, the latest first.
unfoldable pub waiting : Action → List Timer → List ℕ
waiting a [] = []
waiting a (t ∷ more) =
    let rest = waiting a more in if same_action t.action a then t.id ∷ rest else rest

unfoldable pub find_timer : ℕ → List Timer → Option Action
find_timer id [] = none
find_timer id (t ∷ more) =
    let rest = find_timer id more in if t.id == id then some t.action else rest

-- A timer fires: it waits no longer, and its call is made on the object.
unfoldable pub fire : Strings → Sections → Layout → ℕ → Panel → Outcome Panel
unfolding find_timer
fire js table lay id p =
    let q = clear_timeout id p in
    elim (find_timer id p.timers) [
      | none ↦ returns p
      | some a ↦ elim a [
        | close_selection ↦ returns (close_selection_window q)
        | run_search ↦ search js table lay q
      ]
    ]
