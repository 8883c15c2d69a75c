-- ===== src/Search/Examples/Timers.antt =====
-- The properties of the search that waits, at the sample panels.
use hex_fiend.Prelude.{◌≡◌, refl, [], ◌∷◌, arith, str_eq}
use hex_fiend.Prelude.Outcome.{returns}
use hex_fiend.Search.Spaces.{strip_all}
use hex_fiend.Search.Sections.{site_sections}
use hex_fiend.Search.Panel.{Panel, run_search}
use hex_fiend.Search.Panel.Selection.{on_select_item}
use hex_fiend.Search.Panel.Timers.{waiting, find_timer, fire}
use hex_fiend.Search.Panel.Timers.Pending.{KeyTimer}
use hex_fiend.Search.Panel.Timers.Firing.{fire_lem, on_select_item-waiting}
use hex_fiend.Search.Examples.{js, layout, typing}

abbrev searching-KeyTimer : KeyTimer typing
unfolding waiting
searching-KeyTimer = record { positive = omega arith; only = refl }

fire_lem_example :
    (q : Panel) × (fire js site_sections layout 1 typing ≡ returns q)
    × (waiting run_search q.timers ≡ [])
    × KeyTimer q
unfolding find_timer
fire_lem_example = fire_lem js site_sections layout typing searching-KeyTimer refl refl

on_select_item-waiting_example :
    (q : Panel) × (on_select_item js site_sections layout 1 typing ≡ returns q)
    × (q.key_timeout ≡ 0)
    × (waiting run_search q.timers ≡ 1 ∷ [])
unfolding strip_all str_eq
on_select_item-waiting_example =
    on_select_item-waiting js site_sections layout 1 typing searching-KeyTimer (omega arith) refl
      refl refl
