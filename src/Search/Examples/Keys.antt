-- ===== src/Search/Examples/Keys.antt =====
-- The properties of the keyboard, at the page of the sample entries.
use hex_fiend.Prelude.{◌≡◌, Option}
use hex_fiend.Prelude.Int.{pos}
use hex_fiend.Prelude.Outcome.{returns, Ends}
use hex_fiend.Search.Dom.{Way}
use hex_fiend.Search.Results.{create_results, new_page}
use hex_fiend.Search.Results.Nav.{World, keydown, nav_prev}
use hex_fiend.Search.Results.Nav.Keys.{nav, nav_child}
use hex_fiend.Search.Results.Nav.Visible.{FirstVisible, id_back, nav_prev_lem}
use hex_fiend.Search.Results.Nav.Held.{event}
use hex_fiend.Search.Results.Nav.Ended.{nav-Ends}
use hex_fiend.Search.Examples.{sample_entries, resting}

abbrev world : World
world = record { page = new_page (create_results sample_entries); panel = resting }

nav_prev_lem_example :
    (o : Option Way) × (nav_prev world.page.results (pos 1) ≡ returns o)
    × FirstVisible (id_back (pos 1)) world.page.results 0 o
nav_prev_lem_example = nav_prev_lem world.page.results (pos 1)

nav-Ends_example :
    Ends (nav (event keydown 40) 0 world) × Ends (nav_child (event keydown 40) 0 1 world)
nav-Ends_example = nav-Ends (event keydown 40) 0 1 world
