-- ===== src/Search/Examples.antt =====
-- Data for the examples: the entries of a results page, and the panel of the site.
pub mod Runs
pub mod Words
pub mod Pages
pub mod Panels
pub mod Timers
pub mod Keys
pub mod Site
use hex_fiend.Prelude.{
  ℕ, Bool, true, false, List, [], ◌∷◌, Option, none, some, Str, codes, map, lower_char,
}
use hex_fiend.Prelude.Int.{ℤ, pos}
use hex_fiend.Search.Panel.{Offset, Placed, Layout, Timer, Item, Style, Panel, run_search}
use hex_fiend.Search.Panel.Query.{Strings}
use hex_fiend.Search.Panel.Selection.{no_break_space}
use hex_fiend.Search.Results.{Target, Entry, create_results, new_page, Page}

abbrev pub js : Strings
js = record { lower = map lower_char; greater_than_one = λ _. false }

abbrev pub one_target : Target
one_target = record { href = codes "../h.html#a"; in_parent = true; scope = codes "h" }

-- Two entries; the second has two results.
abbrev pub sample_entries : List Entry
sample_entries =
    (record { id = codes "hf_5fa"; name = codes "HF_A"; targets = one_target ∷ [] })
    ∷ (record { id = codes "hex"; name = codes "Hex"; targets = one_target ∷ one_target ∷ [] })
    ∷ []

abbrev pub name_of : Entry → Str
name_of x = map lower_char x.name

abbrev placed : Placed
placed = record { width = 20; height = 19; offsets = (record { left = pos 3; top = pos 4 }) ∷ [] }

abbrev pub layout : Layout
layout = record {
  search_select = placed;
  select_window_width = 100;
  search_box = placed;
  results_width = 300;
  body_width = 1000;
}

abbrev style : Style
style = record { display = codes "none"; position = []; left = pos 0; top = pos 0; width = pos 0 }

abbrev section_item : Item
section_item = record { class = codes "SelectItem"; mark = no_break_space }

-- The panel at rest, with two sections to choose from.
abbrev pub resting : Panel
resting = record {
  results_path = codes "s";
  key_timeout = 0;
  last_search_value = [];
  last_results_page = [];
  hide_timeout = 0;
  search_index = 0;
  search_active = false;
  inside_frame = false;
  search_label = codes "Search";
  field_value = codes "Search";
  box_class = codes "MSearchBoxInactive";
  select_window = style;
  results_window = style;
  results_frame_width = pos 0;
  close_display = codes "none";
  items = section_item ∷ section_item ∷ [];
  frame_location = codes "about:blank";
  timers = [];
  next_timer = 1;
}

-- A word stands in the search field, and its search waits.
abbrev pub typing : Panel
typing = record resting {
  field_value = codes " HF ";
  search_active = true;
  key_timeout = 1;
  timers = (record { id = 1; action = run_search; delay = 500 }) ∷ [];
  next_timer = 2;
}
