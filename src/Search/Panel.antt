-- ===== src/Search/Panel.antt =====
-- Class `SearchBox` of docs/docs/search/search.js: its fields, the elements of the page that it
-- works on, and the timers that it sets.
pub mod Query
pub mod Selection
pub mod Timers
pub mod Activation
use hex_fiend.Prelude.{
  ℕ, zero, suc, ◌+◌, Bool, true, false, not, ◌&&◌, ◌||◌, List, [], ◌∷◌, ◌++◌, Option, none, some,
  ltb, leb, ◌==◌, if◌then◌else◌, Str, codes, str_eq, get_elem?, take, length,
}
use hex_fiend.Prelude.Digits.{to_string, to_hex}
use hex_fiend.Prelude.Int.{ℤ, pos, ◌+ℤ◌, ◌-ℤ◌}
use hex_fiend.Prelude.Outcome.{Outcome, returns, throws, ◌>>=◌}
use hex_fiend.Search.Spaces.{strip_leading, strip_all}
use hex_fiend.Search.Escape.{escape}
use hex_fiend.Search.Sections.{Sections, index_of}

-- `offsetLeft` and `offsetTop`
pub record Offset : Type 0 where
  pub left : ℤ
  pub top : ℤ

-- The layout of an element: its size, and the offsets of itself and its offset parents below `body`.
pub record Placed : Type 0 where
  pub width : ℕ
  pub height : ℕ
  pub offsets : List Offset

-- What the browser's layout gives.
pub record Layout : Type 0 where
  pub search_select : Placed
  pub select_window_width : ℕ
  pub search_box : Placed
  pub results_width : ℕ
  pub body_width : ℕ

sum_left : ℤ → List Offset → ℤ
sum_left x [] = x
sum_left x (o ∷ more) = sum_left (x +ℤ o.left) more

-- `getXPos`
unfoldable pub get_x_pos : Placed → ℤ
unfolding sum_left ◌+ℤ◌
get_x_pos item = if item.width == 0 then pos 0 else sum_left (pos 0) item.offsets

sum_top : ℤ → List Offset → ℤ
sum_top y [] = y
sum_top y (o ∷ more) = sum_top (y +ℤ o.top) more

-- `getYPos`
unfoldable pub get_y_pos : Placed → ℤ
unfolding sum_top ◌+ℤ◌
get_y_pos item = if item.width == 0 then pos 0 else sum_top (pos 0) item.offsets

-- What a timer runs: `CloseSelectionWindow()` or `Search()`.
pub data Action : Type 0 where
  close_selection run_search : Action

pub record Timer : Type 0 where
  pub id : ℕ
  pub action : Action
  pub delay : ℕ

-- A child of `MSearchSelectWindow`: its class, and the text of its first child.
pub record Item : Type 0 where
  pub class : Str
  pub mark : Str

pub record Style : Type 0 where
  pub display : Str
  pub position : Str
  pub left : ℤ
  pub top : ℤ
  pub width : ℤ

pub record Panel : Type 0 where
  pub results_path : Str
  pub key_timeout : ℕ
  pub last_search_value : Str
  pub last_results_page : Str
  pub hide_timeout : ℕ
  pub search_index : ℕ
  pub search_active : Bool
  pub inside_frame : Bool
  pub search_label : Str
  -- the elements
  pub field_value : Str
  pub box_class : Str
  pub select_window : Style
  pub results_window : Style
  pub results_frame_width : ℤ
  pub close_display : Str
  pub items : List Item
  pub frame_location : Str
  -- the timers that wait, and the identifier of the next one
  pub timers : List Timer
  pub next_timer : ℕ

-- `keyTimeoutLength` and `closeSelectionTimeout`
abbrev pub key_timeout_length : ℕ
key_timeout_length = 500

abbrev pub close_selection_timeout : ℕ
close_selection_timeout = 300

-- `setTimeout`; the new identifier is that of the timer in front.
abbrev pub set_timeout : Action → ℕ → Panel → Panel
set_timeout action delay p = record p {
  timers = (record { id = p.next_timer; action = action; delay = delay }) ∷ p.timers;
  next_timer = suc p.next_timer;
}

unfoldable pub without_timer : ℕ → List Timer → List Timer
without_timer id [] = []
without_timer id (t ∷ more) =
    let rest = without_timer id more in if t.id == id then rest else t ∷ rest

-- `clearTimeout`
unfoldable pub clear_timeout : ℕ → Panel → Panel
unfolding without_timer
clear_timeout id p = record p { timers = without_timer id p.timers }

-- `Activate`
unfoldable pub activate : Bool → Panel → Panel
unfolding str_eq
activate is_active p =
    if is_active || str_eq p.results_window.display (codes "block")
    then if str_eq p.field_value p.search_label
      then record p { box_class = codes "MSearchBoxActive"; field_value = []; search_active = true }
      else record p { box_class = codes "MSearchBoxActive" }
    else if not is_active
    then record p {
      box_class = codes "MSearchBoxInactive";
      field_value = p.search_label;
      search_active = false;
      last_search_value = [];
      last_results_page = [];
    }
    else p

-- `OnSearchFieldFocus`
abbrev pub on_search_field_focus : Bool → Panel → Panel
on_search_field_focus = activate

abbrev pub hide_results : Panel → Panel
hide_results p = record p {
  results_window = record (p.results_window) { display = codes "none" };
  close_display = codes "none";
}

-- `CloseResultsWindow`
unfoldable pub close_results_window : Panel → Panel
unfolding activate
close_results_window p = activate false (hide_results p)

-- `CloseSelectionWindow`
unfoldable pub close_selection_window : Panel → Panel
close_selection_window p = record p {
  select_window = record (p.select_window) { display = codes "none" };
}

-- The selection window is shown below the field's icon.
unfoldable pub place_select_window : Layout → Panel → Panel
unfolding get_x_pos get_y_pos ◌+ℤ◌ ◌-ℤ◌
place_select_window lay p =
    let select = lay.search_select in
    let left =
      if p.inside_frame
      then get_x_pos select +ℤ pos (select.width + 6) -ℤ pos lay.select_window_width
      else get_x_pos select in
    record p {
      select_window = record (p.select_window) {
        display = codes "block";
        left = left;
        top = get_y_pos select +ℤ pos select.height;
      };
    }

-- The timer that would hide the selection window is stopped.
unfoldable pub stop_hide_timer : Panel → Panel
unfolding clear_timeout
stop_hide_timer p =
    if p.hide_timeout == 0 then p else record (clear_timeout p.hide_timeout p) { hide_timeout = 0 }

-- `OnSearchSelectShow`
unfoldable pub on_search_select_show : Layout → Panel → Panel
on_search_select_show lay p = stop_hide_timer (place_select_window lay p)

-- `OnSearchSelectHide`
unfoldable pub on_search_select_hide : Panel → Panel
on_search_select_hide p = record (set_timeout close_selection close_selection_timeout p) {
  hide_timeout = p.next_timer;
}
