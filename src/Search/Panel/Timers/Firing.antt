-- ===== src/Search/Panel/Timers/Firing.antt =====
-- The search that waits: what its firing leaves, and what a choice of a section leaves.
use hex_fiend.Prelude.{
  ℕ, ◌<◌, true, false, [], ◌∷◌, some, ◌==◌, if◌then◌else◌, Str, codes, str_eq, get_elem?, ◌≡◌, refl,
  arith, ap, ◌∙◌, Bool-cases, inl, inr,
}
use hex_fiend.Prelude.Outcome.{returns}
use hex_fiend.Search.Spaces.{strip_leading, strip_all}
use hex_fiend.Search.Sections.{Sections, index_of}
use hex_fiend.Search.Panel.{Layout, Panel, run_search, clear_timeout}
use hex_fiend.Search.Panel.Query.{
  Strings, index_char, section_name, pages, show_results, open_pages, search,
}
use hex_fiend.Search.Panel.Selection.{select_item_set, on_select_item}
use hex_fiend.Search.Panel.Timers.{waiting, find_timer, fire}
use hex_fiend.Search.Panel.Timers.Pending.{KeyTimer, without, waiting-without_timer}

-- What a search leaves alone.
record IsSearched (p q : Panel) : Type 0 where
  timers : q.timers ≡ p.timers
  next_timer : q.next_timer ≡ p.next_timer
  key_timeout : q.key_timeout ≡ 0

show_results-timers :
    (lay : Layout) (p : Panel)
    → ((show_results lay p).timers ≡ p.timers)
      × ((show_results lay p).next_timer ≡ p.next_timer)
      × ((show_results lay p).key_timeout ≡ p.key_timeout)
unfolding show_results
show_results-timers lay p = elim (Bool-cases (str_eq p.results_window.display (codes "block"))) [
  | inl shown ↦ rw shown (refl, refl, refl)
  | inr hidden ↦ elim (Bool-cases p.inside_frame) [
    | inl frame ↦ rw (hidden, frame) (refl, refl, refl)
    | inr page ↦ rw (hidden, page) (refl, refl, refl)
  ]
]

open_pages-IsSearched :
    (lay : Layout) (value : Str) (to : Str × Str) (p : Panel)
    → IsSearched p (open_pages lay value to (record p { key_timeout = 0 }))
unfolding open_pages
open_pages-IsSearched lay value (page, address) p =
    let (timers, next, timeout) =
      show_results-timers lay (record p { frame_location = address; key_timeout = 0 }) in
    record { timers = timers; next_timer = next; key_timeout = timeout }

search-IsSearched :
    (js : Strings) (table : Sections) (lay : Layout) (p : Panel) {chars : Str}
    → get_elem? table.with_content p.search_index ≡ some chars
    → (q : Panel) × (search js table lay p ≡ returns q) × IsSearched p q
unfolding search
search-IsSearched js table lay p {chars} h =
    let value = strip_leading p.field_value in
    let to =
      pages p.results_path (section_name table p.search_index)
        (index_of (index_char js value) chars) value in
    (
      open_pages lay value to (record p { key_timeout = 0 }),
      rw (h, search),
      open_pages-IsSearched lay value to p,
    )

without-only : (id : ℕ) → without id (if id == 0 then [] else id ∷ []) ≡ []
without-only id = ground arith

-- If at most one search waits, the one that `keyTimeout` names, and the chosen section is in the
-- table, then that timer runs the search, which returns, and no search waits after it.
pub fire_lem :
    (js : Strings) (table : Sections) (lay : Layout) (p : Panel) {chars : Str}
    → KeyTimer p
    → find_timer p.key_timeout p.timers ≡ some run_search
    → get_elem? table.with_content p.search_index ≡ some chars
    → (q : Panel) × (fire js table lay p.key_timeout p ≡ returns q)
      × (waiting run_search q.timers ≡ [])
      × KeyTimer q
unfolding fire clear_timeout
fire_lem js table lay p h found content =
    let (q, e, kept) = search-IsSearched js table lay (clear_timeout p.key_timeout p) content in
    let silent : waiting run_search q.timers ≡ [] =
      ap (waiting run_search) kept.timers
      ∙ waiting-without_timer run_search p.key_timeout p.timers
      ∙ ap (without p.key_timeout) h.only
      ∙ without-only p.key_timeout in
    (
      q,
      rw (found, fire) e,
      silent,
      record { positive = rw kept.next_timer h.positive; only = rw kept.key_timeout silent },
    )

on_select_item_searches :
    (js : Strings) (table : Sections) (lay : Layout) (id : ℕ) (p : Panel)
    → str_eq (strip_all p.field_value) [] ≡ false
    → p.search_active ≡ true
    → on_select_item js table lay id p
      ≡ search js table lay (select_item_set id (record p { search_index = id }))
unfolding on_select_item
on_select_item_searches js table lay id p word active = rw (word, active) refl

-- Where a search waits, the one that `keyTimeout` names, and a word stands in the active search
-- field, the choice of a section of the table searches at once and leaves that timer waiting, with
-- `keyTimeout` at 0.
pub on_select_item-waiting :
    (js : Strings) (table : Sections) (lay : Layout) (id : ℕ) (p : Panel) {chars : Str}
    → KeyTimer p
    → 0 < p.key_timeout
    → get_elem? table.with_content id ≡ some chars
    → str_eq (strip_all p.field_value) [] ≡ false
    → p.search_active ≡ true
    → (q : Panel) × (on_select_item js table lay id p ≡ returns q)
      × (q.key_timeout ≡ 0)
      × (waiting run_search q.timers ≡ p.key_timeout ∷ [])
unfolding select_item_set
on_select_item-waiting js table lay id p h live content word active =
    let (q, e, kept) =
      search-IsSearched js table lay (select_item_set id (record p { search_index = id }))
        content in
    let busy : (p.key_timeout == 0) ≡ false = ground arith in
    (
      q,
      on_select_item_searches js table lay id p word active ∙ e,
      kept.key_timeout,
      ap (waiting run_search) kept.timers ∙ rw busy at h.only,
    )
