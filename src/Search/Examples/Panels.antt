-- ===== src/Search/Examples/Panels.antt =====
-- The properties of the search panel, at the sample panels.
use hex_fiend.Prelude.{
  ℕ, ◌<◌, ◌≡◌, ◌==◌, refl, false, [], ◌∷◌, none, some, if◌then◌else◌, codes, str_eq, arith, map,
  lower_char, get_elem?, length,
}
use hex_fiend.Prelude.Outcome.{returns, throws}
use hex_fiend.Search.Spaces.{strip_leading, strip_trailing, strip_all}
use hex_fiend.Search.Ident.{convert_to_id, is_prefix}
use hex_fiend.Search.Sections.{Sections, site_sections, index_of}
use hex_fiend.Search.Panel.{Panel, on_search_select_show, on_search_select_hide}
use hex_fiend.Search.Panel.Activation.{IsAtRest}
use hex_fiend.Search.Panel.Query.{index_char, search}
use hex_fiend.Search.Panel.Selection.{
  is_select_item, select_item_count, select_item_set, on_search_select_key, bullet, no_break_space,
}
use hex_fiend.Search.Panel.Selection.Marks.{marks, other_items, select_item_set_lem, down_throws}
use hex_fiend.Search.Panel.Timers.{waiting}
use hex_fiend.Search.Panel.Timers.Pending.{KeyTimer, show-hide}
use hex_fiend.Search.Field.{Site, on_search_field_change}
use hex_fiend.Search.Field.KeyTimer.{on_search_field_change-KeyTimer}
use hex_fiend.Search.Results.{result_div, create_results, new_page}
use hex_fiend.Search.Results.Filter
use hex_fiend.Search.Results.Filter.Rows.{rows, shown_if}
use hex_fiend.Search.EndToEnd.{search_shows}
use hex_fiend.Search.Examples.{js, sample_entries, name_of, layout, resting, typing}

search_shows_example :
    (p' : Panel) × (search js site_sections layout typing ≡ returns p')
    × (rows
          (Filter.search
            (map lower_char)
            p'.frame_location
            []
            (new_page (create_results sample_entries))).results
        ≡ map
            (λ x.
              shown_if
                (is_prefix
                  (map lower_char (strip_trailing (strip_leading typing.field_value)))
                  (name_of x))
                (result_div x))
            sample_entries)
unfolding strip_leading strip_trailing index_char index_of convert_to_id lower_char
search_shows_example =
    search_shows js site_sections layout typing (codes "_abcdefghiklmnoprstuvw") 8 sample_entries
      name_of refl refl ((refl, refl), tt) ((refl, refl), ((refl, refl), ((refl, refl), tt)))
      (omega arith, (omega arith, (omega arith, (omega arith, tt)))) (λ s h. refl)
      (omega arith, (omega arith, tt))
      (
        (refl, (omega arith, (omega arith, (omega arith, (omega arith, tt))))),
        ((refl, (omega arith, (omega arith, (omega arith, tt)))), tt),
      )

abbrev site : Site
site = record { panel = typing; frame = none; selected = none }

typing-KeyTimer : KeyTimer typing
unfolding waiting
typing-KeyTimer = record { positive = omega arith; only = refl }

on_search_field_change-KeyTimer_example :
    (site' : Site) × (on_search_field_change layout 65 false site ≡ returns site')
    × KeyTimer site'.panel
on_search_field_change-KeyTimer_example =
    on_search_field_change-KeyTimer layout 65 false site typing-KeyTimer

show-hide_example :
    let q = on_search_select_show layout (on_search_select_hide typing) in
    (q.timers ≡ typing.timers) × (q.hide_timeout ≡ 0) × (q.select_window.display ≡ codes "block")
show-hide_example = show-hide layout typing (omega arith) (omega arith, tt)

select_item_set_lem_example :
    let q = select_item_set 1 resting in
    ((k : ℕ)
      → k < select_item_count resting
      → get_elem? (marks q.items) k ≡ some (if k == 1 then bullet else no_break_space))
    × (select_item_count q ≡ select_item_count resting)
    × (length (marks q.items) ≡ select_item_count q)
    × (other_items q.items ≡ other_items resting.items)
select_item_set_lem_example = select_item_set_lem 1 resting

abbrev resting-IsAtRest : IsAtRest resting
resting-IsAtRest = record {
  results_hidden = refl;
  close_hidden = refl;
  inactive = refl;
  class = refl;
  label = refl;
  no_search = (refl, refl);
}

-- As many sections as the sample panel has items.
abbrev two_sections : Sections
two_sections = record {
  with_content = codes "ab" ∷ codes "c" ∷ [];
  names = codes "all" ∷ codes "files" ∷ [];
  labels = codes "All" ∷ codes "Files" ∷ [];
}

abbrev at_last : Panel
at_last = record typing { search_index = 1 }

down_throws_example : on_search_select_key js two_sections layout 40 at_last ≡ throws
unfolding select_item_count is_select_item strip_all str_eq
down_throws_example = down_throws js two_sections layout at_last refl refl refl refl
