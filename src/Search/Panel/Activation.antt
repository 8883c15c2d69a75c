-- ===== src/Search/Panel/Activation.antt =====
-- Opening and closing the panel.
use hex_fiend.Prelude.{true, false, [], codes, str_eq, str_eq_refl, ◌≡◌, refl}
use hex_fiend.Search.Panel.{Panel, activate, close_results_window}

-- The panel is at rest: nothing is shown, and the search field has its label.
pub record IsAtRest (p : Panel) : Type 0 where
  pub results_hidden : p.results_window.display ≡ codes "none"
  pub close_hidden : p.close_display ≡ codes "none"
  pub inactive : p.search_active ≡ false
  pub class : p.box_class ≡ codes "MSearchBoxInactive"
  pub label : p.field_value ≡ p.search_label
  pub no_search : (p.last_search_value ≡ []) × (p.last_results_page ≡ [])

-- Closing the results puts the panel at rest, whatever it was doing.
pub close_results_window-IsAtRest : (p : Panel) → IsAtRest (close_results_window p)
unfolding close_results_window activate str_eq
close_results_window-IsAtRest p = record {
  results_hidden = refl;
  close_hidden = refl;
  inactive = refl;
  class = refl;
  label = refl;
  no_search = (refl, refl);
}

-- From rest, focus on the search field clears the label and makes the search active; if the focus
-- then leaves with no results shown, the panel is at rest again.
pub activate_twice :
    (p : Panel)
    → IsAtRest p
    → ((activate true p).field_value ≡ [])
      × ((activate true p).search_active ≡ true)
      × IsAtRest (activate false (activate true p))
unfolding activate
activate_twice p h =
    let same : str_eq p.field_value p.search_label ≡ true =
      rw h.label (str_eq_refl p.search_label) in
    let shut : str_eq p.results_window.display (codes "block") ≡ false = rw h.results_hidden refl in
    rw (same, shut)
      (
        refl,
        refl,
        record {
          results_hidden = h.results_hidden;
          close_hidden = h.close_hidden;
          inactive = refl;
          class = refl;
          label = refl;
          no_search = (refl, refl);
        },
      )
