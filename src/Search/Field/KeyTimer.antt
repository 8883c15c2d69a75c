-- ===== src/Search/Field/KeyTimer.antt =====
-- The search that `OnSearchFieldChange` has waiting.
use hex_fiend.Prelude.{
  ℕ, ◌<◌, Bool, true, false, ◌&&◌, ◌||◌, List, [], ◌∷◌, Option, none, some, ◌==◌, if◌then◌else◌,
  codes, str_eq, ◌≡◌, refl, arith, ap, ◌∙◌, Bool-cases, inl, inr, not,
}
use hex_fiend.Prelude.Outcome.{returns}
use hex_fiend.Search.Spaces.{strip_all}
use hex_fiend.Search.Panel.{
  Layout, Panel, run_search, clear_timeout, stop_hide_timer, place_select_window,
  on_search_select_show, activate, hide_results,
}
use hex_fiend.Search.Panel.Timers.{waiting}
use hex_fiend.Search.Panel.Timers.Pending.{KeyTimer, without, waiting-without_timer}
use hex_fiend.Search.Results.{Page}
use hex_fiend.Search.Results.Nav.Visible.{nav_next_lem}
use hex_fiend.Search.Field.{
  Site, stop_key_timer, field_changed, focus_first, focus_at, first_select_item, escape_field,
  on_search_field_change,
}

-- No search waits.
record IsQuiet (p : Panel) : Type 0 where
  positive : 0 < p.next_timer
  silent : waiting run_search p.timers ≡ []
  zero_timeout : p.key_timeout ≡ 0

-- The word has changed, to one that is not empty.
abbrev pub is_due : Panel → Bool
is_due p =
    not (str_eq (strip_all p.field_value) p.last_search_value)
    && not (str_eq (strip_all p.field_value) [])

idle_panel : (p : Panel) → KeyTimer p → (p.key_timeout == 0) ≡ true → IsQuiet p
idle_panel p h idle = record {
  positive = h.positive;
  silent = rw idle at h.only;
  zero_timeout = ground arith;
}

without_self : (k : ℕ) → without k (k ∷ []) ≡ []
without_self k = ground arith

cleared :
    (p : Panel)
    → KeyTimer p
    → (p.key_timeout == 0) ≡ false
    → IsQuiet (record (clear_timeout p.key_timeout p) { key_timeout = 0 })
unfolding clear_timeout
cleared p h busy = record {
  positive = h.positive;
  silent =
      waiting-without_timer run_search p.key_timeout p.timers
      ∙ ap (without p.key_timeout) (rw busy at h.only)
      ∙ without_self p.key_timeout;
  zero_timeout = refl;
}

stop_key_timer-IsQuiet : (p : Panel) → KeyTimer p → IsQuiet (stop_key_timer p)
unfolding stop_key_timer
stop_key_timer-IsQuiet p h = elim (Bool-cases (p.key_timeout == 0)) [
  | inl idle ↦ rw idle (idle_panel p h idle)
  | inr busy ↦ rw busy (cleared p h busy)
]

quiet-KeyTimer : (p : Panel) → IsQuiet p → KeyTimer p
quiet-KeyTimer p q = record { positive = q.positive; only = rw q.zero_timeout q.silent }

-- A word that has changed is due for one search, and no search waits else.
field_changed-waiting :
    (p : Panel)
    → IsQuiet p
    → waiting run_search (field_changed p).timers ≡ (if is_due p then p.next_timer ∷ [] else [])
unfolding field_changed waiting
field_changed-waiting p q =
    elim (Bool-cases (str_eq (strip_all p.field_value) p.last_search_value)) [
      | inl same ↦ rw same q.silent
      | inr changed ↦ elim (Bool-cases (str_eq (strip_all p.field_value) [])) [
        | inl empty ↦ rw (changed, empty) q.silent
        | inr typed ↦ rw (changed, typed) (ap (p.next_timer ∷◌) q.silent)
      ]
    ]

armed : (n : ℕ) (ids : List ℕ) → 0 < n → ids ≡ [] → n ∷ ids ≡ (if n == 0 then [] else n ∷ [])
armed n ids h e = let live : (n == 0) ≡ false = ground arith in rw live (ap (n ∷◌) e)

field_changed-KeyTimer : (p : Panel) → IsQuiet p → KeyTimer (field_changed p)
unfolding field_changed waiting
field_changed-KeyTimer p q =
    elim (Bool-cases (str_eq (strip_all p.field_value) p.last_search_value)) [
      | inl same ↦ rw same (quiet-KeyTimer p q)
      | inr changed ↦ elim (Bool-cases (str_eq (strip_all p.field_value) [])) [
        | inl empty ↦
            rw (changed, empty)
              (record { positive = q.positive; only = rw q.zero_timeout q.silent })
        | inr typed ↦
            rw (changed, typed)
              (record {
                positive = omega arith;
                only = armed p.next_timer (waiting run_search p.timers) q.positive q.silent;
              })
      ]
    ]

-- `Activate` sets no timer and stops none.
activate_keeps :
    (b : Bool) (p : Panel)
    → ((activate b p).timers ≡ p.timers)
      × ((activate b p).next_timer ≡ p.next_timer)
      × ((activate b p).key_timeout ≡ p.key_timeout)
unfolding activate
activate_keeps true p = elim (Bool-cases (str_eq p.field_value p.search_label)) [
  | inl label ↦ rw label (refl, refl, refl)
  | inr other ↦ rw other (refl, refl, refl)
]
activate_keeps false p = elim (Bool-cases (str_eq p.results_window.display (codes "block"))) [
  | inl shown ↦ elim (Bool-cases (str_eq p.field_value p.search_label)) [
    | inl label ↦ rw (shown, label) (refl, refl, refl)
    | inr other ↦ rw (shown, other) (refl, refl, refl)
  ]
  | inr hidden ↦ rw hidden (refl, refl, refl)
]

escape_field-KeyTimer : (p : Panel) → IsQuiet p → KeyTimer (escape_field p)
unfolding escape_field
escape_field-KeyTimer p q =
    let (timers, next, timeout) =
      activate_keeps false (record (hide_results p) { last_search_value = [] }) in
    record { positive = rw next q.positive; only = rw (timers, timeout, q.zero_timeout) q.silent }

on_search_select_show-KeyTimer :
    (lay : Layout) (p : Panel) → IsQuiet p → KeyTimer (on_search_select_show lay p)
unfolding on_search_select_show stop_hide_timer clear_timeout place_select_window
on_search_select_show-KeyTimer lay p q = elim (Bool-cases (p.hide_timeout == 0)) [
  | inl idle ↦ rw idle (record { positive = q.positive; only = rw q.zero_timeout q.silent })
  | inr busy ↦ rw busy (record {
    positive = q.positive;
    only = rw q.zero_timeout (
        waiting-without_timer run_search p.hide_timeout p.timers
        ∙ ap (without p.hide_timeout) q.silent);
  })
]

focus_first_returns : (frame : Option Page) → (f : Option Page) × (focus_first frame ≡ returns f)
unfolding focus_first
focus_first_returns none = (none, refl)
focus_first_returns (some page) =
    let (found, e, _) = nav_next_lem page.results 0 in (some (focus_at found page), rw e refl)

-- What the panel is after a key.
panel_after : Layout → ℕ → Bool → Panel → Panel
panel_after lay key shift p =
    let q = stop_key_timer p in
    if key == 40 || key == 13
    then if shift then on_search_select_show lay q else field_changed q
    else if key == 27
    then escape_field q
    else field_changed q

panel_after-KeyTimer :
    (lay : Layout) (key : ℕ) (shift : Bool) (p : Panel)
    → KeyTimer p
    → KeyTimer (panel_after lay key shift p)
unfolding panel_after
panel_after-KeyTimer lay key shift p h =
    let q = stop_key_timer-IsQuiet p h in
    elim (Bool-cases (key == 40 || key == 13)) [
      | inl down ↦ elim (Bool-cases shift) [
        | inl held ↦ rw (down, held) (on_search_select_show-KeyTimer lay (stop_key_timer p) q)
        | inr free ↦ rw (down, free) (field_changed-KeyTimer (stop_key_timer p) q)
      ]
      | inr other ↦ elim (Bool-cases (key == 27)) [
        | inl escape ↦ rw (other, escape) (escape_field-KeyTimer (stop_key_timer p) q)
        | inr typed ↦ rw (other, typed) (field_changed-KeyTimer (stop_key_timer p) q)
      ]
    ]

panel-on_search_field_change :
    (lay : Layout) (key : ℕ) (shift : Bool) (site : Site)
    → (site' : Site) × (on_search_field_change lay key shift site ≡ returns site')
      × (site'.panel ≡ panel_after lay key shift site.panel)
unfolding panel_after on_search_field_change
panel-on_search_field_change lay key shift site = elim (Bool-cases (key == 40 || key == 13)) [
  | inl down ↦ elim (Bool-cases shift) [
    | inl held ↦
        let shown = on_search_select_show lay (stop_key_timer site.panel) in
        (
          record site { panel = shown; selected = first_select_item 0 shown.items },
          rw (down, held) refl,
          rw (down, held) refl,
        )
    | inr free ↦
        let (f, e) = focus_first_returns site.frame in
        (
          record site { panel = field_changed (stop_key_timer site.panel); frame = f },
          rw (down, free, e) refl,
          rw (down, free) refl,
        )
  ]
  | inr other ↦ elim (Bool-cases (key == 27)) [
    | inl escape ↦ (
      record site { panel = escape_field (stop_key_timer site.panel) },
      rw (other, escape) refl,
      rw (other, escape) refl,
    )
    | inr typed ↦ (
      record site { panel = field_changed (stop_key_timer site.panel) },
      rw (other, typed) refl,
      rw (other, typed) refl,
    )
  ]
]

-- If at most one search waits, the one that `keyTimeout` names, then every key in the search field
-- is handled to the end, without an exception, and the same holds after it.
pub on_search_field_change-KeyTimer :
    (lay : Layout) (key : ℕ) (shift : Bool) (site : Site)
    → KeyTimer site.panel
    → (site' : Site) × (on_search_field_change lay key shift site ≡ returns site')
      × KeyTimer site'.panel
on_search_field_change-KeyTimer lay key shift site h =
    let (site', e, same) = panel-on_search_field_change lay key shift site in
    (site', e, rw same (panel_after-KeyTimer lay key shift site.panel h))
