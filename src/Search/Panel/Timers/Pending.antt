-- ===== src/Search/Panel/Timers/Pending.antt =====
-- Which timers wait after the operations of the panel.
use hex_fiend.Prelude.{
  ℕ, ◌<◌, true, false, List, [], ◌∷◌, ◌==◌, if◌then◌else◌, codes, ◌≡◌, refl, arith, ap, ◌∙◌,
  Bool-cases, inl, inr, All,
}
use hex_fiend.Search.Panel.{
  Layout, Panel, Timer, Action, run_search, without_timer, place_select_window, stop_hide_timer,
  on_search_select_show, on_search_select_hide,
}
use hex_fiend.Search.Panel.Timers.{waiting, same_action}

abbrev pub without : ℕ → List ℕ → List ℕ
without id [] = []
without id (x ∷ xs) = let rest = without id xs in if x == id then rest else x ∷ rest

pub waiting-without_timer :
    (a : Action) (id : ℕ) (ts : List Timer)
    → waiting a (without_timer id ts) ≡ without id (waiting a ts)
unfolding waiting without_timer
waiting-without_timer a id [] = refl
waiting-without_timer a id (t ∷ more) = elim (Bool-cases (t.id == id)) [
  | inl same ↦ elim (Bool-cases (same_action t.action a)) [
    | inl hit ↦ rw (same, hit) (rw same (waiting-without_timer a id more))
    | inr other ↦ rw (same, other) (waiting-without_timer a id more)
  ]
  | inr differs ↦ elim (Bool-cases (same_action t.action a)) [
    | inl hit ↦ rw (differs, hit) (rw differs (ap (t.id ∷◌) (waiting-without_timer a id more)))
    | inr other ↦ rw (differs, other) (waiting-without_timer a id more)
  ]
]

-- At most one search waits, and `keyTimeout` is its timer; it is 0 if none waits.
pub record KeyTimer (p : Panel) : Type 0 where
  pub positive : 0 < p.next_timer
  pub only : waiting run_search p.timers ≡ (if p.key_timeout == 0 then [] else p.key_timeout ∷ [])

without_timer-fresh :
    (id : ℕ) (ts : List Timer) → All (λ t. t.id < id) ts → without_timer id ts ≡ ts
unfolding without_timer
without_timer-fresh id [] h = refl
without_timer-fresh id (t ∷ more) h =
    let differs : (t.id == id) ≡ false = ground (arith, h.0) in
    rw differs (ap (t ∷◌) (without_timer-fresh id more h.1))

without_timer-cons :
    (id : ℕ) (t : Timer) (ts : List Timer)
    → t.id ≡ id
    → All (λ t. t.id < id) ts
    → without_timer id (t ∷ ts) ≡ ts
unfolding without_timer
without_timer-cons id t ts e h =
    let same : (t.id == id) ≡ true = ground arith in rw same (without_timer-fresh id ts h)

stop_hide_timer-timers :
    (p : Panel)
    → 0 < p.hide_timeout
    → ((stop_hide_timer p).timers ≡ without_timer p.hide_timeout p.timers)
      × ((stop_hide_timer p).hide_timeout ≡ 0)
      × ((stop_hide_timer p).select_window ≡ p.select_window)
unfolding stop_hide_timer
stop_hide_timer-timers p h =
    let live : (p.hide_timeout == 0) ≡ false = ground arith in
    (rw live refl, rw live refl, rw live refl)

-- When the mouse leaves the selection window and comes back, the window is shown and every timer is
-- as it was: the one that would have hidden it is stopped, and no other. The timers that wait have
-- lower identifiers than the next one, which is not 0.
pub show-hide :
    (lay : Layout) (p : Panel)
    → 0 < p.next_timer
    → All (λ t. t.id < p.next_timer) p.timers
    → let q = on_search_select_show lay (on_search_select_hide p) in
      (q.timers ≡ p.timers) × (q.hide_timeout ≡ 0) × (q.select_window.display ≡ codes "block")
unfolding on_search_select_show on_search_select_hide place_select_window
show-hide lay p h fresh =
    let hidden = place_select_window lay (on_search_select_hide p) in
    let (timers, timeout, window) = stop_hide_timer-timers hidden h in
    (
      timers ∙ without_timer-cons p.next_timer _ p.timers refl fresh,
      timeout,
      ap (λ s. s.display) window,
    )
