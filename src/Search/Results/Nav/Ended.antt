-- ===== src/Search/Results/Nav/Ended.antt =====
-- `Nav` and `NavChild` end.
use hex_fiend.Prelude.{
  ℕ, zero, suc, ◌-◌, Bool, true, false, ◌++◌, Option, none, some, ltb, ◌==◌, if◌then◌else◌, Str,
  codes, arith, Bool-cases, Option-cases, inl, inr, ◌⊎◌, append-cancel,
}
use hex_fiend.Prelude.Digits.{to_decimal, to_string-injective}
use hex_fiend.Prelude.Int.{ℤ, pos, pred_ℤ, int_string}
use hex_fiend.Prelude.Outcome.{Outcome, returns, ◌>>=◌, Ends, bind-Ends}
use hex_fiend.Search.Dom.{Nodes, Way, size, get_element_by_id, parent_node}
use hex_fiend.Search.Dom.Counting.{AllThere, one_more, not_AllThere}
use hex_fiend.Search.Results.{item_id, child_id}
use hex_fiend.Search.Results.Children.{find_child_element}
use hex_fiend.Search.Results.Children.Found.{find_child_element_lem}
use hex_fiend.Search.Results.Nav.{
  World, Event, or_throw, nav_next, nav_prev, last_child_from, child_of_item, last_inside, shows,
  nav_up, focus_up, element_id,
}
use hex_fiend.Search.Results.Nav.Visible.{nav_next_lem, nav_prev_lem}
use hex_fiend.Search.Results.Nav.Keys.{
  or_next, nav_down, nav_side, nav_key, with_processed, nav, child_up, child_down, child_key,
  nav_child,
}

or_throw-Ends {ℓ} : {A : Type ℓ} (o : Option A) → Ends (or_throw o)
or_throw-Ends none = tt
or_throw-Ends (some a) = tt

nav_next-Ends : (doc : Nodes) (i : ℕ) → Ends (nav_next doc i)
nav_next-Ends doc i = let (o, e, _) = nav_next_lem doc i in rw e tt

nav_prev-Ends : (doc : Nodes) (z : ℤ) → Ends (nav_prev doc z)
nav_prev-Ends doc z = let (o, e, _) = nav_prev_lem doc z in rw e tt

find_child_element-Ends : (doc : Nodes) (id : Str) → Ends (find_child_element doc id)
find_child_element-Ends doc id = elim (find_child_element_lem doc id) [
  | inl (_, thrown) ↦ rw thrown tt
  | inr (w, e, kids, first, _, _, _, found, _) ↦ rw found tt
]

child_of_item-Ends : (doc : Nodes) (w : Way) → Ends (child_of_item doc w)
unfolding child_of_item
child_of_item-Ends doc w =
    find_child_element-Ends doc (element_id doc (parent_node (parent_node w)))

-- Either all the children that the fuel reaches are there, or the search for the last one ends.
last_child_from_lem :
    (fuel : ℕ) (doc : Nodes) (prefix : Str) (n : ℕ) (found : Way)
    → AllThere (λ n. prefix ++ to_decimal n) fuel n doc
      ⊎ Ends (last_child_from fuel doc prefix n found)
unfolding last_child_from
last_child_from_lem zero doc prefix n found = inl (λ k lo hi. absurd (omega arith))
last_child_from_lem (suc fuel) doc prefix n found =
    elim (Option-cases (get_element_by_id doc (prefix ++ to_decimal n))) [
      | inl gone ↦ inr (rw (gone, last_child_from) tt)
      | inr (w, here) ↦ elim (last_child_from_lem fuel doc prefix (suc n) w) [
        | inl full ↦ inl (one_more (λ n. prefix ++ to_decimal n) fuel doc n here full)
        | inr ends ↦ inr (rw (here, last_child_from) ends)
      ]
    ]

last_child_from-Ends :
    (doc : Nodes) (prefix : Str) (found : Way)
    → Ends (last_child_from (suc (size doc)) doc prefix 0 found)
last_child_from-Ends doc prefix found =
    elim (last_child_from_lem (suc (size doc)) doc prefix 0 found) [
      | inl full ↦ absurd (
          not_AllThere (λ n. prefix ++ to_decimal n)
            (λ i j e.
              to_string-injective 10 i j (omega arith) (omega arith) (append-cancel prefix e))
            0 doc full)
      | inr ends ↦ ends
    ]

last_inside-Ends : (doc : Nodes) (prefix : Str) (w : Way) → Ends (last_inside doc prefix w)
unfolding last_inside
last_inside-Ends doc prefix w =
    bind-Ends (child_of_item doc w) _ (child_of_item-Ends doc w) (λ child.
      elim (Bool-cases (shows doc child)) [
        | inl shown ↦ rw shown (last_child_from-Ends doc prefix w)
        | inr hidden ↦ rw hidden tt
      ])

focus_up-Ends : (prefix : Str) (o : Option Way) (w : World) → Ends (focus_up prefix o w)
unfolding focus_up
focus_up-Ends prefix none w = tt
focus_up-Ends prefix (some way) w =
    bind-Ends (last_inside w.page.results prefix way) _ (last_inside-Ends w.page.results prefix way)
      (λ last. tt)

nav_up-Ends : (i : ℕ) (w : World) → Ends (nav_up i w)
unfolding nav_up
nav_up-Ends i w =
    bind-Ends (nav_prev w.page.results (pred_ℤ (pos i))) _
      (nav_prev-Ends w.page.results (pred_ℤ (pos i)))
      (λ found. focus_up-Ends (codes "Item" ++ int_string (pred_ℤ (pos i)) ++ codes "_c") found w)

or_next-Ends : (doc : Nodes) (i : ℕ) (o : Option Way) → Ends (or_next doc i o)
unfolding or_next
or_next-Ends doc i none = nav_next-Ends doc i
or_next-Ends doc i (some w) = tt

nav_down-Ends : (i : ℕ) (w : World) → Ends (nav_down i w)
unfolding nav_down
nav_down-Ends i w =
    let first : Option Way → Option Way = λ elem.
      if shows w.page.results elem then get_element_by_id w.page.results (child_id i 0) else none in
    bind-Ends (or_throw (get_element_by_id w.page.results (item_id i))) _ (or_throw-Ends _) (λ item.
      bind-Ends (child_of_item w.page.results item) _ (child_of_item-Ends w.page.results item)
        (λ elem.
          bind-Ends {B = World} (or_next w.page.results (suc i) (first elem)) _
            (or_next-Ends w.page.results (suc i) (first elem)) (λ o. tt)))

nav_side-Ends : (v : Str) (i : ℕ) (w : World) → Ends (nav_side v i w)
unfolding nav_side
nav_side-Ends v i w =
    bind-Ends (or_throw (get_element_by_id w.page.results (item_id i))) _ (or_throw-Ends _) (λ item.
      bind-Ends (child_of_item w.page.results item) _ (child_of_item-Ends w.page.results item)
        (λ elem. tt))

-- An operation with a Boolean result behind it.
with_result-Ends :
    (o : Outcome World) (b : Bool) → Ends o → Ends {A = World × Bool} (o >>= λ w. returns (w, b))
with_result-Ends o b h = bind-Ends {B = World × Bool} o (λ w. returns (w, b)) h (λ w. tt)

if-Ends {ℓ} :
    {A : Type ℓ} (b : Bool) (x y : Outcome A) → Ends x → Ends y → Ends (if b then x else y)
if-Ends true x y h k = h
if-Ends false x y h k = k

nav_key-Ends : (key i : ℕ) (w : World) → Ends (nav_key key i w)
unfolding nav_key
nav_key-Ends key i w =
    if-Ends (key == 38) _ _ (with_result-Ends (nav_up i w) false (nav_up-Ends i w)) (
      if-Ends (key == 40) _ _ (with_result-Ends (nav_down i w) false (nav_down-Ends i w)) (
        if-Ends (key == 39) _ _
          (with_result-Ends (nav_side (codes "block") i w) false
            (nav_side-Ends (codes "block") i w))
          (if-Ends (key == 37) _ _
            (with_result-Ends (nav_side (codes "none") i w) false
              (nav_side-Ends (codes "none") i w))
            (if-Ends (key == 27) _ _ tt tt))))

child_up-Ends : (i c : ℕ) (w : World) → Ends (child_up i c w)
unfolding child_up
child_up-Ends i c w =
    bind-Ends
      (or_throw
        (get_element_by_id w.page.results (if ltb 0 c then child_id i (c - 1) else item_id i)))
      _ (or_throw-Ends _) (λ target. tt)

child_down-Ends : (i c : ℕ) (w : World) → Ends (child_down i c w)
unfolding child_down
child_down-Ends i c w =
    let next = get_element_by_id w.page.results (child_id i (suc c)) in
    bind-Ends (or_next w.page.results (suc i) next) _ (or_next-Ends w.page.results (suc i) next)
      (λ o. tt)

child_key-Ends : (key i c : ℕ) (w : World) → Ends (child_key key i c w)
unfolding child_key
child_key-Ends key i c w =
    if-Ends (key == 38) _ _ (with_result-Ends (child_up i c w) false (child_up-Ends i c w)) (
      if-Ends (key == 40) _ _ (with_result-Ends (child_down i c w) false (child_down-Ends i c w))
        (if-Ends (key == 27) _ _ tt tt))

-- `Nav` and `NavChild` end for every event, on every page: a run of either returns or throws.
pub nav-Ends : (e : Event) (i c : ℕ) (w : World) → Ends (nav e i w) × Ends (nav_child e i c w)
unfolding nav nav_child
nav-Ends e i c w =
    let (w', go_on) = with_processed e w in
    (
      if-Ends (e.key_code == 13) _ _ tt (if-Ends go_on _ _ (nav_key-Ends w'.page.last_key i w') tt),
      if-Ends (e.key_code == 13) _ _ tt
          (if-Ends go_on _ _ (child_key-Ends w'.page.last_key i c w') tt),
    )
