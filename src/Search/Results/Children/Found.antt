-- ===== src/Search/Results/Children/Found.antt =====
-- What `FindChildElement` returns for any document, and what `Toggle` changes.
use mathlib.Core.Option
use hex_fiend.Prelude.{
  ℕ, zero, suc, true, List, [], ◌∷◌, ◌++◌, Option, none, some, if◌then◌else◌, Str, codes, str_eq,
  ◌≡◌, ◌≢◌, refl, arith, Option-cases, ◌⊎◌, inl, inr, ◌∙◌, sym, ap,
}
use hex_fiend.Prelude.Outcome.{Outcome, returns, throws}
use hex_fiend.Search.Dom.{
  Elem, Nodes, nil, node, Way, id_of, get_element_by_id, node_at, set_display,
}
use hex_fiend.Search.Dom.Lookup.{
  get_element_by_id-Stands, node_at-set_display_self, elem_at, elem_at-set_display_ne,
}
use hex_fiend.Search.Results.{Page}
use hex_fiend.Search.Results.Children.{
  is_children_div, way_onto, find_below, find_child_element, display_at, toggle_at, toggle,
}
use hex_fiend.Search.Results.Children.Order.{first_children, walk-eq-first_children}
use hex_fiend.Search.Results.Children.First.{IsFirst}
use hex_fiend.Search.Results.Children.Leads.{Leads, first_children-Leads, first_children-IsFirst}

elim_map :
    (w : Way) (o : Option (List ℕ))
    → returns (elim o [ none ↦ none | some p ↦ some (w ++ way_onto p []) ])
      ≡ returns (Option.map (λ p. w ++ way_onto p []) o)
elim_map w none = refl
elim_map w (some p) = refl

find_below_lem :
    (w : Way) (e : Elem) (kids : Nodes)
    → find_below w (e, kids)
      ≡ returns (Option.map (λ p. w ++ way_onto p []) (first_children kids (0 ∷ [])))
unfolding find_below
find_below_lem w e kids =
    rw (walk-eq-first_children kids) (elim_map w (first_children kids (0 ∷ [])))

found_below :
    (doc : Nodes) (id : Str)
    → (get_element_by_id doc id ≡ none) × (find_child_element doc id ≡ throws)
      ⊎ ((w : Way) × (e : Elem) × (kids : Nodes) × (get_element_by_id doc id ≡ some w)
          × (node_at w doc ≡ some (e, kids))
          × (id_of e ≡ id)
          × (find_child_element doc id
              ≡ returns (Option.map (λ p. w ++ way_onto p []) (first_children kids (0 ∷ [])))))
unfolding find_child_element
found_below doc id = elim (Option-cases (get_element_by_id doc id)) [
  | inl gone ↦ inl (gone, rw gone)
  | inr (w, found) ↦
      let (e, kids, at, same) = get_element_by_id-Stands doc id found in
      inr (w, e, kids, found, at, same, rw (found, at) (find_below_lem w e kids))
]

map-map :
    (w : Way) (o : Option (List ℕ))
    → Option.map (λ p. w ++ way_onto p []) o
      ≡ Option.map (w ++◌) (Option.map (λ p. way_onto p []) o)
map-map w none = refl
map-map w (some p) = refl

-- `FindChildElement` throws exactly if the identifier is not there. Else it ends with the first DIV
-- of class SRChildren, in document order, among those below the element of that identifier that
-- have nothing but DIVs between, and with no element exactly if there is none among those.
pub find_child_element_lem :
    (doc : Nodes) (id : Str)
    → (get_element_by_id doc id ≡ none) × (find_child_element doc id ≡ throws)
      ⊎ ((w : Way) × (e : Elem) × (kids : Nodes) × (first : Option Way) × (get_element_by_id doc id
            ≡ some w)
          × (node_at w doc ≡ some (e, kids))
          × (id_of e ≡ id)
          × (find_child_element doc id ≡ returns (Option.map (w ++◌) first))
          × IsFirst kids first)
find_child_element_lem doc id = elim (found_below doc id) [
  | inl gone ↦ inl gone
  | inr (w, e, kids, found, at, same, runs) ↦ inr (
    w,
    e,
    kids,
    Option.map (λ p. way_onto p []) (first_children kids (0 ∷ [])),
    found,
    at,
    same,
    runs ∙ ap returns (map-map w (first_children kids (0 ∷ []))),
    first_children-IsFirst kids,
  )
]

node_at-append :
    (w : Way) (k : ℕ) (down : Way) (doc : Nodes) {e : Elem} {kids : Nodes}
    → node_at w doc ≡ some (e, kids)
    → node_at (w ++ k ∷ down) doc ≡ node_at (k ∷ down) kids
unfolding node_at
node_at-append [] k down doc h = absurd (cc)
node_at-append (i ∷ w) k down nil h = absurd (cc)
node_at-append (zero ∷ []) k down (node e kids rest) h = cc
node_at-append (zero ∷ j ∷ w) k down (node e kids rest) h = node_at-append (j ∷ w) k down kids h
node_at-append (suc i ∷ w) k down (node e kids rest) h = node_at-append (i ∷ w) k down rest h

returned_none :
    (w p : Way) (o : Option (List ℕ))
    → o ≡ none
    → ◌≡◌ {A = Outcome (Option Way)}
        (returns (some w))
        (returns (Option.map (λ q. p ++ way_onto q []) o))
    → ⊥
returned_none w p none e h = cc
returned_none w p (some q) e h = cc

returned_some :
    (w p : Way) (o : Option (List ℕ)) (q : List ℕ)
    → o ≡ some q
    → ◌≡◌ {A = Outcome (Option Way)}
        (returns (some w))
        (returns (Option.map (λ q. p ++ way_onto q []) o))
    → w ≡ p ++ way_onto q []
returned_some w p none q e h = absurd (cc)
returned_some w p (some r) q e h = cc

node_at-Leads :
    (p q : Way) (kids : Nodes) (l : Leads kids 0 [] q) (doc : Nodes) {e : Elem}
    → node_at p doc ≡ some (e, kids)
    → node_at (p ++ way_onto q []) doc ≡ some (l.elem, l.kids)
unfolding way_onto
node_at-Leads p q kids l doc at =
    ap (λ d. node_at (p ++ d) doc) l.way_is
    ∙ ap (λ n. node_at (p ++ n ∷ l.down) doc) (omega arith)
    ∙ node_at-append p l.k l.down doc at
    ∙ l.at

-- What `FindChildElement` returns is an element of the document, of class SRChildren.
pub find_child_element-Stands :
    (doc : Nodes) (id : Str) {w : Way}
    → find_child_element doc id ≡ returns (some w)
    → (e : Elem) × (kids : Nodes) × (node_at w doc ≡ some (e, kids)) × (is_children_div e ≡ true)
find_child_element-Stands doc id {w} h = elim (found_below doc id) [
  | inl (_, throws_) ↦ absurd (cc)
  | inr (p, e, kids, _, at, _, found) ↦ elim (Option-cases (first_children kids (0 ∷ []))) [
    | inl nothing ↦
        absurd (returned_none w p (first_children kids (0 ∷ [])) nothing (sym h ∙ found))
    | inr (q, place) ↦
        let l = first_children-Leads kids 0 [] place in
        let same : w ≡ p ++ way_onto q [] =
          returned_some w p (first_children kids (0 ∷ [])) q place (sym h ∙ found) in
        (l.elem, l.kids, rw same (node_at-Leads p q kids l doc at), l.hit)
  ]
]

-- `Toggle` shows the element that is found if it is not shown, else hides it; no other element of
-- the document changes.
pub toggle_lem :
    (page : Page) (id : Str) {w : Way}
    → find_child_element page.results id ≡ returns (some w)
    → (page' : Page) × (toggle page id ≡ returns page')
      × (display_at page'.results w ≡ (
          if str_eq (display_at page.results w) (codes "block")
          then codes "none"
          else codes "block"))
      × ((u : Way) → u ≢ w → elem_at u page'.results ≡ elem_at u page.results)
unfolding toggle toggle_at
toggle_lem page id {w} h =
    let (e, kids, at, _) = find_child_element-Stands page.results id h in
    let v =
      if str_eq (display_at page.results w) (codes "block") then codes "none" else codes "block" in
    (
      record page { results = set_display w v page.results },
      rw h refl,
      rw (node_at-set_display_self w v page.results at, display_at) refl,
      λ u ne. elem_at-set_display_ne w u v page.results (λ same. ne (sym same)),
    )
