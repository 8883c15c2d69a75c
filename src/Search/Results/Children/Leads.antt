-- ===== src/Search/Results/Children/Leads.antt =====
-- The way that `FindChildElement` of docs/docs/search/search.js finds.
use mathlib.Core.Option
use hex_fiend.Prelude.{
  ℕ, suc, ◌+◌, true, false, List, [], ◌∷◌, Option, none, some, if◌then◌else◌, ◌≡◌, refl, arith,
  Bool-cases, Option-cases, inl, inr, ◌∙◌, ap, ap₂,
}
use hex_fiend.Search.Dom.{Elem, Nodes, nil, node, Way, node_at}
use hex_fiend.Search.Results.Children.{is_div, is_children_div, way_onto}
use hex_fiend.Search.Results.Children.Order.{first_children}
use hex_fiend.Search.Results.Children.First.{
  reached, HasNone, NoneBefore, IsFirst, first_children-HasNone, hit-NoneBefore, behind-NoneBefore,
  inside-NoneBefore,
}

-- The way to the first DIV of class SRChildren, from the nodes that are searched.
pub record Leads (ns : Nodes) (i : ℕ) (up p : List ℕ) : Type 0 where
  pub k : ℕ
  pub down : Way
  pub elem : Elem
  pub kids : Nodes
  pub way_is : way_onto p [] ≡ way_onto up ((i + k) ∷ down)
  pub at : node_at (k ∷ down) ns ≡ some (elem, kids)
  pub reached_at : reached ns (k ∷ down) ≡ some elem
  pub first : NoneBefore ns (k ∷ down)
  pub hit : is_children_div elem ≡ true

inside_of : Elem → Nodes → List ℕ → Option (List ℕ)
inside_of e kids place = if is_div e then first_children kids (0 ∷ place) else none

behind-Leads :
    (e : Elem) (kids rest : Nodes) (i : ℕ) (up p : List ℕ)
    → is_children_div e ≡ false
    → (is_div e ≡ true → HasNone kids)
    → Leads rest (suc i) up p
    → Leads (node e kids rest) i up p
behind-Leads e kids rest i up p other inside l = record {
  k = suc l.k;
  down = l.down;
  elem = l.elem;
  kids = l.kids;
  way_is = l.way_is ∙ ap (λ n. way_onto up (n ∷ l.down)) (omega arith);
  at = unfold node_at in l.at;
  reached_at = unfold reached in l.reached_at;
  first = behind-NoneBefore e kids rest l.k l.down other inside l.first;
  hit = l.hit;
}

inside-Leads :
    (e : Elem) (kids rest : Nodes) (i : ℕ) (up p : List ℕ)
    → is_children_div e ≡ false
    → is_div e ≡ true
    → Leads kids 0 (i ∷ up) p
    → Leads (node e kids rest) i up p
unfolding way_onto
inside-Leads e kids rest i up p other div l = record {
  k = 0;
  down = l.k ∷ l.down;
  elem = l.elem;
  kids = l.kids;
  way_is = l.way_is ∙ ap₂ (λ a b. way_onto up (a ∷ b ∷ l.down)) (omega arith) (omega arith);
  at = unfold node_at in l.at;
  reached_at = unfold reached in rw div l.reached_at;
  first = inside-NoneBefore e kids rest (l.k ∷ l.down) other l.first;
  hit = l.hit;
}

-- What is found inside a DIV is found among its children.
inside_found :
    (e : Elem) (kids : Nodes) (place q : List ℕ)
    → inside_of e kids place ≡ some q
    → first_children kids (0 ∷ place) ≡ some q
unfolding inside_of
inside_found e kids place q h = ground arith

inside_div :
    (e : Elem) (kids : Nodes) (place q : List ℕ) → inside_of e kids place ≡ some q → is_div e ≡ true
unfolding inside_of
inside_div e kids place q h = ground arith

-- If nothing is found inside a DIV, its children have nothing to be found.
inside_none :
    (e : Elem) (kids : Nodes) (place : List ℕ)
    → inside_of e kids place ≡ none
    → is_div e ≡ true
    → first_children kids (0 ∷ place) ≡ none
unfolding inside_of
inside_none e kids place h div = ground arith

pub first_children-Leads :
    (ns : Nodes) (i : ℕ) (up : List ℕ) {p : List ℕ}
    → first_children ns (i ∷ up) ≡ some p
    → Leads ns i up p
unfolding first_children inside_of way_onto
first_children-Leads nil i up h = absurd (cc)
first_children-Leads (node e kids rest) i up {p} h = elim (Bool-cases (is_children_div e)) [
  | inl hit ↦
      let same : p ≡ i ∷ up = ground (arith, hit) in
      record {
        k = 0;
        down = [];
        elem = e;
        kids = kids;
        way_is = rw same (ap (λ n. way_onto up (n ∷ [])) (omega arith));
        at = unfold node_at in refl;
        reached_at = unfold reached in refl;
        first = hit-NoneBefore e kids rest;
        hit = hit;
      }
  | inr other ↦ elim (Option-cases (inside_of e kids (i ∷ up))) [
    | inl nothing ↦
        behind-Leads e kids rest i up p other
          (λ div.
            first_children-HasNone kids (0 ∷ i ∷ up) (inside_none e kids (i ∷ up) nothing div))
          (first_children-Leads rest (suc i) up (ground (arith, other, nothing)))
    | inr (q, found) ↦
        let same : p ≡ q = ground (arith, other, found) in
        rw same (
          inside-Leads e kids rest i up q other (inside_div e kids (i ∷ up) q found)
            (first_children-Leads kids 0 (i ∷ up) (inside_found e kids (i ∷ up) q found)))
  ]
]

-- What `first_children` finds is the first DIV of class SRChildren that is reached through DIVs.
pub first_children-IsFirst :
    (ns : Nodes) → IsFirst ns (Option.map (λ p. way_onto p []) (first_children ns (0 ∷ [])))
first_children-IsFirst ns = elim (Option-cases (first_children ns (0 ∷ []))) [
  | inl nothing ↦ rw nothing (first_children-HasNone ns (0 ∷ []) nothing)
  | inr (p, found) ↦
      let l = first_children-Leads ns 0 [] found in
      let way : way_onto p [] ≡ l.k ∷ l.down =
        unfold way_onto in l.way_is ∙ ap (λ n. n ∷ l.down) (omega arith) in
      rw (found, way) (l.elem, l.reached_at, l.hit, l.first)
]
