-- ===== src/Search/Results/Children/Order.antt =====
-- The loop of `FindChildElement` ends, and finds the first one that it reaches, in document order.
use hex_fiend.Prelude.{
  ℕ, zero, suc, ◌+◌, true, false, List, [], ◌∷◌, Option, none, some, if◌then◌else◌, ◌≡◌, refl,
  arith, Bool-cases, inl, inr, ◌∙◌, ap, ◌≤◌,
}
use hex_fiend.Prelude.Outcome.{Outcome, returns}
use hex_fiend.Search.Dom.{Elem, Nodes, nil, node, size, or_else}
use hex_fiend.Search.Results.Children.{
  is_div, is_children_div, Cursor, next_place, parent_place, climb, step_on, advance, walk,
}

-- The first element of class SRChildren among nodes and all that is inside the DIVs among them.
unfoldable pub first_children : Nodes → List ℕ → Option (List ℕ)
first_children nil place = none
first_children (node e kids rest) place =
    let inside = if is_div e then first_children kids (0 ∷ place) else none in
    let behind = first_children rest (next_place place) in
    if is_children_div e then some place else or_else inside behind

-- The same for what follows the ancestors, from the innermost on.
first_above : List Nodes → List ℕ → Option (List ℕ)
first_above [] place = none
first_above (rest ∷ ups) place =
    or_else (first_children rest (next_place (parent_place place)))
      (first_above ups (parent_place place))

sizes : List Nodes → ℕ
sizes [] = 0
sizes (ns ∷ more) = size ns + sizes more

-- What the loop comes to from a cursor.
resume : ℕ → Option Cursor → Outcome (Option (List ℕ))
resume fuel none = returns none
resume fuel (some c) = walk fuel c.here c.ups c.place

walk-node :
    (fuel : ℕ) (e : Elem) (kids rest : Nodes) (ups : List Nodes) (place : List ℕ)
    → is_children_div e ≡ false
    → walk (suc fuel) (node e kids rest) ups place ≡ resume fuel (advance e kids rest ups place)
unfolding walk resume
walk-node fuel e kids rest ups place h = rw (h, walk) (ground arith)

walk-hit :
    (fuel : ℕ) (e : Elem) (kids rest : Nodes) (ups : List Nodes) (place : List ℕ)
    → is_children_div e ≡ true
    → walk (suc fuel) (node e kids rest) ups place ≡ returns (some place)
unfolding walk
walk-hit fuel e kids rest ups place h = rw (h, walk)

pub first_children-hit :
    (e : Elem) (kids rest : Nodes) (place : List ℕ)
    → is_children_div e ≡ true
    → some place ≡ first_children (node e kids rest) place
unfolding first_children
first_children-hit e kids rest place h = rw h

or_else_assoc {ℓ} :
    {A : Type ℓ} (a b c : Option A) → or_else a (or_else b c) ≡ or_else (or_else a b) c
or_else_assoc (some a) b c = refl
or_else_assoc none b c = refl

or_else-none {ℓ} : {A : Type ℓ} (a : Option A) → or_else a none ≡ a
or_else-none (some a) = refl
or_else-none none = refl

-- With enough fuel for the nodes that are left, the loop finds the first one in document order.
abbrev Finds : ℕ → Type 0
Finds fuel =
    (e : Elem) (kids rest : Nodes) (ups : List Nodes) (place : List ℕ)
    → size (node e kids rest) + sizes ups ≤ fuel
    → walk fuel (node e kids rest) ups place
      ≡ returns (or_else (first_children (node e kids rest) place) (first_above ups place))

first_above-next :
    (ups : List Nodes) (place : List ℕ) → first_above ups (next_place place) ≡ first_above ups place
unfolding first_above
first_above-next [] place = refl
first_above-next (ns ∷ ups) [] = refl
first_above-next (ns ∷ ups) (i ∷ place) = refl

module _ (fuel : ℕ) (finds : Finds fuel) where
  resume-climb :
      (ups : List Nodes) (place : List ℕ)
      → sizes ups ≤ fuel
      → resume fuel (climb ups place) ≡ returns (first_above ups place)
  unfolding resume climb first_above first_children sizes size
  resume-climb [] place h = refl
  resume-climb (nil ∷ ups) place h = resume-climb ups (parent_place place) (omega arith)
  resume-climb (node e kids rest ∷ ups) place h =
      finds e kids rest ups (next_place (parent_place place)) (omega arith)
      ∙ ap
          (λ o.
            returns
              (or_else (first_children (node e kids rest) (next_place (parent_place place))) o))
          (first_above-next ups (parent_place place))

  resume-step_on :
      (rest : Nodes) (ups : List Nodes) (place : List ℕ)
      → size rest + sizes ups ≤ fuel
      → resume fuel (step_on rest ups place)
        ≡ returns (or_else (first_children rest (next_place place)) (first_above ups place))
  unfolding resume step_on first_children size
  resume-step_on nil ups place h = resume-climb ups place (omega arith)
  resume-step_on (node e kids rest) ups place h =
      finds e kids rest ups (next_place place) (omega arith)
      ∙ ap (λ o. returns (or_else (first_children (node e kids rest) (next_place place)) o))
          (first_above-next ups place)

  resume-advance :
      (e : Elem) (kids rest : Nodes) (ups : List Nodes) (place : List ℕ)
      → is_children_div e ≡ false
      → size kids + size rest + sizes ups ≤ fuel
      → resume fuel (advance e kids rest ups place)
        ≡ returns (or_else (first_children (node e kids rest) place) (first_above ups place))
  unfolding advance resume first_children first_above size sizes
  resume-advance e nil rest ups place h enough = elim (Bool-cases (is_div e)) [
    | inl div ↦ rw (h, div) (resume-step_on rest ups place (omega arith))
    | inr other ↦ rw (h, other) (resume-step_on rest ups place (omega arith))
  ]
  resume-advance e (node e' kids' rest') rest ups place h enough = elim (Bool-cases (is_div e)) [
    | inl div ↦
        rw (h, div)
          (finds e' kids' rest' (rest ∷ ups) (0 ∷ place) (omega arith)
            ∙ ap returns (
                or_else_assoc (first_children (node e' kids' rest') (0 ∷ place))
                  (first_children rest (next_place place)) (first_above ups place)))
    | inr other ↦ rw (h, other) (resume-step_on rest ups place (omega arith))
  ]

walk-Finds : (fuel : ℕ) → Finds fuel
unfolding size
walk-Finds zero e kids rest ups place h = absurd (omega arith)
walk-Finds (suc fuel) e kids rest ups place h = elim (Bool-cases (is_children_div e)) [
  | inl hit ↦
      walk-hit fuel e kids rest ups place hit
      ∙ ap (λ o. returns (or_else o (first_above ups place)))
          (first_children-hit e kids rest place hit)
  | inr other ↦
      rw (walk-node fuel e kids rest ups place other)
        (resume-advance fuel (walk-Finds fuel) e kids rest ups place other (omega arith))
]

-- Below `parentElement` the loop ends within the fuel of `find_child_element`.
pub walk-eq-first_children :
    (ns : Nodes) → walk (suc (size ns)) ns [] (0 ∷ []) ≡ returns (first_children ns (0 ∷ []))
walk-eq-first_children nil = unfold walk first_children in refl
walk-eq-first_children (node e kids rest) =
    walk-Finds (suc (size (node e kids rest))) e kids rest [] (0 ∷ []) (unfold sizes in omega arith)
    ∙ unfold first_above in ap returns (or_else-none (first_children (node e kids rest) (0 ∷ [])))
