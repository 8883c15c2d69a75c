-- ===== src/Search/Results/Children/First.antt =====
-- What the search of `FindChildElement` in docs/docs/search/search.js reaches, in document order.
use hex_fiend.Prelude.{
  ℕ, zero, suc, Bool, true, false, List, [], ◌∷◌, Option, none, some, ◌==◌, ltb, if◌then◌else◌, ◌≡◌,
  arith, Bool-cases, inl, inr, sym,
}
use hex_fiend.Search.Dom.{Elem, Nodes, nil, node, Way}
use hex_fiend.Search.Results.Children.{is_div, is_children_div, next_place}
use hex_fiend.Search.Results.Children.Order.{first_children}

-- The element at the end of a way, where every element that the way passes is a DIV.
unfoldable pub reached : Nodes → Way → Option Elem
reached nil way = none
reached (node e kids rest) [] = none
reached (node e kids rest) (zero ∷ []) = some e
reached (node e kids rest) (zero ∷ j ∷ down) = if is_div e then reached kids (j ∷ down) else none
reached (node e kids rest) (suc i ∷ down) = reached rest (i ∷ down)

-- Document order: an element stands before what is inside it, and before what follows it.
unfoldable pub before : Way → Way → Bool
before [] [] = false
before [] (j ∷ down) = true
before (i ∷ down) [] = false
before (i ∷ down) (j ∷ down') = if i == j then before down down' else ltb i j

-- No element that is reached through DIVs is a DIV of class SRChildren.
abbrev pub HasNone : Nodes → Type 0
HasNone ns = (v : Way) (y : Elem) → reached ns v ≡ some y → is_children_div y ≡ false

-- None of those that are reached through DIVs and stand before a place is one.
abbrev pub NoneBefore : Nodes → Way → Type 0
NoneBefore ns w =
    (v : Way) (y : Elem) → reached ns v ≡ some y → before v w ≡ true → is_children_div y ≡ false

-- The way of the first DIV of class SRChildren that is reached through DIVs, if there is one.
abbrev pub IsFirst : Nodes → Option Way → Type 0
IsFirst ns none = HasNone ns
IsFirst ns (some w) =
    (x : Elem) × (reached ns w ≡ some x) × (is_children_div x ≡ true) × NoneBefore ns w

node-HasNone :
    (e : Elem) (kids rest : Nodes)
    → is_children_div e ≡ false
    → (is_div e ≡ true → HasNone kids)
    → HasNone rest
    → HasNone (node e kids rest)
unfolding reached
node-HasNone e kids rest other inside behind_ [] y h = absurd (cc h)
node-HasNone e kids rest other inside behind_ (zero ∷ []) y h =
    let same : e ≡ y = cc h in rw (sym same) other
node-HasNone e kids rest other inside behind_ (zero ∷ j ∷ v) y h = elim (Bool-cases (is_div e)) [
  | inl div ↦ inside div (j ∷ v) y (ground (arith, h, div))
  | inr not_div ↦ absurd (ground (arith, h, not_div))
]
node-HasNone e kids rest other inside behind_ (suc i ∷ v) y h = behind_ (i ∷ v) y h

pub first_children-HasNone :
    (ns : Nodes) (place : List ℕ) → first_children ns place ≡ none → HasNone ns
unfolding first_children reached
first_children-HasNone nil place h = λ v y at. absurd (cc at)
first_children-HasNone (node e kids rest) place h = elim (Bool-cases (is_children_div e)) [
  | inl hit ↦ absurd (ground (arith, h, hit))
  | inr other ↦
      node-HasNone e kids rest other
        (λ div. first_children-HasNone kids (0 ∷ place) (ground (arith, h, other, div)))
        (first_children-HasNone rest (next_place place) (ground (arith, h, other)))
]

pub hit-NoneBefore : (e : Elem) (kids rest : Nodes) → NoneBefore (node e kids rest) (0 ∷ [])
unfolding before
hit-NoneBefore e kids rest [] y h b = absurd (unfold reached in cc h)
hit-NoneBefore e kids rest (zero ∷ []) y h b = absurd (cc b)
hit-NoneBefore e kids rest (zero ∷ j ∷ v) y h b = absurd (cc b)
hit-NoneBefore e kids rest (suc i ∷ v) y h b = absurd (ground (arith, b))

in_front :
    (e : Elem) (kids rest : Nodes) (v : Way) {y : Elem}
    → reached (node e kids rest) (zero ∷ v) ≡ some y
    → reached (node e kids nil) (zero ∷ v) ≡ some y
unfolding reached
in_front e kids rest [] h = h
in_front e kids rest (j ∷ v) h = h

pub behind-NoneBefore :
    (e : Elem) (kids rest : Nodes) (k : ℕ) (down : Way)
    → is_children_div e ≡ false
    → (is_div e ≡ true → HasNone kids)
    → NoneBefore rest (k ∷ down)
    → NoneBefore (node e kids rest) (suc k ∷ down)
unfolding reached before
behind-NoneBefore e kids rest k down other inside first [] y h b = absurd (cc h)
behind-NoneBefore e kids rest k down other inside first (zero ∷ v) y h b =
    node-HasNone e kids nil other inside (λ u z at. absurd (cc at)) (zero ∷ v) y
      (in_front e kids rest v h)
behind-NoneBefore e kids rest k down other inside first (suc i ∷ v) y h b =
    first (i ∷ v) y h (ground (arith, b))

pub inside-NoneBefore :
    (e : Elem) (kids rest : Nodes) (down : Way)
    → is_children_div e ≡ false
    → NoneBefore kids down
    → NoneBefore (node e kids rest) (0 ∷ down)
unfolding reached before
inside-NoneBefore e kids rest down other first [] y h b = absurd (cc h)
inside-NoneBefore e kids rest down other first (zero ∷ []) y h b =
    let same : e ≡ y = cc h in rw (sym same) other
inside-NoneBefore e kids rest down other first (zero ∷ j ∷ v) y h b =
    first (j ∷ v) y (ground (arith, h)) (ground (arith, b))
inside-NoneBefore e kids rest down other first (suc i ∷ v) y h b = absurd (ground (arith, b))
