-- ===== src/Search/Dom/Lookup.antt =====
-- Looking elements up, and changing one of them.
use mathlib.Core.Option
use hex_fiend.Prelude.{
  zero, suc, [], ◌∷◌, Option, some, Str, str_eq, str_eq_iff, ◌≡◌, ◌≢◌, refl, arith, ap, Bool-cases,
  Option-cases, inl, inr,
}
use hex_fiend.Search.Dom.{
  Elem, Nodes, nil, node, Way, behind, id_of, element_with_id, get_element_by_id, node_at,
  set_display,
}

-- There is an element at the way, and it has the identifier.
abbrev pub Stands : Way → Str → Nodes → Type 0
Stands w id doc = (e : Elem) × (kids : Nodes) × (node_at w doc ≡ some (e, kids)) × (id_of e ≡ id)

below-Stands :
    (w : Way) (id : Str) (e : Elem) (kids rest : Nodes)
    → Stands w id kids
    → Stands (0 ∷ w) id (node e kids rest)
unfolding node_at
below-Stands [] id e kids rest (e', kids', at, same) = absurd (cc)
below-Stands (i ∷ w) id e kids rest (e', kids', at, same) = (e', kids', at, same)

behind-Stands :
    (w : Way) (id : Str) (e : Elem) (kids rest : Nodes)
    → Stands w id rest
    → Stands (behind w) id (node e kids rest)
unfolding node_at
behind-Stands [] id e kids rest (e', kids', at, same) = absurd (cc)
behind-Stands (i ∷ w) id e kids rest (e', kids', at, same) = (e', kids', at, same)

element_with_id-Stands :
    (doc : Nodes) (id : Str) {w : Way} → element_with_id doc id ≡ some w → Stands w id doc
unfolding element_with_id
element_with_id-Stands nil id h = absurd (cc)
element_with_id-Stands (node e kids rest) id {w} h = elim (Bool-cases (str_eq (id_of e) id)) [
  | inl same ↦
      let at : w ≡ 0 ∷ [] = ground (arith, same) in
      rw at (e, kids, unfold node_at in refl, (str_eq_iff (id_of e) id).0 same)
  | inr other ↦ elim (Option-cases (element_with_id kids id)) [
    | inl nowhere ↦ elim (Option-cases (element_with_id rest id)) [
      | inl gone ↦ absurd (ground (arith, other, nowhere, gone))
      | inr (w', found) ↦
          let at : w ≡ behind w' = ground (arith, other, nowhere, found) in
          rw at (behind-Stands w' id e kids rest (element_with_id-Stands rest id found))
    ]
    | inr (w', found) ↦
        let at : w ≡ 0 ∷ w' = ground (arith, other, found) in
        rw at (below-Stands w' id e kids rest (element_with_id-Stands kids id found))
  ]
]

-- `getElementById` gives an element of the document that has the identifier.
pub get_element_by_id-Stands :
    (doc : Nodes) (id : Str) {w : Way} → get_element_by_id doc id ≡ some w → Stands w id doc
unfolding get_element_by_id
get_element_by_id-Stands doc [] h = absurd (cc)
get_element_by_id-Stands doc (c ∷ id) h = element_with_id-Stands doc (c ∷ id) h

-- One element changes, and no other.
pub node_at-set_display_self :
    (w : Way) (v : Str) (doc : Nodes) {e : Elem} {kids : Nodes}
    → node_at w doc ≡ some (e, kids)
    → node_at w (set_display w v doc) ≡ some (record e { display = v }, kids)
unfolding node_at set_display
node_at-set_display_self [] v doc h = absurd (cc)
node_at-set_display_self (i ∷ w) v nil h = absurd (cc)
node_at-set_display_self (zero ∷ []) v (node e kids rest) h = ground arith
node_at-set_display_self (zero ∷ j ∷ w) v (node e kids rest) h =
    node_at-set_display_self (j ∷ w) v kids h
node_at-set_display_self (suc i ∷ w) v (node e kids rest) h =
    node_at-set_display_self (i ∷ w) v rest h

abbrev pub elem_at : Way → Nodes → Option Elem
elem_at w doc = Option.map (λ found. found.0) (node_at w doc)

pub elem_at-set_display_ne :
    (w u : Way) (v : Str) (doc : Nodes) → w ≢ u → elem_at u (set_display w v doc) ≡ elem_at u doc
unfolding node_at set_display
elem_at-set_display_ne [] u v doc h = refl
elem_at-set_display_ne (i ∷ w) u v nil h = refl
elem_at-set_display_ne (i ∷ w) [] v (node e kids rest) h = refl
elem_at-set_display_ne (zero ∷ []) (zero ∷ []) v (node e kids rest) h = absurd (h refl)
elem_at-set_display_ne (zero ∷ []) (zero ∷ k ∷ u) v (node e kids rest) h = refl
elem_at-set_display_ne (zero ∷ []) (suc k ∷ u) v (node e kids rest) h = refl
elem_at-set_display_ne (zero ∷ j ∷ w) (zero ∷ []) v (node e kids rest) h = refl
elem_at-set_display_ne (zero ∷ j ∷ w) (zero ∷ k ∷ u) v (node e kids rest) h =
    elem_at-set_display_ne (j ∷ w) (k ∷ u) v kids (λ e. h (ap (0 ∷◌) e))
elem_at-set_display_ne (zero ∷ j ∷ w) (suc k ∷ u) v (node e kids rest) h = refl
elem_at-set_display_ne (suc i ∷ w) (zero ∷ []) v (node e kids rest) h = refl
elem_at-set_display_ne (suc i ∷ w) (zero ∷ k ∷ u) v (node e kids rest) h = refl
elem_at-set_display_ne (suc i ∷ w) (suc k ∷ u) v (node e kids rest) h =
    elem_at-set_display_ne (i ∷ w) (k ∷ u) v rest (λ e. h (ap behind e))
