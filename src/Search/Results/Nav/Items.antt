-- ===== src/Search/Results/Nav/Items.antt =====
-- Where the items are on a page that `createResults` of docs/docs/search/search.js builds.
use mathlib.Core.Option
use hex_fiend.Prelude.{
  ℕ, zero, suc, ◌+◌, ◌≤◌, ◌<◌, true, false, List, [], ◌∷◌, ◌++◌, none, some, ◌==◌, ==_iff,
  if◌then◌else◌, Str, codes, str_eq, str_eq_iff, Bool-ext, get_elem?, length, ◌≡◌, refl, arith, ap,
  sym, ◌∙◌, All, subst, Bool-cases, inl, inr, drop, append_assoc,
}
use hex_fiend.Prelude.Digits.{digit, to_decimal, to_string-All, to_string-injective}
use hex_fiend.Search.Dom.{
  Nodes, nil, node, append_child, set_attribute, get_attribute, id_of, behind, element_with_id,
}
use hex_fiend.Search.Results.{
  Entry, Target, item_id, child_id, child_link, scope_span, single_link, toggle_link, children_div,
  entry_div, result_div, multiple_results, child_links, entry_kids, create_result, create_from,
  create_results, set_key_actions, set_class_attr,
}

-- The rows of the entries, from a number on.
unfoldable pub created : ℕ → List Entry → Nodes
unfolding entry_kids
created e [] = nil
created e (x ∷ es) =
    node (result_div x) (node entry_div (entry_kids e x x.targets) nil) (created (suc e) es)

append_child_assoc :
    (a b c : Nodes) → append_child (append_child a b) c ≡ append_child a (append_child b c)
unfolding append_child
append_child_assoc nil b c = refl
append_child_assoc (node e kids rest) b c = ap (node e kids) (append_child_assoc rest b c)

append_child-nil : (a : Nodes) → append_child a nil ≡ a
unfolding append_child
append_child-nil nil = refl
append_child-nil (node e kids rest) = ap (node e kids) (append_child-nil rest)

create_from-created :
    (e : ℕ) (es : List Entry) (acc : Nodes) → create_from e es acc ≡ append_child acc (created e es)
unfolding create_from created create_result append_child entry_kids
create_from-created e [] acc = sym (append_child-nil acc)
create_from-created e (x ∷ es) acc =
    create_from-created (suc e) es (append_child acc (create_result e x))
    ∙ append_child_assoc acc (create_result e x) (created (suc e) es)

pub create_results-created : (es : List Entry) → create_results es ≡ created 0 es
unfolding create_results append_child
create_results-created es = create_from-created 0 es nil

-- No numeral has a bar.
abbrev IsNoBar : ℕ → Type 0
IsNoBar c = (c == b'_') ≡ false

digit-IsNoBar : (d : ℕ) → d < 36 → IsNoBar (digit d)
unfolding digit
digit-IsNoBar d h = ground arith

All-right {ℓ} : (P : ℕ → Type ℓ) (xs ys : Str) → All P (xs ++ ys) → All P ys
All-right P [] ys h = h
All-right P (x ∷ xs) ys h = All-right P xs ys h.1

item_id-child_id : (e c k : ℕ) → str_eq (child_id e c) (item_id k) ≡ false
item_id-child_id e c k = elim (Bool-cases (str_eq (child_id e c) (item_id k))) [
  | inr differs ↦ differs
  | inl same ↦
      let numerals = ap (drop 4) ((str_eq_iff (child_id e c) (item_id k)).0 same) in
      let plain : All IsNoBar (to_decimal k) =
        to_string-All IsNoBar 10 k (omega arith) (omega arith) digit-IsNoBar in
      let bar = All-right IsNoBar (to_decimal e) (codes "_c" ++ to_decimal c) (
        subst (All IsNoBar)
          (sym (sym (append_assoc (to_decimal e) (codes "_c") (to_decimal c)) ∙ numerals)) plain) in
      absurd (cc bar.0)
]

item_id-item_id : (e k : ℕ) → str_eq (item_id e) (item_id k) ≡ (e == k)
item_id-item_id e k =
    Bool-ext (str_eq (item_id e) (item_id k)) (e == k)
      (λ h. (==_iff e k).1 (
        to_string-injective 10 e k (omega arith) (omega arith)
          (ap (drop 4) ((str_eq_iff (item_id e) (item_id k)).0 h))))
      (λ h. (str_eq_iff (item_id e) (item_id k)).1 (ap (λ n. item_id n) ((==_iff e k).0 h)))

id_of-child_link : (e c : ℕ) (t : Target) → id_of (child_link e c t) ≡ child_id e c
unfolding set_key_actions set_class_attr set_attribute get_attribute str_eq
id_of-child_link e c t = elim (Bool-cases t.in_parent) [ inl y ↦ rw y refl | inr n ↦ rw n refl ]

id_of-single_link : (e : ℕ) (x : Entry) (t : Target) → id_of (single_link e x t) ≡ item_id e
unfolding set_key_actions set_class_attr set_attribute get_attribute str_eq
id_of-single_link e x t = elim (Bool-cases t.in_parent) [ inl y ↦ rw y refl | inr n ↦ rw n refl ]

id_of-toggle_link : (e : ℕ) (x : Entry) → id_of (toggle_link e x) ≡ item_id e
unfolding set_key_actions set_class_attr set_attribute get_attribute str_eq
id_of-toggle_link e x = refl

child_links-item :
    (e c k : ℕ) (ts : List Target) → element_with_id (child_links e c ts) (item_id k) ≡ none
unfolding child_links element_with_id
child_links-item e c k [] = refl
child_links-item e c k (t ∷ more) =
    rw (id_of-child_link e c t, item_id-child_id e c k, child_links-item e (suc c) k more) refl

children_div-item : (k : ℕ) → str_eq (id_of children_div) (item_id k) ≡ false
unfolding set_class_attr set_attribute get_attribute str_eq
children_div-item k = refl

scope_span-item : (t : Target) (k : ℕ) → str_eq (id_of (scope_span t)) (item_id k) ≡ false
unfolding set_class_attr set_attribute get_attribute str_eq
scope_span-item t k = refl

entry_div-item : (k : ℕ) → str_eq (id_of entry_div) (item_id k) ≡ false
unfolding set_class_attr set_attribute get_attribute str_eq
entry_div-item k = refl

result_div-item : (x : Entry) (k : ℕ) → str_eq (id_of (result_div x)) (item_id k) ≡ false
unfolding set_class_attr set_attribute get_attribute str_eq
result_div-item x k = refl

multiple_results-item :
    (e k : ℕ) (x : Entry) (ts : List Target)
    → element_with_id (multiple_results e x ts) (item_id k)
      ≡ (if e == k then some (0 ∷ []) else none)
unfolding multiple_results element_with_id
multiple_results-item e k x ts =
    rw (id_of-toggle_link e x, item_id-item_id e k, children_div-item k, child_links-item e 0 k ts)
      (ground arith)

-- Of the items only the entry's own is inside its row.
entry_kids-item :
    (e k : ℕ) (x : Entry) (ts : List Target)
    → element_with_id (entry_kids e x ts) (item_id k) ≡ (if e == k then some (0 ∷ []) else none)
unfolding entry_kids element_with_id
entry_kids-item e k x [] = multiple_results-item e k x []
entry_kids-item e k x (t ∷ []) =
    rw (id_of-single_link e x t, item_id-item_id e k, scope_span-item t k) (ground arith)
entry_kids-item e k x (t ∷ u ∷ more) = multiple_results-item e k x (t ∷ u ∷ more)

created-cons :
    (e k : ℕ) (x : Entry) (es : List Entry)
    → element_with_id (created e (x ∷ es)) (item_id k) ≡ (
        if e == k
        then some (0 ∷ 0 ∷ 0 ∷ [])
        else Option.map behind (element_with_id (created (suc e) es) (item_id k)))
unfolding created element_with_id
created-cons e k x es = elim (Bool-cases (e == k)) [
  | inl own ↦ rw (result_div-item x k, entry_div-item k, entry_kids-item e k x x.targets, own) refl
  | inr other ↦
      rw (result_div-item x k, entry_div-item k, entry_kids-item e k x x.targets, other) refl
]

-- The item of an entry is in the entry's row, and there is none behind the last.
pub created-item :
    (j e : ℕ) (es : List Entry) (x : Entry)
    → get_elem? es j ≡ some x
    → element_with_id (created e es) (item_id (e + j)) ≡ some (j ∷ 0 ∷ 0 ∷ [])
created-item j e [] x h = absurd (cc h)
created-item zero e (y ∷ es) x h =
    let own : (e == e + 0) ≡ true = ground arith in created-cons e (e + 0) y es ∙ rw own refl
created-item (suc j) e (y ∷ es) x h =
    let other : (e == e + suc j) ≡ false = ground arith in
    let next : e + suc j ≡ suc e + j = omega arith in
    created-cons e (e + suc j) y es
    ∙ rw other (
        ap (λ n. Option.map behind (element_with_id (created (suc e) es) (item_id n))) next
        ∙ ap (Option.map behind) (created-item j (suc e) es x h))

pub created-no_item :
    (e k : ℕ) (es : List Entry)
    → e + length es ≤ k
    → element_with_id (created e es) (item_id k) ≡ none
unfolding created element_with_id
created-no_item e k [] h = refl
created-no_item e k (y ∷ es) h =
    let other : (e == k) ≡ false = ground (arith, h) in
    created-cons e k y es
    ∙ rw other (ap (Option.map behind) (created-no_item (suc e) k es (omega (arith, h))))
