-- ===== src/Search/Results/Filter/Created.antt =====
-- A search on the page that `createResults` builds.
use hex_fiend.Prelude.{
  ℕ, suc, Bool, true, false, List, [], ◌∷◌, ◌++◌, codes, str_eq, ◌≡◌, refl, ap, map, append_assoc,
  append-nil, Bool-cases, inl, inr, ◌∙◌, sym,
}
use hex_fiend.Search.Dom.{Elem, Nodes, nil, node, append_child}
use hex_fiend.Search.Results.{
  Entry, Target, with_target, child_link, scope_span, single_link, toggle_link, children_div,
  entry_div, result_div, multiple_results, set_class_attr, child_links, entry_kids, create_result,
  create_from, create_results,
}
use hex_fiend.Search.Results.Filter.{is_row}
use hex_fiend.Search.Results.Filter.Rows.{elements, rows, select-append}

rows-row :
    (e : Elem) (kids rest : Nodes)
    → is_row e ≡ true
    → rows (node e kids rest) ≡ e ∷ rows kids ++ rows rest
unfolding rows
rows-row e kids rest h = rw h (ap (e ∷◌) (select-append is_row (elements kids) (elements rest)))

rows-other :
    (e : Elem) (kids rest : Nodes)
    → is_row e ≡ false
    → rows (node e kids rest) ≡ rows kids ++ rows rest
unfolding rows
rows-other e kids rest h = rw h (select-append is_row (elements kids) (elements rest))

rows-nil : rows nil ≡ []
unfolding rows
rows-nil = refl

rows-append_child : (ns new : Nodes) → rows (append_child ns new) ≡ rows ns ++ rows new
unfolding append_child
rows-append_child nil new = rw rows-nil
rows-append_child (node e kids rest) new = elim (Bool-cases (is_row e)) [
  | inl h ↦ rw (
    rows-row e kids (append_child rest new) h,
    rows-row e kids rest h,
    rows-append_child rest new,
    append_assoc (rows kids) (rows rest) (rows new),
  )
  | inr h ↦ rw (
    rows-other e kids (append_child rest new) h,
    rows-other e kids rest h,
    rows-append_child rest new,
    append_assoc (rows kids) (rows rest) (rows new),
  )
]

is_row-tag : (e : Elem) → str_eq e.tag (codes "DIV") ≡ false → is_row e ≡ false
unfolding is_row
is_row-tag e h = rw h

tag-with_target : (b : Bool) (e : Elem) → (with_target b e).tag ≡ e.tag
tag-with_target true e = refl
tag-with_target false e = refl

rows-child_links : (e c : ℕ) (ts : List Target) → rows (child_links e c ts) ≡ []
unfolding child_links str_eq
rows-child_links e c [] = rows-nil
rows-child_links e c (t ∷ more) = rw (
  rows-other (child_link e c t) nil (child_links e (suc c) more)
      (is_row-tag (child_link e c t) (rw (tag-with_target t.in_parent _))),
  rows-nil,
  rows-child_links e (suc c) more,
)

is_row-children_div : is_row children_div ≡ false
unfolding is_row set_class_attr
is_row-children_div = refl

is_row-entry_div : is_row entry_div ≡ false
unfolding is_row set_class_attr
is_row-entry_div = refl

pub is_row-result_div : (x : Entry) → is_row (result_div x) ≡ true
unfolding is_row set_class_attr
is_row-result_div x = refl

rows-multiple_results : (e : ℕ) (x : Entry) (ts : List Target) → rows (multiple_results e x ts) ≡ []
unfolding multiple_results str_eq
rows-multiple_results e x ts = rw (
  rows-other (toggle_link e x) nil (node children_div (child_links e 0 ts) nil)
      (is_row-tag (toggle_link e x) refl),
  rows-other children_div (child_links e 0 ts) nil is_row-children_div,
  rows-child_links e 0 ts,
  rows-nil,
)

rows-entry_kids : (e : ℕ) (x : Entry) (ts : List Target) → rows (entry_kids e x ts) ≡ []
unfolding entry_kids str_eq
rows-entry_kids e x [] = rows-multiple_results e x []
rows-entry_kids e x (t ∷ []) = rw (
  rows-other (single_link e x t) nil (node (scope_span t) nil nil)
      (is_row-tag (single_link e x t) (rw (tag-with_target t.in_parent _))),
  rows-other (scope_span t) nil nil (is_row-tag (scope_span t) refl),
  rows-nil,
)
rows-entry_kids e x (t ∷ u ∷ more) = rows-multiple_results e x (t ∷ u ∷ more)

rows-create_result : (e : ℕ) (x : Entry) → rows (create_result e x) ≡ result_div x ∷ []
unfolding create_result
rows-create_result e x = rw (
  rows-row (result_div x) (node entry_div (entry_kids e x x.targets) nil) nil (is_row-result_div x),
  rows-other entry_div (entry_kids e x x.targets) nil is_row-entry_div,
  rows-entry_kids e x x.targets,
  rows-nil,
)

rows-create_from :
    (e : ℕ) (es : List Entry) (acc : Nodes)
    → rows (create_from e es acc) ≡ rows acc ++ map (λ x. result_div x) es
unfolding create_from
rows-create_from e [] acc = sym (append-nil (rows acc))
rows-create_from e (x ∷ es) acc =
    rows-create_from (suc e) es (append_child acc (create_result e x))
    ∙ rw (rows-append_child acc (create_result e x), rows-create_result e x)
        (append_assoc (rows acc) (result_div x ∷ []) (map (λ x. result_div x) es))

-- `createResults` makes one row for each entry, in the order of `searchData`.
pub rows-create_results : (es : List Entry) → rows (create_results es) ≡ map (λ x. result_div x) es
unfolding create_results
rows-create_results es = rw (rows-create_from 0 es nil, rows-nil)
