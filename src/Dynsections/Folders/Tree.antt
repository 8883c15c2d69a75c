-- ===== src/Dynsections/Folders/Tree.antt =====
-- The rows that the handlers of docs/docs/dynsections.js show make a tree: none is shown without its
-- parent.
use hex_fiend.Prelude.{
  ℕ, ◌≤◌, Bool, true, ◌&&◌, List, [], ◌∷◌, ◌==◌, ==_iff, Str, codes, ◌≡◌, refl, ap, ap₂, sym, ◌∙◌,
  arith, Bool-cases, inl, inr, subst,
}
use hex_fiend.Dynsections.{JQuery, keep, directory_rows, depth, matches_child}
use hex_fiend.Dynsections.Laws.{IsLawful, mem, every_other, visible, has_class, starts_with, IsName}
use hex_fiend.Dynsections.Frame.{Same}
use hex_fiend.Dynsections.Stripes.{RowsOwn}
use hex_fiend.Dynsections.Folders.Ids.{IsLower, ends_bar, after, distinct}

-- Lower case letters, digits and `_`, with `_` at the end.
pub record IsRowId (s : Str) : Type 0 where
  pub lower : IsLower s
  pub name : IsName s
  pub bar : ends_bar s ≡ true

-- The table of a directory: its rows stand beside each other, each below its parent, and their
-- identifiers differ.
pub record IsDirectory {D : Type 0} (jq : JQuery D) (own : ℕ → Bool) (d : D) : Type 0 where
  pub rows_own : RowsOwn jq own d
  pub ids : (e : ℕ) → mem e (jq.select directory_rows d) ≡ true → IsRowId (jq.id_of e d)
  pub by_id :
      (e : ℕ)
      → mem e (jq.select directory_rows d) ≡ true
      → jq.select (b'#' ∷ jq.id_of e d) d ≡ e ∷ []
  pub next :
      (e : ℕ)
      → mem e (jq.select directory_rows d) ≡ true
      → jq.next_all (codes "tr") (e ∷ []) d ≡ after e (jq.select directory_rows d)
  pub rows_distinct : distinct (jq.select directory_rows d) ≡ true
  pub order :
      (r c : ℕ)
      → mem r (jq.select directory_rows d) ≡ true
      → mem c (jq.select directory_rows d) ≡ true
      → matches_child (jq.id_of r d) (jq.id_of c d) ≡ true
      → mem c (after r (jq.select directory_rows d)) ≡ true

-- A visible row's parent is visible, and exactly every other visible row has the class `even`.
pub record IsTree {D : Type 0} (jq : JQuery D) (d : D) : Type 0 where
  pub parents :
      (r c : ℕ)
      → mem r (jq.select directory_rows d) ≡ true
      → mem c (jq.select directory_rows d) ≡ true
      → matches_child (jq.id_of r d) (jq.id_of c d) ≡ true
      → visible jq c d ≡ true
      → visible jq r d ≡ true
  pub stripes :
      (e : ℕ)
      → mem e (jq.select directory_rows d) ≡ true
      → has_class jq (codes "even") e d
        ≡ mem e (every_other (keep (λ f. visible jq f d) (jq.select directory_rows d)))

pub starts_with-depth : (x y : Str) → starts_with x y ≡ true → depth x ≤ depth y
unfolding starts_with depth
starts_with-depth [] y h = omega arith
starts_with-depth (p ∷ ps) [] h = absurd (cc h)
starts_with-depth (p ∷ ps) (c ∷ s) h = ground (arith, h, starts_with-depth ps s)

-- `keep` keeps what the test holds of.
pub mem-keep : (p : ℕ → Bool) (e : ℕ) (es : List ℕ) → mem e (keep p es) ≡ (mem e es && p e)
unfolding mem keep
mem-keep p e [] = refl
mem-keep p e (x ∷ es) = elim (Bool-cases (e == x)) [
  | inl at ↦
      let same = ap p ((==_iff e x).0 at) in
      elim (Bool-cases (p x)) [
        | inl y ↦ rw (y, at) (sym (same ∙ y))
        | inr n ↦ rw (n, at) (mem-keep p e es ∙ ground (arith, same, n))
      ]
  | inr other ↦ elim (Bool-cases (p x)) [
    | inl y ↦ rw (y, other) (ground (arith, other, mem-keep p e es))
    | inr n ↦ rw (n, other) (mem-keep p e es)
  ]
]

module _ {D : Type 0} (jq : JQuery D) (own : ℕ → Bool) (law : IsLawful jq own) where
  pub Same-IsDirectory : (d d' : D) → Same jq d d' → IsDirectory jq own d → IsDirectory jq own d'
  Same-IsDirectory d d' same dir =
      let back = λ (e : ℕ) (m : mem e (jq.select directory_rows d') ≡ true).
        subst (λ s. mem e s ≡ true) same.rows m in
      record {
        rows_own = λ e m. dir.rows_own e (back e m);
        ids = λ e m. subst IsRowId (sym (same.ids e)) (dir.ids e (back e m));
        by_id = λ e m.
            ap (λ x. jq.select (b'#' ∷ x) d') (same.ids e)
            ∙ same.by_id (jq.id_of e d)
            ∙ dir.by_id e (back e m);
        next = λ e m.
            same.next (codes "tr") (e ∷ []) ∙ dir.next e (back e m) ∙ ap (after e) (sym same.rows);
        rows_distinct = ap distinct same.rows ∙ dir.rows_distinct;
        order = λ r c m n h.
            ap (λ s. mem c (after r s)) same.rows
            ∙ dir.order r c (back r m) (back c n)
                (ap₂ matches_child (sym (same.ids r)) (sym (same.ids c)) ∙ h);
      }
