-- ===== src/Dynsections/Folders/Parents.antt =====
-- `toggleLevel` and `toggleFolder` of docs/docs/dynsections.js show no row without its parent.
use hex_fiend.Prelude.{
  ℕ, Bool, true, not, ◌&&◌, ◌||◌, [], ◌∷◌, ◌++◌, if◌then◌else◌, Str, codes, ◌≡◌, ap, sym, ◌∙◌,
  arith, Bool-cases, inl, inr, subst,
}
use hex_fiend.Dynsections.{JQuery, directory_rows, matches_child, toggle_level, toggle_folder}
use hex_fiend.Dynsections.Laws.{IsLawful, mem, visible, starts_with, IsName}
use hex_fiend.Dynsections.Levels.{toggle_level-visible}
use hex_fiend.Dynsections.Folders.{rows_after, children, descendants, is_opened, toggle_folder_lem}
use hex_fiend.Dynsections.Folders.Ids.{
  after, after_trans, matches_child-starts_with, matches_child_unique, starts_with_trans,
}
use hex_fiend.Dynsections.Folders.Tree.{IsDirectory, IsTree, starts_with-depth, mem-keep}

module _ {D : Type 0} (jq : JQuery D) (own : ℕ → Bool) (law : IsLawful jq own) where
  -- Levels: a parent is less deep than its child.
  pub toggle_level-parents :
      (level : ℕ) (d : D)
      → IsDirectory jq own d
      → (r c : ℕ) → mem r (jq.select directory_rows d) ≡ true
      → mem c (jq.select directory_rows d) ≡ true
      → matches_child (jq.id_of r d) (jq.id_of c d) ≡ true
      → visible jq c (toggle_level jq level d) ≡ true
      → visible jq r (toggle_level jq level d) ≡ true
  toggle_level-parents level d dir r c r_in c_in child shown =
      let lowers =
        matches_child-starts_with (jq.id_of r d) (jq.id_of c d) (dir.ids r r_in).lower
          (dir.ids c c_in).lower child in
      toggle_level-visible jq own law level d dir.rows_own r r_in
      ∙ ground (
        arith,
        sym (toggle_level-visible jq own law level d dir.rows_own c c_in) ∙ shown,
        starts_with-depth (jq.id_of r d) (jq.id_of c d) lowers,
      )

  -- The row that is clicked.
  rows_after-row :
      (id : Str) (d : D) (e : ℕ)
      → IsDirectory jq own d
      → mem e (jq.select directory_rows d) ≡ true
      → jq.id_of e d ≡ codes "row_" ++ id
      → rows_after jq id d ≡ after e (jq.select directory_rows d)
  rows_after-row id d e dir e_in named =
      ap (λ s. jq.next_all (codes "tr") s d)
        (ap (λ x. jq.select (b'#' ∷ x) d) (sym named) ∙ dir.by_id e e_in)
      ∙ dir.next e e_in

  -- A row that is hidden has all its children hidden.
  descendants-child :
      (id : Str) (d : D) (e r c : ℕ)
      → IsDirectory jq own d
      → mem e (jq.select directory_rows d) ≡ true
      → jq.id_of e d ≡ codes "row_" ++ id
      → mem r (jq.select directory_rows d) ≡ true
      → mem c (jq.select directory_rows d) ≡ true
      → matches_child (jq.id_of r d) (jq.id_of c d) ≡ true
      → mem r (descendants jq id d) ≡ true
      → mem c (descendants jq id d) ≡ true
  descendants-child id d e r c dir e_in named r_in c_in child below =
      let rows = jq.select directory_rows d in
      let from = rows_after-row id d e dir e_in named in
      let test = λ (n : ℕ). starts_with (codes "row_" ++ id) (jq.id_of n d) in
      let both = sym (mem-keep test r (rows_after jq id d)) ∙ below in
      let r_after : mem r (after e rows) ≡ true =
        subst (λ s. mem r s ≡ true) from (ground (arith, both)) in
      let c_after =
        after_trans e r c rows dir.rows_distinct r_after (dir.order r c r_in c_in child) in
      let c_test : test c ≡ true =
        starts_with_trans (codes "row_" ++ id) (jq.id_of r d) (jq.id_of c d) (ground (arith, both))
          (matches_child-starts_with (jq.id_of r d) (jq.id_of c d) (dir.ids r r_in).lower
            (dir.ids c c_in).lower child) in
      mem-keep test c (rows_after jq id d)
      ∙ ground (arith, subst (λ s. mem c s ≡ true) (sym from) c_after, c_test)

  -- The children that are shown are those of the row.
  children-parent :
      (id : Str) (d : D) (e r c : ℕ)
      → IsDirectory jq own d
      → mem e (jq.select directory_rows d) ≡ true
      → jq.id_of e d ≡ codes "row_" ++ id
      → mem r (jq.select directory_rows d) ≡ true
      → mem c (jq.select directory_rows d) ≡ true
      → matches_child (jq.id_of r d) (jq.id_of c d) ≡ true
      → mem c (children jq id d) ≡ true
      → r ≡ e
  children-parent id d e r c dir e_in named r_in c_in child below =
      let both =
        sym
          (mem-keep (λ n. matches_child (codes "row_" ++ id) (jq.id_of n d)) c (rows_after jq id d))
        ∙ below in
      let row = dir.ids r r_in in
      let clicked = dir.ids e e_in in
      let same : jq.id_of r d ≡ jq.id_of e d =
        matches_child_unique (jq.id_of r d) (jq.id_of e d) (jq.id_of c d) row.lower clicked.lower
          (dir.ids c c_in).lower row.bar clicked.bar child
          (ap (λ x. matches_child x (jq.id_of c d)) named ∙ ground (arith, both)) in
      let one : r ∷ [] ≡ e ∷ [] =
        sym (dir.by_id r r_in) ∙ ap (λ x. jq.select (b'#' ∷ x) d) same ∙ dir.by_id e e_in in
      cc one

  clicked_visible :
      (id : Str) (d : D) (e r c : ℕ)
      → IsDirectory jq own d
      → mem e (jq.select directory_rows d) ≡ true
      → jq.id_of e d ≡ codes "row_" ++ id
      → visible jq e d ≡ true
      → mem r (jq.select directory_rows d) ≡ true
      → mem c (jq.select directory_rows d) ≡ true
      → matches_child (jq.id_of r d) (jq.id_of c d) ≡ true
      → mem c (children jq id d) ≡ true
      → visible jq r d ≡ true
  clicked_visible id d e r c dir e_in named seen r_in c_in child below =
      subst (λ n. visible jq n d ≡ true)
        (sym (children-parent id d e r c dir e_in named r_in c_in child below)) seen

  pub toggle_folder-parents :
      (id : Str) (d : D) (e : ℕ)
      → IsDirectory jq own d
      → IsTree jq d
      → mem e (jq.select directory_rows d) ≡ true
      → jq.id_of e d ≡ codes "row_" ++ id
      → visible jq e d ≡ true
      → (r c : ℕ) → mem r (jq.select directory_rows d) ≡ true
      → mem c (jq.select directory_rows d) ≡ true
      → matches_child (jq.id_of r d) (jq.id_of c d) ≡ true
      → visible jq c (toggle_folder jq id d) ≡ true
      → visible jq r (toggle_folder jq id d) ≡ true
  toggle_folder-parents id d e dir tree e_in named seen r c r_in c_in child shown =
      let name = subst IsName named (dir.ids e e_in).name in
      let row = toggle_folder_lem jq own law id d r name (dir.rows_own r r_in) in
      let kid = sym (toggle_folder_lem jq own law id d c name (dir.rows_own c c_in)) ∙ shown in
      let keeps = tree.parents r c r_in c_in child in
      row ∙ elim (Bool-cases (is_opened jq id d)) [
        | inl b ↦
            let kid' : (not (mem c (descendants jq id d)) && visible jq c d) ≡ true =
              subst
                (λ o.
                  (if o
                    then not (mem c (descendants jq id d)) && visible jq c d
                    else mem c (children jq id d) || visible jq c d)
                  ≡ true)
                b kid in
            rw b (
              ground
                (arith, kid', keeps, descendants-child id d e r c dir e_in named r_in c_in child))
        | inr b ↦
            let kid' : (mem c (children jq id d) || visible jq c d) ≡ true =
              subst
                (λ o.
                  (if o
                    then not (mem c (descendants jq id d)) && visible jq c d
                    else mem c (children jq id d) || visible jq c d)
                  ≡ true)
                b kid in
            rw b (
              ground (
                arith,
                kid',
                keeps,
                λ (m : mem c (children jq id d) ≡ true).
                    clicked_visible id d e r c dir e_in named seen r_in c_in child m,
              ))
      ]
