-- ===== src/Dynsections/Folders/Runs.antt =====
-- Clicks on a directory, one after another (docs/docs/dynsections.js).
use hex_fiend.Prelude.{
  ℕ, Bool, true, ◌++◌, if◌then◌else◌, Str, codes, ◌≡◌, ap, ap₂, sym, ◌∙◌, subst,
}
use hex_fiend.Dynsections.{
  JQuery, keep, directory_rows, update_stripes, level_rows, toggle_level, toggle_folder,
  matches_child,
}
use hex_fiend.Dynsections.Laws.{IsLawful, mem, every_other, visible, has_class}
use hex_fiend.Dynsections.Frame.{Same, update_stripes-Same, level_rows-Same, toggle_level-Same}
use hex_fiend.Dynsections.Stripes.{RowsOwn, keep-agree, visible-update_stripes, update_stripes_lem}
use hex_fiend.Dynsections.Folders.{
  is_opened, closed_folder, opened_folder, either-Same, toggle_folder_cases, toggle_folder-Same,
}
use hex_fiend.Dynsections.Folders.Tree.{IsDirectory, IsTree, Same-IsDirectory}
use hex_fiend.Dynsections.Folders.Parents.{toggle_level-parents, toggle_folder-parents}

-- A click on a level, or on the arrow of a row that is visible.
pub data Click {D : Type 0} (jq : JQuery D) : D → D → Type 0 where
  on_level : (level : ℕ) (d : D) → Click jq d (toggle_level jq level d)
  on_folder :
      (id : Str) (d : D) (e : ℕ)
      → mem e (jq.select directory_rows d) ≡ true
      → jq.id_of e d ≡ codes "row_" ++ id
      → visible jq e d ≡ true
      → Click jq d (toggle_folder jq id d)

-- Any number of clicks.
pub data Clicks {D : Type 0} (jq : JQuery D) : D → D → Type 0 where
  none_more : (d : D) → Clicks jq d d
  then_more : (a b c : D) → Click jq a b → Clicks jq b c → Clicks jq a c

module _ {D : Type 0} (jq : JQuery D) (own : ℕ → Bool) (law : IsLawful jq own) where
  stripes-update_stripes :
      (d : D)
      → RowsOwn jq own d
      → (e : ℕ) → mem e (jq.select directory_rows (update_stripes jq d)) ≡ true
      → has_class jq (codes "even") e (update_stripes jq d)
        ≡ mem e (
            every_other (
              keep
                (λ f. visible jq f (update_stripes jq d))
                (jq.select directory_rows (update_stripes jq d))))
  stripes-update_stripes d all_own e m =
      let rows = jq.select directory_rows d in
      let same = (update_stripes-Same jq own law d).rows in
      (update_stripes_lem jq own law d all_own e (subst (λ s. mem e s ≡ true) same m)).0
      ∙ ap (λ s. mem e (every_other s))
          (keep-agree (λ f. visible jq f d) (λ f. visible jq f (update_stripes jq d)) rows
              (λ f r. sym (visible-update_stripes jq own law d f (all_own f r)))
            ∙ ap (keep (λ f. visible jq f (update_stripes jq d))) (sym same))

  Same-RowsOwn : (d d' : D) → Same jq d d' → RowsOwn jq own d → RowsOwn jq own d'
  Same-RowsOwn d d' same all_own e m = all_own e (subst (λ s. mem e s ≡ true) same.rows m)

  -- The rows and identifiers are read off the document in front of the click.
  parents_of :
      (d d' : D)
      → Same jq d d'
      → ((r c : ℕ)
          → mem r (jq.select directory_rows d) ≡ true
          → mem c (jq.select directory_rows d) ≡ true
          → matches_child (jq.id_of r d) (jq.id_of c d) ≡ true
          → visible jq c d' ≡ true
          → visible jq r d' ≡ true)
      → (r c : ℕ) → mem r (jq.select directory_rows d') ≡ true
      → mem c (jq.select directory_rows d') ≡ true
      → matches_child (jq.id_of r d') (jq.id_of c d') ≡ true
      → visible jq c d' ≡ true
      → visible jq r d' ≡ true
  parents_of d d' same keeps r c m n child shown =
      keeps r c (subst (λ s. mem r s ≡ true) same.rows m) (subst (λ s. mem c s ≡ true) same.rows n)
        (ap₂ matches_child (sym (same.ids r)) (sym (same.ids c)) ∙ child) shown

  on_level-IsTree : (level : ℕ) (d : D) → IsDirectory jq own d → IsTree jq (toggle_level jq level d)
  unfolding toggle_level
  on_level-IsTree level d dir =
      let shown = level_rows jq level (jq.select directory_rows d) d in
      let same = level_rows-Same jq own law level (jq.select directory_rows d) d in
      record {
        parents =
            parents_of d (toggle_level jq level d) (toggle_level-Same jq own law level d)
              (toggle_level-parents jq own law level d dir);
        stripes = stripes-update_stripes shown (Same-RowsOwn d shown same dir.rows_own);
      }

  on_folder-IsTree :
      (id : Str) (d : D) (e : ℕ)
      → IsDirectory jq own d
      → IsTree jq d
      → mem e (jq.select directory_rows d) ≡ true
      → jq.id_of e d ≡ codes "row_" ++ id
      → visible jq e d ≡ true
      → IsTree jq (toggle_folder jq id d)
  on_folder-IsTree id d e dir tree m named seen =
      let turned =
        if is_opened jq id d
        then closed_folder jq own law id d
        else opened_folder jq own law id d in
      let same = either-Same jq own law id d (is_opened jq id d) in
      record {
        parents =
            parents_of d (toggle_folder jq id d) (toggle_folder-Same jq own law id d)
              (toggle_folder-parents jq own law id d e dir tree m named seen);
        stripes =
            subst
              (λ q.
                (n : ℕ)
                → mem n (jq.select directory_rows q) ≡ true
                → has_class jq (codes "even") n q
                  ≡ mem n (every_other (keep (λ f. visible jq f q) (jq.select directory_rows q))))
              (sym (toggle_folder_cases jq own law id d))
              (stripes-update_stripes turned (Same-RowsOwn d turned same dir.rows_own));
      }

  Click-IsTree :
      (d d' : D)
      → IsDirectory jq own d
      → IsTree jq d
      → Click jq d d'
      → IsDirectory jq own d' × IsTree jq d'
  Click-IsTree d d' dir tree (on_level level _) = (
    Same-IsDirectory jq own law d (toggle_level jq level d) (toggle_level-Same jq own law level d)
        dir,
    on_level-IsTree level d dir,
  )
  Click-IsTree d d' dir tree (on_folder id _ e m named seen) = (
    Same-IsDirectory jq own law d (toggle_folder jq id d) (toggle_folder-Same jq own law id d) dir,
    on_folder-IsTree id d e dir tree m named seen,
  )

  -- If the rows of a directory are a tree, with no row visible without its parent, and exactly every
  -- other visible row has the class `even`, then this is so after any number of clicks on levels and
  -- on the arrows of visible rows.
  pub Clicks-IsTree :
      (d d' : D)
      → IsDirectory jq own d
      → IsTree jq d
      → Clicks jq d d'
      → IsDirectory jq own d' × IsTree jq d'
  Clicks-IsTree d d' dir tree (none_more _) = (dir, tree)
  Clicks-IsTree d d' dir tree (then_more _ b _ click more) =
      let (dir', tree') = Click-IsTree d b dir tree click in Clicks-IsTree b d' dir' tree' more
