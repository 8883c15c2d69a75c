-- ===== src/Dynsections/Examples/Clicks.antt =====
-- A directory with three rows, a section and a row of an inherited member, and clicks on them.
use hex_fiend.Prelude.{
  ℕ, zero, suc, ◌+◌, Bool, true, not, ◌&&◌, ◌||◌, List, [], ◌∷◌, ◌++◌, some, ◌==◌, ==_iff, leb, ltb,
  if◌then◌else◌, Str, codes, str_eq, ◌≡◌, refl, arith, lower_char,
}
use hex_fiend.Prelude.Outcome.{returns}
use hex_fiend.Dynsections.{
  JQuery, keep, directory_rows, depth, matches_child, update_stripes, toggle_level, toggle_folder,
  toggle_visibility, toggle_inherit,
}
use hex_fiend.Dynsections.Laws.{IsName, mem, any, every_other, visible, has_class, is_name_char}
use hex_fiend.Dynsections.Stripes.{update_stripes_lem}
use hex_fiend.Dynsections.Levels.{toggle_level_lem}
use hex_fiend.Dynsections.Levels.Icons.{RowsNamed, toggle_level-icon}
use hex_fiend.Dynsections.Folders.{children, descendants, is_opened, toggle_folder_lem}
use hex_fiend.Dynsections.Folders.Ids.{ends_bar, IsLower, after, distinct}
use hex_fiend.Dynsections.Folders.Tree.{IsRowId, IsDirectory, IsTree}
use hex_fiend.Dynsections.Folders.Runs.{Click, Clicks, Clicks-IsTree}
use hex_fiend.Dynsections.Details.{IsSection, IsShowing, toggle_visibility_twice}
use hex_fiend.Dynsections.Inherited.{header_image, toggle_inherit_lem}
use hex_fiend.Dynsections.Examples.{
  Doc, page, page-IsLawful, select_in, selected, id_in, name_in, numbers, is_in, attr_in, source_of,
}

abbrev selections : List (Str × List ℕ)
selections =
    (directory_rows, 0 ∷ 1 ∷ 2 ∷ [])
    ∷ (codes "tr.inherit.pub_methods", 8 ∷ [])
    ∷ (codes "tr.inherit_header.pub_methods img", 9 ∷ [])
    ∷ []

abbrev elements : List (ℕ × Str)
elements =
    (0, codes "row_0_")
    ∷ (1, codes "row_0_0_")
    ∷ (2, codes "row_1_")
    ∷ (3, codes "img_0_")
    ∷ (4, codes "section")
    ∷ (5, codes "section-summary")
    ∷ (6, codes "section-content")
    ∷ (7, codes "section-trigger")
    ∷ []

abbrev jq : JQuery Doc
jq = page selections elements

-- The second row and the summary are hidden.
abbrev start : Doc
start = record {
  shown = λ e. not (e == 1) && not (e == 5);
  classes = λ k e. (str_eq k (codes "even") && e == 0) || (str_eq k (codes "opened") && e == 4);
  source = λ e. some (codes "open.png");
  inner = λ e. [];
}

-- What holds of each row.
each_row : (P : ℕ → Type 0) → P 0 → P 1 → P 2 → (e : ℕ) → mem e (0 ∷ 1 ∷ 2 ∷ []) ≡ true → P e
unfolding mem
each_row P a b c zero m = a
each_row P a b c (suc zero) m = b
each_row P a b c (suc (suc zero)) m = c
each_row P a b c (suc (suc (suc e))) m = absurd (ground (arith, m))

are_plain : Str → Bool
are_plain [] = true
are_plain (c ∷ s) = lower_char c == c && is_name_char c && are_plain s

are_plain-IsLower : (s : Str) → are_plain s ≡ true → IsLower s
unfolding are_plain
are_plain-IsLower [] h = tt
are_plain-IsLower (c ∷ s) h =
    ((==_iff (lower_char c) c).0 (ground arith), are_plain-IsLower s (ground arith))

are_plain-IsName : (s : Str) → are_plain s ≡ true → IsName s
unfolding are_plain
are_plain-IsName [] h = tt
are_plain-IsName (c ∷ s) h = (ground arith, are_plain-IsName s (ground arith))

row-IsRowId : (s : Str) → are_plain s ≡ true → ends_bar s ≡ true → IsRowId s
row-IsRowId s h e = record { lower = are_plain-IsLower s h; name = are_plain-IsName s h; bar = e }

start-IsDirectory : IsDirectory jq (λ e. true) start
unfolding page select_in selected id_in name_in numbers keep str_eq mem distinct matches_child
    are_plain lower_char is_name_char
start-IsDirectory = record {
  rows_own = λ e m. refl;
  ids =
      each_row (λ e. IsRowId (jq.id_of e start)) (row-IsRowId (codes "row_0_") refl refl)
        (row-IsRowId (codes "row_0_0_") refl refl) (row-IsRowId (codes "row_1_") refl refl);
  by_id = each_row (λ e. jq.select (b'#' ∷ jq.id_of e start) start ≡ e ∷ []) refl refl refl;
  next =
      each_row
        (λ e. jq.next_all (codes "tr") (e ∷ []) start ≡ after e (jq.select directory_rows start))
        refl refl refl;
  rows_distinct = refl;
  order = λ r c m n.
      each_row
        (λ i.
          matches_child (jq.id_of i start) (jq.id_of c start) ≡ true
          → mem c (after i (jq.select directory_rows start)) ≡ true)
        (each_row
          (λ k.
            matches_child (codes "row_0_") (jq.id_of k start) ≡ true
            → mem k (after 0 (0 ∷ 1 ∷ 2 ∷ [])) ≡ true)
          (λ h. absurd (cc h)) (λ h. refl) (λ h. refl) c n)
        (each_row
          (λ k.
            matches_child (codes "row_0_0_") (jq.id_of k start) ≡ true
            → mem k (after 1 (0 ∷ 1 ∷ 2 ∷ [])) ≡ true)
          (λ h. absurd (cc h)) (λ h. absurd (cc h)) (λ h. refl) c n)
        (each_row
          (λ k.
            matches_child (codes "row_1_") (jq.id_of k start) ≡ true
            → mem k (after 2 (0 ∷ 1 ∷ 2 ∷ [])) ≡ true)
          (λ h. absurd (cc h)) (λ h. absurd (cc h)) (λ h. absurd (cc h)) c n)
        r m;
}

start-IsTree : IsTree jq start
unfolding page select_in selected id_in name_in numbers keep str_eq mem matches_child is_in any
    every_other
start-IsTree = record {
  parents = λ r c m n.
      each_row
        (λ i.
          matches_child (jq.id_of i start) (jq.id_of c start) ≡ true
          → visible jq c start ≡ true
          → visible jq i start ≡ true)
        (λ h seen. refl)
        (each_row
          (λ k.
            matches_child (codes "row_0_0_") (jq.id_of k start) ≡ true
            → visible jq k start ≡ true
            → visible jq 1 start ≡ true)
          (λ h seen. absurd (cc h)) (λ h seen. absurd (cc h)) (λ h seen. absurd (cc h)) c n)
        (λ h seen. refl) r m;
  stripes =
      each_row
        (λ e.
          has_class jq (codes "even") e start
          ≡ mem e (every_other (keep (λ f. visible jq f start) (jq.select directory_rows start))))
        refl refl refl;
}

update_stripes_lem_example :
    (has_class jq (codes "even") 2 (update_stripes jq start)
      ≡ mem 2 (every_other (keep (λ f. visible jq f start) (jq.select directory_rows start))))
    × (visible jq 2 (update_stripes jq start) ≡ visible jq 2 start)
unfolding page select_in selected str_eq mem
update_stripes_lem_example =
    update_stripes_lem jq (λ e. true) (page-IsLawful selections elements) start (λ e m. refl) 2 refl

toggle_level_lem_example :
    (visible jq 1 (toggle_level jq 1 start) ≡ leb (depth (jq.id_of 1 start)) (1 + 1))
    × (has_class jq (codes "even") 1 (toggle_level jq 1 start)
        ≡ mem 1 (
            every_other (
              keep (λ f. leb (depth (jq.id_of f start)) (1 + 1)) (jq.select directory_rows start))))
unfolding page select_in selected str_eq mem
toggle_level_lem_example =
    toggle_level_lem jq (λ e. true) (page-IsLawful selections elements) 1 start (λ e m. refl) 1 refl

start-RowsNamed : RowsNamed jq start
unfolding page select_in selected id_in name_in str_eq
start-RowsNamed =
    each_row (λ e. (x : Str) × (jq.id_of e start ≡ codes "row" ++ x)) (codes "_0_", refl)
      (codes "_0_0_", refl) (codes "_1_", refl)

toggle_level-icon_example :
    (has_class jq (codes "iconfopen") 3 (toggle_level jq 1 start)
      ≡ ltb (depth (jq.id_of 0 start)) (1 + 1))
    × (has_class jq (codes "iconfclosed") 3 (toggle_level jq 1 start)
        ≡ (depth (jq.id_of 0 start) == 1 + 1))
unfolding page select_in selected id_in name_in numbers keep str_eq mem depth
toggle_level-icon_example =
    toggle_level-icon jq (λ e. true) (page-IsLawful selections elements) 1 start start-RowsNamed 0 3
      refl refl refl

toggle_folder_lem_example : visible jq 1 (toggle_folder jq (codes "0_") start) ≡ (
    if is_opened jq (codes "0_") start
    then not (mem 1 (descendants jq (codes "0_") start)) && visible jq 1 start
    else mem 1 (children jq (codes "0_") start) || visible jq 1 start)
unfolding is_name_char lower_char
toggle_folder_lem_example =
    toggle_folder_lem jq (λ e. true) (page-IsLawful selections elements) (codes "0_") start 1
      (refl, (refl, (refl, (refl, (refl, (refl, tt)))))) refl

two-Clicks : Clicks jq start (toggle_level jq 1 (toggle_folder jq (codes "0_") start))
unfolding page select_in selected id_in name_in numbers keep str_eq mem is_in any
two-Clicks =
    Clicks.then_more start (toggle_folder jq (codes "0_") start)
      (toggle_level jq 1 (toggle_folder jq (codes "0_") start))
      (Click.on_folder (codes "0_") start 0 refl refl refl)
      (Clicks.then_more (toggle_folder jq (codes "0_") start)
        (toggle_level jq 1 (toggle_folder jq (codes "0_") start))
        (toggle_level jq 1 (toggle_folder jq (codes "0_") start))
        (Click.on_level 1 (toggle_folder jq (codes "0_") start))
        (Clicks.none_more (toggle_level jq 1 (toggle_folder jq (codes "0_") start))))

Clicks-IsTree_example :
    IsDirectory jq (λ e. true) (toggle_level jq 1 (toggle_folder jq (codes "0_") start))
    × IsTree jq (toggle_level jq 1 (toggle_folder jq (codes "0_") start))
Clicks-IsTree_example =
    Clicks-IsTree jq (λ e. true) (page-IsLawful selections elements) start
      (toggle_level jq 1 (toggle_folder jq (codes "0_") start)) start-IsDirectory start-IsTree
      two-Clicks

start-IsSection : IsSection jq (λ e. true) 4 6 5 start
unfolding page select_in id_in name_in numbers keep str_eq
start-IsSection = record {
  content_is = refl;
  summary_is = refl;
  differ = refl;
  content_own = refl;
  summary_own = refl;
}

start-IsShowing : IsShowing jq 4 6 5 [] true start
unfolding page select_in id_in name_in numbers keep str_eq is_in any attr_in source_of
start-IsShowing = record {
  content_shown = refl;
  summary_shown = refl;
  source = refl;
  opened_class = refl;
  closed_class = refl;
}

toggle_visibility_twice_example :
    (d' : Doc) × (d'' : Doc) × (toggle_visibility jq 4 start ≡ returns d')
    × IsSection jq (λ e. true) 4 6 5 d'
    × IsShowing jq 4 6 5 [] (not true) d'
    × (toggle_visibility jq 4 d' ≡ returns d'')
    × IsSection jq (λ e. true) 4 6 5 d''
    × IsShowing jq 4 6 5 [] true d''
toggle_visibility_twice_example =
    toggle_visibility_twice jq (λ e. true) (page-IsLawful selections elements) true 4 6 5 [] start
      start-IsSection start-IsShowing

toggle_inherit_lem_example :
    (d' : Doc) × (toggle_inherit jq (codes "pub_methods") start ≡ returns d')
    × (visible jq 8 d' ≡ not true)
    × (jq.attr_of (codes "src") (header_image jq (codes "pub_methods") start) d'
        ≡ some ([] ++ (if not true then codes "open.png" else codes "closed.png")))
unfolding page select_in selected str_eq mem is_in any attr_in source_of
toggle_inherit_lem_example =
    toggle_inherit_lem jq (λ e. true) (page-IsLawful selections elements) (codes "pub_methods") []
      true 8 [] start 8 refl refl refl refl refl
