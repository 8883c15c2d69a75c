-- ===== src/Dynsections/Folders.antt =====
-- `toggleFolder` of docs/docs/dynsections.js: the rows that it shows and hides.
pub mod Ids
pub mod Tree
pub mod Parents
pub mod Runs
use hex_fiend.Prelude.{
  ℕ, Bool, true, false, not, ◌&&◌, ◌||◌, List, [], ◌∷◌, ◌++◌, if◌then◌else◌, Str, codes, str_eq,
  take, ◌≡◌, refl, ap, ap₂, sym, ◌∙◌, Bool-cases, inl, inr, arith, All,
}
use hex_fiend.Dynsections.{
  Call, JQuery, calls, keep, matches_child, turn, update_stripes, toggle_folder, directory_rows,
}
use hex_fiend.Dynsections.Laws.{
  IsLawful, mem, any, visible, visible_after, starts_with, has_word, IsName, Spares,
}
use hex_fiend.Dynsections.Frame.{
  Same, Same-trans, IsPlain, calls-Same, calls-visible, update_stripes-Same,
}
use hex_fiend.Dynsections.Stripes.{keep-agree, visible-update_stripes}

module _ {D : Type 0} (jq : JQuery D) where
  -- The rows after the one that is clicked, its children among them, and all that are below it.
  abbrev pub rows_after : Str → D → List ℕ
  rows_after id d = jq.next_all (codes "tr") (jq.select (codes "#row_" ++ id) d) d

  abbrev pub children : Str → D → List ℕ
  children id d = keep (λ e. matches_child (codes "row_" ++ id) (jq.id_of e d)) (rows_after id d)

  abbrev pub descendants : Str → D → List ℕ
  descendants id d = keep (λ e. starts_with (codes "row_" ++ id) (jq.id_of e d)) (rows_after id d)

  -- The first child is visible.
  abbrev pub is_opened : Str → D → Bool
  is_opened id d = any (λ e. visible jq e d) (take 1 (children id d))

module _ {D : Type 0} (jq : JQuery D) (own : ℕ → Bool) (law : IsLawful jq own) where
  turn_calls : Str → Str → Str → List ℕ → D → List Call
  turn_calls from to_ arrow spans d =
      let icons = jq.filter (b'.' ∷ from) spans d in
      let turned = jq.call (Call.add_class to_ icons) (jq.call (Call.remove_class from icons) d) in
      Call.remove_class from icons
      ∷ Call.add_class to_ icons
      ∷ Call.html arrow (jq.filter (codes ".arrow") spans turned)
      ∷ []

  turn-Same :
      (from to_ arrow : Str) (spans : List ℕ) (d : D)
      → has_word (codes "directory") from ≡ false
      → has_word (codes "directory") to_ ≡ false
      → Same jq d (turn jq from to_ arrow spans d)
  unfolding turn calls turn_calls
  turn-Same from to_ arrow spans d f t =
      calls-Same jq own law (turn_calls from to_ arrow spans d) d
        ((tt, f), ((tt, t), ((tt, tt), tt)))

  turn-visible :
      (from to_ arrow : Str) (spans : List ℕ) (d : D) (e : ℕ)
      → has_word (codes "directory") from ≡ false
      → has_word (codes "directory") to_ ≡ false
      → own e ≡ true
      → visible jq e (turn jq from to_ arrow spans d) ≡ visible jq e d
  unfolding turn calls turn_calls visible_after
  turn-visible from to_ arrow spans d e f t o =
      calls-visible jq own law (turn_calls from to_ arrow spans d) d e
        ((tt, f), ((tt, t), ((tt, tt), tt))) o

  -- The two branches, up to the stripes.
  unfoldable pub closed_folder : Str → D → D
  closed_folder id d =
      let spans = jq.find (codes "span") (jq.select (codes "#row_" ++ id) d) d in
      let turned = turn jq (codes "iconfopen") (codes "iconfclosed") (codes "&#9658;") spans d in
      jq.call
        (Call.hide (jq.filter (codes "[id^=row_" ++ id ++ codes "]") (rows_after jq id d) turned))
        turned

  unfoldable pub opened_folder : Str → D → D
  opened_folder id d =
      let spans = jq.find (codes "span") (jq.select (codes "#row_" ++ id) d) d in
      let opened = turn jq (codes "iconfclosed") (codes "iconfopen") (codes "&#9660;") spans d in
      let child_spans = jq.find (codes "span") (children jq id d) opened in
      let turned =
        turn jq (codes "iconfopen") (codes "iconfclosed") (codes "&#9658;") child_spans opened in
      jq.call (Call.show (children jq id d)) turned

  pub toggle_folder_cases :
      (id : Str) (d : D)
      → toggle_folder jq id d
        ≡ update_stripes jq (if is_opened jq id d then closed_folder id d else opened_folder id d)
  unfolding toggle_folder closed_folder opened_folder
  toggle_folder_cases id d =
      let first =
        law.is_visible d (jq.filter (codes ":first") (children jq id d) d)
        ∙ ap (any (λ e. visible jq e d)) (law.filter_first d (children jq id d)) in
      elim (Bool-cases (is_opened jq id d)) [
        | inl e ↦ rw (first, e) refl
        | inr e ↦ rw (first, e) refl
      ]

  closed_folder-Same : (id : Str) (d : D) → Same jq d (closed_folder id d)
  unfolding closed_folder has_word str_eq calls
  closed_folder-Same id d =
      let spans = jq.find (codes "span") (jq.select (codes "#row_" ++ id) d) d in
      let turned = turn jq (codes "iconfopen") (codes "iconfclosed") (codes "&#9658;") spans d in
      Same-trans jq d turned (closed_folder id d)
        (turn-Same (codes "iconfopen") (codes "iconfclosed") (codes "&#9658;") spans d refl refl)
        (calls-Same jq own law
          (Call.hide (jq.filter (codes "[id^=row_" ++ id ++ codes "]") (rows_after jq id d) turned)
            ∷ [])
          turned ((tt, tt), tt))

  opened_folder-Same : (id : Str) (d : D) → Same jq d (opened_folder id d)
  unfolding opened_folder has_word str_eq calls
  opened_folder-Same id d =
      let spans = jq.find (codes "span") (jq.select (codes "#row_" ++ id) d) d in
      let opened = turn jq (codes "iconfclosed") (codes "iconfopen") (codes "&#9660;") spans d in
      let child_spans = jq.find (codes "span") (children jq id d) opened in
      let turned =
        turn jq (codes "iconfopen") (codes "iconfclosed") (codes "&#9658;") child_spans opened in
      Same-trans jq d opened (opened_folder id d)
        (turn-Same (codes "iconfclosed") (codes "iconfopen") (codes "&#9660;") spans d refl refl)
        (Same-trans jq opened turned (opened_folder id d)
          (turn-Same (codes "iconfopen") (codes "iconfclosed") (codes "&#9658;") child_spans opened
            refl refl)
          (calls-Same jq own law (Call.show (children jq id d) ∷ []) turned ((tt, tt), tt)))

  pub either-Same :
      (id : Str) (d : D) (b : Bool)
      → Same jq d (if b then closed_folder id d else opened_folder id d)
  either-Same id d true = closed_folder-Same id d
  either-Same id d false = opened_folder-Same id d

  pub toggle_folder-Same : (id : Str) (d : D) → Same jq d (toggle_folder jq id d)
  toggle_folder-Same id d = rw (toggle_folder_cases id d) (
      Same-trans jq d (if is_opened jq id d then closed_folder id d else opened_folder id d)
        (update_stripes jq (if is_opened jq id d then closed_folder id d else opened_folder id d))
        (either-Same id d (is_opened jq id d))
        (update_stripes-Same jq own law
          (if is_opened jq id d then closed_folder id d else opened_folder id d)))

  closed_folder-visible :
      (id : Str) (d : D) (e : ℕ)
      → IsName (codes "row_" ++ id)
      → own e ≡ true
      → visible jq e (closed_folder id d) ≡ (not (mem e (descendants jq id d)) && visible jq e d)
  unfolding closed_folder has_word str_eq visible_after
  closed_folder-visible id d e name o =
      let spans = jq.find (codes "span") (jq.select (codes "#row_" ++ id) d) d in
      let turned = turn jq (codes "iconfopen") (codes "iconfclosed") (codes "&#9658;") spans d in
      let below = jq.filter (codes "[id^=row_" ++ id ++ codes "]") (rows_after jq id d) turned in
      let same : below ≡ descendants jq id d =
        law.filter_prefix turned (codes "row_" ++ id) (rows_after jq id d) name
        ∙ keep-agree (λ n. starts_with (codes "row_" ++ id) (jq.id_of n turned))
            (λ n. starts_with (codes "row_" ++ id) (jq.id_of n d)) (rows_after jq id d)
            (λ n m. ap (starts_with (codes "row_" ++ id)) (
              (turn-Same (codes "iconfopen") (codes "iconfclosed") (codes "&#9658;") spans d refl
                  refl).ids
                n)) in
      law.visible_call (Call.hide below) turned e tt o
      ∙ ap₂ (λ b v. not b && v) (ap (mem e) same)
          (turn-visible (codes "iconfopen") (codes "iconfclosed") (codes "&#9658;") spans d e refl
            refl o)

  opened_folder-visible :
      (id : Str) (d : D) (e : ℕ)
      → own e ≡ true
      → visible jq e (opened_folder id d) ≡ (mem e (children jq id d) || visible jq e d)
  unfolding opened_folder has_word str_eq visible_after
  opened_folder-visible id d e o =
      let spans = jq.find (codes "span") (jq.select (codes "#row_" ++ id) d) d in
      let opened = turn jq (codes "iconfclosed") (codes "iconfopen") (codes "&#9660;") spans d in
      let child_spans = jq.find (codes "span") (children jq id d) opened in
      let turned =
        turn jq (codes "iconfopen") (codes "iconfclosed") (codes "&#9658;") child_spans opened in
      law.visible_call (Call.show (children jq id d)) turned e tt o
      ∙ ap (λ v. mem e (children jq id d) || v)
          (turn-visible (codes "iconfopen") (codes "iconfclosed") (codes "&#9658;") child_spans
              opened e refl refl o
            ∙ turn-visible (codes "iconfclosed") (codes "iconfopen") (codes "&#9660;") spans d e
                refl refl o)

  -- If the first child of the row is visible, `toggleFolder` hides all rows below it, else it shows
  -- its children, and of other rows the same ones are visible as before. The identifier has letters,
  -- digits and `_` only.
  pub toggle_folder_lem :
      (id : Str) (d : D) (e : ℕ)
      → IsName (codes "row_" ++ id)
      → own e ≡ true
      → visible jq e (toggle_folder jq id d) ≡ (
          if is_opened jq id d
          then not (mem e (descendants jq id d)) && visible jq e d
          else mem e (children jq id d) || visible jq e d)
  toggle_folder_lem id d e name o =
      ap (visible jq e) (toggle_folder_cases id d)
      ∙ visible-update_stripes jq own law
          (if is_opened jq id d then closed_folder id d else opened_folder id d) e o
      ∙ elim (Bool-cases (is_opened jq id d)) [
        | inl b ↦ rw b (closed_folder-visible id d e name o)
        | inr b ↦ rw b (opened_folder-visible id d e o)
      ]
