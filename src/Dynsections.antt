-- ===== src/Dynsections.antt =====
-- docs/docs/dynsections.js: the sections of a page that open and close, the rows of a directory and
-- the inherited members.
pub mod Laws
pub mod Frame
pub mod Stripes
pub mod Levels
pub mod Folders
pub mod Details
pub mod Inherited
mod Examples
use hex_fiend.Prelude.{
  ℕ, ◌+◌, ◌-◌, suc, Bool, true, false, ◌&&◌, List, [], ◌∷◌, ◌++◌, Option, none, some, ltb, leb,
  ◌==◌, if◌then◌else◌, Str, codes, length, take, drop, lower_char,
}
use hex_fiend.Prelude.Outcome.{Outcome, returns, throws}

-- The calls of jQuery that change the document; elements are numbered.
pub data Call : Type 0 where
  show : List ℕ → Call
  hide : List ℕ → Call
  add_class : Str → List ℕ → Call
  remove_class : Str → List ℕ → Call
  html : Str → List ℕ → Call
  attr : Str → Str → List ℕ → Call
  css : Str → Str → List ℕ → Call

-- jQuery on a document: `$(selector)`, `filter`, `find`, `nextAll`, `is` and `attr` of elements, the
-- calls that change it, and the `id` of an element.
pub record JQuery (D : Type 0) : Type 0 where
  pub select : Str → D → List ℕ
  pub filter : Str → List ℕ → D → List ℕ
  pub find : Str → List ℕ → D → List ℕ
  pub next_all : Str → List ℕ → D → List ℕ
  pub is : Str → List ℕ → D → Bool
  pub attr_of : Str → List ℕ → D → Option Str
  pub call : Call → D → D
  pub id_of : ℕ → D → Str

-- `filter` with a function
unfoldable pub keep : (ℕ → Bool) → List ℕ → List ℕ
keep p [] = []
keep p (e ∷ es) = let more = keep p es in if p e then e ∷ more else more

abbrev pub text_of : Option Str → Str
text_of none = codes "undefined"
text_of (some s) = s

-- `src.substring(0,src.length-n)+end`: a negative length counts as 0.
abbrev pub new_end : ℕ → Str → Str → Str
new_end n end_ src = take (length src - n) src ++ end_

-- `/\d+_$/`, after some digits or none
unfoldable pub digits_bar : Bool → Str → Bool
digits_bar seen [] = false
digits_bar seen (c ∷ []) = seen && c == b'_'
digits_bar seen (c ∷ d ∷ s) = leb b'0' c && leb c b'9' && digits_bar true (d ∷ s)

-- The regular expression `'^row_'+id+'\\d+_$'`, with flag `i`, where the text in front of the digits
-- has letters, digits and `_` only.
unfoldable pub matches_child : Str → Str → Bool
unfolding lower_char digits_bar
matches_child [] s = digits_bar false s
matches_child (p ∷ ps) [] = false
matches_child (p ∷ ps) (c ∷ s) = lower_char c == lower_char p && matches_child ps s

-- `this.id.split('_').length-1`
unfoldable pub depth : Str → ℕ
depth [] = 0
depth (c ∷ s) = let rest = depth s in if c == b'_' then suc rest else rest

abbrev pub directory_rows : Str
directory_rows = codes "table.directory tr"

-- The branches of `toggleLevel` for a row, its depth, its icon and its arrow.
unfoldable pub level_calls : ℕ → ℕ → List ℕ → List ℕ → ℕ → List Call
level_calls level l i a row =
    if ltb l (level + 1)
    then (remove_class (codes "iconfopen iconfclosed") i
        ∷ add_class (codes "iconfopen") i
        ∷ html (codes "&#9660;") a
        ∷ show (row ∷ [])
        ∷ [])
    else if l == level + 1
    then (remove_class (codes "iconfclosed iconfopen") i
        ∷ add_class (codes "iconfclosed") i
        ∷ html (codes "&#9658;") a
        ∷ show (row ∷ [])
        ∷ [])
    else hide (row ∷ []) ∷ []

module _ {D : Type 0} (jq : JQuery D) where
  -- Several calls, from the first to the last.
  unfoldable pub calls : List Call → D → D
  calls [] d = d
  calls (c ∷ cs) d = calls cs (jq.call c d)

  set_src : ℕ → Str → Option Str → List ℕ → D → Outcome D
  set_src n end_ none es d = throws
  set_src n end_ (some src) es d = returns (jq.call (attr (codes "src") (new_end n end_ src) es) d)

  -- `toggleVisibility`
  unfoldable pub toggle_visibility : ℕ → D → Outcome D
  unfolding calls set_src
  toggle_visibility link d =
      let base = text_of (jq.attr_of (codes "id") (link ∷ []) d) in
      let summary = jq.select (b'#' ∷ base ++ codes "-summary") d in
      let content = jq.select (b'#' ∷ base ++ codes "-content") d in
      let trigger = jq.select (b'#' ∷ base ++ codes "-trigger") d in
      let src = jq.attr_of (codes "src") trigger d in
      if jq.is (codes ":visible") content d
      then set_src 8 (codes "closed.png") src trigger (
          calls
            (hide content
              ∷ show summary
              ∷ add_class (codes "closed") (link ∷ [])
              ∷ remove_class (codes "opened") (link ∷ [])
              ∷ [])
            d)
      else set_src 10 (codes "open.png") src trigger (
          calls
            (show content
              ∷ hide summary
              ∷ remove_class (codes "closed") (link ∷ [])
              ∷ add_class (codes "opened") (link ∷ [])
              ∷ [])
            d)

  -- `updateStripes`
  unfoldable pub update_stripes : D → D
  update_stripes d =
      let rows = jq.select directory_rows d in
      let cleared = jq.call (remove_class (codes "even") rows) d in
      jq.call (add_class (codes "even") (jq.filter (codes ":visible:even") rows cleared)) cleared

  -- `toggleLevel` on one row
  unfoldable pub level_row : ℕ → ℕ → D → D
  unfolding calls depth level_calls
  level_row level row d =
      let l = depth (jq.id_of row d) in
      let i = jq.select (codes "#img" ++ drop 3 (jq.id_of row d)) d in
      let a = jq.select (codes "#arr" ++ drop 3 (jq.id_of row d)) d in
      calls (level_calls level l i a row) d

  unfoldable pub level_rows : ℕ → List ℕ → D → D
  unfolding level_row
  level_rows level [] d = d
  level_rows level (row ∷ more) d = level_rows level more (level_row level row d)

  -- `toggleLevel`
  unfoldable pub toggle_level : ℕ → D → D
  unfolding level_rows update_stripes
  toggle_level level d = update_stripes (level_rows level (jq.select directory_rows d) d)

  -- The folder icons and the arrows among the elements change.
  unfoldable pub turn : Str → Str → Str → List ℕ → D → D
  turn from to_ arrow spans d =
      let icons = jq.filter (b'.' ∷ from) spans d in
      let turned = jq.call (add_class to_ icons) (jq.call (remove_class from icons) d) in
      jq.call (html arrow (jq.filter (codes ".arrow") spans turned)) turned

  -- `toggleFolder`
  unfoldable pub toggle_folder : Str → D → D
  unfolding keep matches_child turn update_stripes
  toggle_folder id d =
      let current = jq.select (codes "#row_" ++ id) d in
      let rows = jq.next_all (codes "tr") current d in
      let children = keep (λ e. matches_child (codes "row_" ++ id) (jq.id_of e d)) rows in
      if jq.is (codes ":visible") (jq.filter (codes ":first") children d) d
      then (let spans = jq.find (codes "span") current d in
          let turned = turn (codes "iconfopen") (codes "iconfclosed") (codes "&#9658;") spans d in
          update_stripes
            (jq.call (hide (jq.filter (codes "[id^=row_" ++ id ++ codes "]") rows turned)) turned))
      else (let spans = jq.find (codes "span") current d in
          let opened = turn (codes "iconfclosed") (codes "iconfopen") (codes "&#9660;") spans d in
          let child_spans = jq.find (codes "span") children opened in
          let turned =
            turn (codes "iconfopen") (codes "iconfclosed") (codes "&#9658;") child_spans opened in
          update_stripes (jq.call (show children) turned))

  -- `toggleInherit`
  unfoldable pub toggle_inherit : Str → D → Outcome D
  unfolding set_src
  toggle_inherit id d =
      let rows = jq.select (codes "tr.inherit." ++ id) d in
      let img = jq.select (codes "tr.inherit_header." ++ id ++ codes " img") d in
      let src = jq.attr_of (codes "src") img d in
      if jq.is (codes ":visible") (jq.filter (codes ":first") rows d) d
      then set_src 8 (codes "closed.png") src img
          (jq.call (css (codes "display") (codes "none") rows) d)
      else set_src 10 (codes "open.png") src img
          (jq.call (css (codes "display") (codes "table-row") rows) d)
