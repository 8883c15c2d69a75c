-- ===== src/Search/Panel/Selection.antt =====
-- The choice of a section in `SearchBox` of docs/docs/search/search.js.
pub mod Marks
use hex_fiend.Prelude.{
  ℕ, zero, suc, ◌+◌, ◌-◌, Bool, true, false, not, ◌&&◌, ◌||◌, List, [], ◌∷◌, ltb, ◌==◌,
  if◌then◌else◌, Str, codes, str_eq,
}
use hex_fiend.Prelude.Outcome.{Outcome, returns, throws, ◌>>=◌}
use hex_fiend.Search.Spaces.{strip_all}
use hex_fiend.Search.Sections.{Sections}
use hex_fiend.Search.Panel.{Layout, Panel, Item, close_selection_window}
use hex_fiend.Search.Panel.Query.{Strings, search}

unfoldable pub is_select_item : Item → Bool
unfolding str_eq
is_select_item i = str_eq i.class (codes "SelectItem")

-- the loop of `SelectItemCount`
count_items : ℕ → List Item → ℕ
count_items count [] = count
count_items count (i ∷ more) = count_items (if is_select_item i then suc count else count) more

-- `SelectItemCount`
unfoldable pub select_item_count : Panel → ℕ
unfolding count_items
select_item_count p = count_items 0 p.items

abbrev pub bullet : Str
bullet = codes "&#8226;"

abbrev pub no_break_space : Str
no_break_space = codes "&#160;"

-- the loop of `SelectItemSet`, with the place `j` among the items of class SelectItem
set_marks : ℕ → ℕ → List Item → List Item
set_marks id j [] = []
set_marks id j (i ∷ more) = elim (is_select_item i) [
  | true ↦
      record i { mark = if j == id then bullet else no_break_space } ∷ set_marks id (suc j) more
  | false ↦ i ∷ set_marks id j more
]

-- `SelectItemSet`
unfoldable pub select_item_set : ℕ → Panel → Panel
unfolding set_marks
select_item_set id p = record p { items = set_marks id 0 p.items }

module _ (js : Strings) (table : Sections) (lay : Layout) where
  -- `OnSelectItem`
  unfoldable pub on_select_item : ℕ → Panel → Outcome Panel
  unfolding select_item_set
  on_select_item id p =
      let chosen = select_item_set id (record p { search_index = id }) in
      if not (str_eq (strip_all chosen.field_value) []) && chosen.search_active
      then search js table lay chosen
      else returns chosen

  -- `OnSearchSelectKey` by the code of the key; that the search field gets the focus is left to the
  -- browser.
  unfoldable pub on_search_select_key : ℕ → Panel → Outcome Panel
  on_search_select_key key p =
      if key == 40 && ltb p.search_index (select_item_count p)
      then on_select_item (suc p.search_index) (record p { search_index = suc p.search_index })
      else if key == 38 && ltb 0 p.search_index
      then on_select_item (p.search_index - 1) (record p { search_index = p.search_index - 1 })
      else if key == 13 || key == 27
      then (on_select_item p.search_index p >>= λ q. returns (close_selection_window q))
      else returns p
