-- ===== src/Search/Setup.antt =====
-- `init_search` of docs/docs/search/search.js: the items of the selection window.
use hex_fiend.Prelude.{List, [], ◌∷◌, ◌++◌, Str, codes}
use hex_fiend.Prelude.Outcome.{Outcome}
use hex_fiend.Search.Sections.{Sections}
use hex_fiend.Search.Panel.{Layout, Panel, Item}
use hex_fiend.Search.Panel.Query.{Strings}
use hex_fiend.Search.Panel.Selection.{on_select_item, no_break_space}

-- One link for each label; the mark is the text of its first child.
section_items : List Str → List Item
section_items [] = []
section_items (label ∷ more) =
    (record { class = codes "SelectItem"; mark = no_break_space }) ∷ section_items more

-- `init_search`
unfoldable pub init_search : Strings → Sections → Layout → Panel → Outcome Panel
unfolding section_items on_select_item
init_search js table lay p =
    on_select_item js table lay 0 (record p { items = p.items ++ section_items table.labels })
