-- ===== src/Menu.antt =====
-- `makeTree` of docs/docs/menu.js: the menu of the documentation as text in HTML.
pub mod Nested
pub mod Data
pub mod Init
pub mod Links
pub mod Examples
use hex_fiend.Prelude.{ℕ, Bool, true, false, List, [], ◌∷◌, ◌++◌, if◌then◌else◌, Str, codes}

-- The entries of a menu: an entry has a text, a URL and, where the test says so, `children`.
pub data Entries : Type 0 where
  nil : Entries
  entry : Str → Str → Bool → Entries → Entries → Entries

-- The list that stands around the children, if there are any.
abbrev pub with_list : Bool → Str → Str
with_list has inner = if has then codes "<ul>" ++ inner ++ codes "</ul>" else []

-- The loop over the children.
unfoldable pub make_items : Str → Entries → Str
make_items rel_path nil = []
make_items rel_path (entry text url has children rest) =
    codes "<li><a href=\""
    ++ rel_path
    ++ url
    ++ codes "\">"
    ++ text
    ++ codes "</a>"
    ++ with_list has (make_items rel_path children)
    ++ codes "</li>"
    ++ make_items rel_path rest

-- `makeTree`
unfoldable pub make_tree : Str → Bool → Entries → Str
unfolding make_items
make_tree rel_path has children = with_list has (make_items rel_path children)
