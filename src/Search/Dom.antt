-- ===== src/Search/Dom.antt =====
-- The documents that docs/docs/search/search.js works on: elements with their attributes, the
-- style property `display`, and the text put in by `innerHTML`.
pub mod Lookup
pub mod Counting
use mathlib.Core.Option
use hex_fiend.Prelude.{
  ℕ, zero, suc, ◌+◌, ◌-◌, Bool, true, false, List, [], ◌∷◌, ◌++◌, Option, none, some, if◌then◌else◌,
  Str, codes, str_eq,
}

pub record Elem : Type 0 where
  pub tag : Str
  pub attrs : List (Str × Str)
  pub display : Str
  pub html : Str

-- An element with its children and what follows it: the links `firstChild` and `nextSibling`.
pub data Nodes : Type 0 where
  nil : Nodes
  node : Elem → Nodes → Nodes → Nodes

unfoldable pub append_child : Nodes → Nodes → Nodes
append_child nil new = new
append_child (node e kids rest) new = node e kids (append_child rest new)

unfoldable pub get_attribute : Str → List (Str × Str) → Str
unfolding str_eq
get_attribute name [] = []
get_attribute name ((k, v) ∷ more) = if str_eq k name then v else get_attribute name more

unfoldable pub set_attribute : Str → Str → List (Str × Str) → List (Str × Str)
unfolding str_eq
set_attribute name v [] = (name, v) ∷ []
set_attribute name v ((k, w) ∷ more) =
    if str_eq k name then (name, v) ∷ more else (k, w) ∷ set_attribute name v more

abbrev pub id_of : Elem → Str
id_of e = get_attribute (codes "id") e.attrs

abbrev pub class_name : Elem → Str
class_name e = get_attribute (codes "class") e.attrs

-- `createElement(tag)`; in a document of type HTML `nodeName` is in upper case.
abbrev pub create_element : Str → Elem
create_element tag = record { tag = tag; attrs = []; display = []; html = [] }

unfoldable pub size : Nodes → ℕ
size nil = 0
size (node e kids rest) = suc (size kids + size rest)

-- The way down to an element: its place among its siblings on each level, from the top.
abbrev pub Way : Type 0
Way = List ℕ

-- The same way among nodes that stand behind one more.
abbrev pub behind : Way → Way
behind [] = []
behind (i ∷ down) = suc i ∷ down

abbrev pub or_else {ℓ} : {A : Type ℓ} → Option A → Option A → Option A
or_else (some a) _ = some a
or_else none b = b

-- The first element in document order that has the identifier.
unfoldable pub element_with_id : Nodes → Str → Option Way
element_with_id nil id = none
element_with_id (node e kids rest) id =
    or_else (if str_eq (id_of e) id then some (0 ∷ []) else none) (
      or_else (Option.map (0 ∷◌) (element_with_id kids id))
        (Option.map behind (element_with_id rest id)))

-- `getElementById`; an element without an identifier is not found by the empty string.
unfoldable pub get_element_by_id : Nodes → Str → Option Way
unfolding element_with_id
get_element_by_id doc [] = none
get_element_by_id doc (c ∷ id) = element_with_id doc (c ∷ id)

-- The element at the end of a way, with its children.
unfoldable pub node_at : Way → Nodes → Option (Elem × Nodes)
node_at [] ns = none
node_at (i ∷ down) nil = none
node_at (zero ∷ []) (node e kids rest) = some (e, kids)
node_at (zero ∷ j ∷ down) (node e kids rest) = node_at (j ∷ down) kids
node_at (suc i ∷ down) (node e kids rest) = node_at (i ∷ down) rest

-- `style.display = …` on that element.
unfoldable pub set_display : Way → Str → Nodes → Nodes
set_display [] v ns = ns
set_display (i ∷ down) v nil = nil
set_display (zero ∷ []) v (node e kids rest) = node (record e { display = v }) kids rest
set_display (zero ∷ j ∷ down) v (node e kids rest) = node e (set_display (j ∷ down) v kids) rest
set_display (suc i ∷ down) v (node e kids rest) = node e kids (set_display (i ∷ down) v rest)

-- `parentNode`; the parent of an element at the top is the document's own root, with no way down.
abbrev pub parent_node : Way → Way
parent_node [] = []
parent_node (i ∷ []) = []
parent_node (i ∷ j ∷ down) = i ∷ parent_node (j ∷ down)
