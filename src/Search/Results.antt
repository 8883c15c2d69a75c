-- ===== src/Search/Results.antt =====
-- Class `SearchResults` of docs/docs/search/search.js: the page in the results frame.
pub mod Filter
pub mod Children
pub mod Nav
use hex_fiend.Prelude.{
  ℕ, zero, suc, ◌+◌, Bool, true, false, ◌&&◌, List, [], ◌∷◌, ◌++◌, Option, none, some, leb, ◌==◌,
  if◌then◌else◌, Str, codes, str_eq, drop, ◌≡◌, refl, map,
}
use hex_fiend.Prelude.Digits.{to_decimal, to_string}
use hex_fiend.Search.Spaces.{strip_leading, strip_trailing}
use hex_fiend.Search.Ident.{convert_to_id, is_prefix}
use hex_fiend.Search.Escape.{unescape, location_search}
use hex_fiend.Search.Dom.{
  Elem, Nodes, nil, node, append_child, set_attribute, create_element, id_of, class_name,
}

-- One result below a name: `[href, flag, scope]` of `searchData`.
pub record Target : Type 0 where
  pub href : Str
  pub in_parent : Bool
  pub scope : Str

-- `[id, [name, target, …]]` of `searchData`
pub record Entry : Type 0 where
  pub id : Str
  pub name : Str
  pub targets : List Target

-- Where the keyboard focus is.
pub data Focus : Type 0 where
  nowhere : Focus
  on_item : List ℕ → Focus
  on_search_field : Focus

-- The document, with its three status lines apart, and the fields of the object.
pub record Page : Type 0 where
  pub results : Nodes
  pub searching : Str
  pub no_matches : Str
  pub focus : Focus
  pub last_match_count : ℕ
  pub last_key : ℕ
  pub repeat_on : Bool

abbrev with_attr : Str → Str → Elem → Elem
with_attr k v e = record e { attrs = set_attribute k v e.attrs }

-- `setKeyActions`
unfoldable pub set_key_actions : Str → Elem → Elem
unfolding set_attribute
set_key_actions action e =
    with_attr (codes "onkeyup") action
      (with_attr (codes "onkeypress") action (with_attr (codes "onkeydown") action e))

-- `setClassAttr`
unfoldable pub set_class_attr : Str → Elem → Elem
unfolding set_attribute
set_class_attr v e = with_attr (codes "className") v (with_attr (codes "class") v e)

abbrev pub item_id : ℕ → Str
item_id e = codes "Item" ++ to_decimal e

abbrev pub child_id : ℕ → ℕ → Str
child_id e c = item_id e ++ codes "_c" ++ to_decimal c

abbrev with_target : Bool → Elem → Elem
with_target flag e = if flag then with_attr (codes "target") (codes "_parent") e else e

abbrev child_link : ℕ → ℕ → Target → Elem
child_link e c t =
    let made = with_attr (codes "id") (child_id e c) (create_element (codes "A")) in
    let keyed =
      set_key_actions
        (codes "return searchResults.NavChild(event,"
          ++ to_decimal e
          ++ b',' ∷ to_decimal c
          ++ codes ")")
        made in
    let linked = with_attr (codes "href") t.href (set_class_attr (codes "SRScope") keyed) in
    record (with_target t.in_parent linked) { html = t.scope }

-- the loop over the results of an entry
child_links : ℕ → ℕ → List Target → Nodes
unfolding set_key_actions set_class_attr to_string
child_links e c [] = nil
child_links e c (t ∷ more) = node (child_link e c t) nil (child_links e (suc c) more)

abbrev entry_link : ℕ → Entry → Elem
entry_link e x =
    let made = with_attr (codes "id") (item_id e) (create_element (codes "A")) in
    let keyed =
      set_key_actions (codes "return searchResults.Nav(event," ++ to_decimal e ++ codes ")") made in
    record (set_class_attr (codes "SRSymbol") keyed) { html = x.name }

abbrev scope_span : Target → Elem
scope_span t = record (set_class_attr (codes "SRScope") (create_element (codes "SPAN"))) {
  html = t.scope;
}

abbrev single_link : ℕ → Entry → Target → Elem
single_link e x t = with_target t.in_parent (with_attr (codes "href") t.href (entry_link e x))

abbrev toggle_link : ℕ → Entry → Elem
toggle_link e x =
    with_attr (codes "href") (codes "javascript:searchResults.Toggle(\"SR_" ++ x.id ++ codes "\")")
      (entry_link e x)

abbrev children_div : Elem
children_div = set_class_attr (codes "SRChildren") (create_element (codes "DIV"))

abbrev entry_div : Elem
entry_div = set_class_attr (codes "SREntry") (create_element (codes "DIV"))

abbrev pub result_div : Entry → Elem
result_div x =
    set_class_attr (codes "SRResult")
      (with_attr (codes "id") (codes "SR_" ++ x.id) (create_element (codes "DIV")))

multiple_results : ℕ → Entry → List Target → Nodes
unfolding child_links
multiple_results e x targets =
    node (toggle_link e x) nil (node children_div (child_links e 0 targets) nil)

-- What is inside `srEntry`: a link and its scope for a single result, else a list of links.
entry_kids : ℕ → Entry → List Target → Nodes
unfolding multiple_results
entry_kids e x [] = multiple_results e x []
entry_kids e x (t ∷ []) = node (single_link e x t) nil (node (scope_span t) nil nil)
entry_kids e x (t ∷ u ∷ more) = multiple_results e x (t ∷ u ∷ more)

-- one round of the loop of `createResults`
unfoldable pub create_result : ℕ → Entry → Nodes
unfolding entry_kids
create_result e x = node (result_div x) (node entry_div (entry_kids e x x.targets) nil) nil

create_from : ℕ → List Entry → Nodes → Nodes
create_from e [] results = results
create_from e (x ∷ more) results =
    create_from (suc e) more (append_child results (create_result e x))

-- `createResults`
unfoldable pub create_results : List Entry → Nodes
unfolding create_from create_result append_child
create_results data_ = create_from 0 data_ nil

-- The page as its own script leaves it in front of the first search.
abbrev pub new_page : Nodes → Page
new_page results = record {
  results = results;
  searching = [];
  no_matches = codes "none";
  focus = nowhere;
  last_match_count = 0;
  last_key = 0;
  repeat_on = false;
}
