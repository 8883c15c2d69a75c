-- ===== src/Menu/Init.antt =====
-- `initMenu` of docs/docs/menu.js: what it hands to jQuery.
use hex_fiend.Prelude.{Bool, true, List, [], ◌∷◌, ◌++◌, if◌then◌else◌, Str, codes}
use hex_fiend.Menu.{make_tree}
use hex_fiend.Menu.Data.{site_menu}

-- The calls of jQuery: `append` of a text to what a selector names, the classes and the identifier for
-- the first child of that, and `smartmenus`.
pub data NavCall : Type 0 where
  append : Str → Str → NavCall
  first_child : Str → Str → Str → NavCall
  smartmenus : Str → NavCall

-- The search box where the server searches, and where the page does.
abbrev server_box : Str → Str → Str → Str
server_box rel_path search_page search =
    codes
      "<li style=\"float:right\"><div id=\"MSearchBox\" class=\"MSearchBoxInactive\"><div class=\"left\"><form id=\"FSearchBox\" action=\""
    ++ search_page
    ++ codes "\" method=\"get\"><img id=\"MSearchSelect\" src=\""
    ++ rel_path
    ++ codes
        "search/mag.png\" alt=\"\"/><input type=\"text\" id=\"MSearchField\" name=\"query\" value=\""
    ++ search
    ++ codes
        "\" size=\"20\" accesskey=\"S\" onfocus=\"searchBox.OnSearchFieldFocus(true)\" onblur=\"searchBox.OnSearchFieldFocus(false)\"></form></div><div class=\"right\"></div></div></li>"

abbrev page_box : Str → Str → Str
page_box rel_path search =
    codes
      "<li style=\"float:right\"><div id=\"MSearchBox\" class=\"MSearchBoxInactive\"><span class=\"left\"><img id=\"MSearchSelect\" src=\""
    ++ rel_path
    ++ codes
        "search/mag_sel.png\" onmouseover=\"return searchBox.OnSearchSelectShow()\" onmouseout=\"return searchBox.OnSearchSelectHide()\" alt=\"\"/><input type=\"text\" id=\"MSearchField\" value=\""
    ++ search
    ++ codes
        "\" accesskey=\"S\" onfocus=\"searchBox.OnSearchFieldFocus(true)\" onblur=\"searchBox.OnSearchFieldFocus(false)\" onkeyup=\"searchBox.OnSearchFieldChange(event)\"/></span><span class=\"right\"><a id=\"MSearchClose\" href=\"javascript:searchBox.CloseResultsWindow()\"><img id=\"MSearchCloseImg\" border=\"0\" src=\""
    ++ rel_path
    ++ codes "search/close.png\" alt=\"\"/></a></span></div></li>"

abbrev search_box : Str → Bool → Bool → Str → Str → List NavCall
search_box rel_path search_enabled server_side search_page search =
    if search_enabled
    then (if server_side
        then append (codes "#main-menu") (server_box rel_path search_page search) ∷ []
        else append (codes "#main-menu") (page_box rel_path search) ∷ [])
    else []

-- `initMenu`
unfoldable pub init_menu : Str → Bool → Bool → Str → Str → List NavCall
unfolding make_tree
init_menu rel_path search_enabled server_side search_page search =
    append (codes "#main-nav") (make_tree rel_path true site_menu)
      ∷ first_child (codes "#main-nav") (codes "sm sm-dox") (codes "main-menu")
      ∷ search_box rel_path search_enabled server_side search_page search
    ++ smartmenus (codes "#main-menu") ∷ []
