-- ===== src/Menu/Examples.antt =====
-- The menu of the documentation in a small one.
use hex_fiend.Prelude.{true, false, List, [], ◌∷◌, some, none, codes, Str, ◌≡◌, refl}
use hex_fiend.Menu.Data.{site_menu}
use hex_fiend.Menu.Init.{NavCall, init_menu}
use hex_fiend.Menu.Links.{links, quoted, init_menu_lem}
use hex_fiend.Menu.{Entries, nil, entry, make_tree}
use hex_fiend.Menu.Nested.{in_text, read, read-make_tree}

abbrev small_menu : Entries
small_menu = entry (codes "A") (codes "a") true (entry (codes "B") (codes "b") false nil nil) nil

small_menu_run :
    make_tree (codes "d/") true small_menu
    ≡ codes "<ul><li><a href=\"d/a\">A</a><ul><li><a href=\"d/b\">B</a></li></ul></li></ul>"
unfolding make_tree
small_menu_run = refl

read-make_tree_example : read (make_tree (codes "d/") true small_menu) in_text [] ≡ some []
read-make_tree_example =
    read-make_tree (codes "d/") true small_menu ((refl, refl), ((refl, refl), tt))
      (((refl, refl), tt), ((refl, refl), tt), (((refl, refl), tt), ((refl, refl), tt), tt, tt), tt)

init_menu_lem_example :
    (text : Str) × (more : List NavCall) × (init_menu (codes "d/") true false [] (codes "Search")
      ≡ NavCall.append (codes "#main-nav") text ∷ more)
    × (read text in_text [] ≡ some [])
    × (quoted none text ≡ links (codes "d/") site_menu)
init_menu_lem_example =
    init_menu_lem (codes "d/") true false [] (codes "Search") ((refl, refl), ((refl, refl), tt))
      (refl, (refl, tt))
