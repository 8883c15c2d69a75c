-- ===== src/Search/Examples/Site.antt =====
-- The properties of the documentation site's search data, at the sample panel.
use hex_fiend.Prelude.{refl, codes}
use hex_fiend.Search.Panel.{Panel}
use hex_fiend.Search.Site.Tables.{IsIndexed}
use hex_fiend.Search.Site.Pages.{groups_pages}
use hex_fiend.Search.Site.Checked.{site-IsIndexed}

site-IsIndexed_example : IsIndexed (codes "chmv") groups_pages
site-IsIndexed_example = site-IsIndexed 10 (codes "chmv") groups_pages refl refl
