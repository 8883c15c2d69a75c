-- ===== src/Search/Site/Checked.antt =====
-- The pages of docs/docs/search beside the tables of docs/docs/search/searchdata.js.
use hex_fiend.Prelude.{
  ℕ, Bool, zero, suc, true, ◌&&◌, not, List, [], ◌∷◌, some, ◌==◌, Str, codes, get_elem?, ◌≡◌, refl,
  subst,
}
use hex_fiend.Search.Sections.{site_sections}
use hex_fiend.Search.Panel.{Panel}
use hex_fiend.Search.Results.{Entry}
use hex_fiend.Search.Site.{is_indexed}
use hex_fiend.Search.Site.Tables.{IsIndexed, is_indexed-IsIndexed}
use hex_fiend.Search.Site.Pages.{
  all_pages, classes_pages, files_pages, functions_pages, variables_pages, typedefs_pages,
  enums_pages, enumvalues_pages, properties_pages, defines_pages, groups_pages, pages_pages,
  site_pages,
}

all_pages_indexed : is_indexed (codes "_abcdefghiklmnoprstuvw") all_pages ≡ true
unfolding is_indexed
all_pages_indexed = refl

classes_pages_indexed : is_indexed (codes "h") classes_pages ≡ true
unfolding is_indexed
classes_pages_indexed = refl

files_pages_indexed : is_indexed (codes "h") files_pages ≡ true
unfolding is_indexed
files_pages_indexed = refl

functions_pages_indexed : is_indexed (codes "abcdefghilmnoprstvw") functions_pages ≡ true
unfolding is_indexed
functions_pages_indexed = refl

variables_pages_indexed : is_indexed (codes "_dhkls") variables_pages ≡ true
unfolding is_indexed
variables_pages_indexed = refl

typedefs_pages_indexed : is_indexed (codes "h") typedefs_pages ≡ true
unfolding is_indexed
typedefs_pages_indexed = refl

enums_pages_indexed : is_indexed (codes "h") enums_pages ≡ true
unfolding is_indexed
enums_pages_indexed = refl

enumvalues_pages_indexed : is_indexed (codes "h") enumvalues_pages ≡ true
unfolding is_indexed
enumvalues_pages_indexed = refl

properties_pages_indexed : is_indexed (codes "bcdefilmprsu") properties_pages ≡ true
unfolding is_indexed
properties_pages_indexed = refl

defines_pages_indexed : is_indexed (codes "h") defines_pages ≡ true
unfolding is_indexed
defines_pages_indexed = refl

groups_pages_indexed : is_indexed (codes "chmv") groups_pages ≡ true
unfolding is_indexed
groups_pages_indexed = refl

pages_pages_indexed : is_indexed (codes "h") pages_pages ≡ true
unfolding is_indexed
pages_pages_indexed = refl

-- The pages of several sections are indexed by their tables.
abbrev EachIndexed : List Str → List (List (List Entry)) → Type 0
EachIndexed [] [] = Unit
EachIndexed (chars ∷ more) (pages ∷ rest) = (is_indexed chars pages ≡ true) × EachIndexed more rest
EachIndexed _ _ = ⊥

EachIndexed-get :
    (tables : List Str) (sections : List (List (List Entry))) (i : ℕ) (chars : Str)
    (pages : List (List Entry))
    → EachIndexed tables sections
    → get_elem? tables i ≡ some chars
    → get_elem? sections i ≡ some pages
    → is_indexed chars pages ≡ true
EachIndexed-get [] [] i chars pages h at in_ = absurd (cc at)
EachIndexed-get [] (ps ∷ rest) i chars pages h at in_ = absurd h
EachIndexed-get (cs ∷ more) [] i chars pages h at in_ = absurd h
EachIndexed-get (cs ∷ more) (ps ∷ rest) zero chars pages h at in_ =
    let same : cs ≡ chars = cc at in
    let same' : ps ≡ pages = cc in_ in
    subst (λ c. is_indexed c pages ≡ true) same (subst (λ p. is_indexed cs p ≡ true) same' h.0)
EachIndexed-get (cs ∷ more) (ps ∷ rest) (suc i) chars pages h at in_ =
    EachIndexed-get more rest i chars pages h.1 at in_

site-EachIndexed : EachIndexed site_sections.with_content site_pages
site-EachIndexed = (
  all_pages_indexed,
  (
    classes_pages_indexed,
    (
      files_pages_indexed,
      (
        functions_pages_indexed,
        (
          variables_pages_indexed,
          (
            typedefs_pages_indexed,
            (
              enums_pages_indexed,
              (
                enumvalues_pages_indexed,
                (
                  properties_pages_indexed,
                  (defines_pages_indexed, (groups_pages_indexed, (pages_pages_indexed, tt))),
                ),
              ),
            ),
          ),
        ),
      ),
    ),
  ),
)

-- Each section of the site has a page for each character of its table, the characters of a table
-- differ, and each entry of a page has a name that is ASCII, starts with the character of the page
-- in lower case, and gives the identifier of the entry.
pub site-IsIndexed :
    (i : ℕ) (chars : Str) (pages : List (List Entry))
    → get_elem? site_sections.with_content i ≡ some chars
    → get_elem? site_pages i ≡ some pages
    → IsIndexed chars pages
site-IsIndexed i chars pages at has =
    is_indexed-IsIndexed chars pages
      (EachIndexed-get site_sections.with_content site_pages i chars pages site-EachIndexed at has)

is_plain_path : Str → Bool
is_plain_path [] = true
is_plain_path (c ∷ s) = not (c == b'?') && not (c == b'#') && is_plain_path s

all_plain : List Str → Bool
all_plain [] = true
all_plain (s ∷ more) = is_plain_path s && all_plain more
