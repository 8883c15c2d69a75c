-- ===== src/Search/Sections.antt =====
-- The tables of docs/docs/search/searchdata.js: for each section the first characters of its
-- symbols, the name of its files, and its label.
use hex_fiend.Prelude.{ℕ, suc, List, [], ◌∷◌, Option, none, some, if◌then◌else◌, Str, codes}
use hex_fiend.Search.Ident.{is_prefix}
use mathlib.Core.Option

pub record Sections : Type 0 where
  pub with_content : List Str
  pub names : List Str
  pub labels : List Str

-- `indexSectionsWithContent`, `indexSectionNames` and `indexSectionLabels`
abbrev pub site_sections : Sections
site_sections = record {
  with_content =
      codes "_abcdefghiklmnoprstuvw"
      ∷ codes "h"
      ∷ codes "h"
      ∷ codes "abcdefghilmnoprstvw"
      ∷ codes "_dhkls"
      ∷ codes "h"
      ∷ codes "h"
      ∷ codes "h"
      ∷ codes "bcdefilmprsu"
      ∷ codes "h"
      ∷ codes "chmv"
      ∷ codes "h"
      ∷ [];
  names =
      codes "all"
      ∷ codes "classes"
      ∷ codes "files"
      ∷ codes "functions"
      ∷ codes "variables"
      ∷ codes "typedefs"
      ∷ codes "enums"
      ∷ codes "enumvalues"
      ∷ codes "properties"
      ∷ codes "defines"
      ∷ codes "groups"
      ∷ codes "pages"
      ∷ [];
  labels =
      codes "All"
      ∷ codes "Classes"
      ∷ codes "Files"
      ∷ codes "Functions"
      ∷ codes "Variables"
      ∷ codes "Typedefs"
      ∷ codes "Enumerations"
      ∷ codes "Enumerator"
      ∷ codes "Properties"
      ∷ codes "Macros"
      ∷ codes "Modules"
      ∷ codes "Pages"
      ∷ [];
}

-- `indexOf`: the first place at which the string is found.
unfoldable pub index_of : Str → Str → Option ℕ
unfolding is_prefix
index_of needle [] = if is_prefix needle [] then some 0 else none
index_of needle (c ∷ s) =
    if is_prefix needle (c ∷ s) then some 0 else Option.map suc (index_of needle s)
