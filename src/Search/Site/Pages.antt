-- ===== src/Search/Site/Pages.antt =====
-- The pages of results of the documentation site, beside the tables of searchdata.js.
use hex_fiend.Prelude.{List, [], ◌∷◌}
use hex_fiend.Search.Results.{Entry}
use hex_fiend.Search.Data.All0To2.{all_0, all_1, all_2}
use hex_fiend.Search.Data.All11To14.{all_11, all_12, all_13, all_14}
use hex_fiend.Search.Data.All3To4.{all_3, all_4}
use hex_fiend.Search.Data.All8.{all_8}
use hex_fiend.Search.Data.All9.{all_9}
use hex_fiend.Search.Data.AllAToC.{all_a, all_b, all_c}
use hex_fiend.Search.Data.AllDTo10.{all_d, all_e, all_f, all_10}
use hex_fiend.Search.Data.Classes.{classes_0}
use hex_fiend.Search.Data.Enumvalues.{enumvalues_0}
use hex_fiend.Search.Data.Files.{files_0}
use hex_fiend.Search.Data.Functions0To1.{functions_0, functions_1}
use hex_fiend.Search.Data.Functions2To6.{
  functions_2, functions_3, functions_4, functions_5, functions_6,
}
use hex_fiend.Search.Data.Functions8To9.{functions_8, functions_9}
use hex_fiend.Search.Data.FunctionsAToD.{functions_a, functions_b, functions_c, functions_d}
use hex_fiend.Search.Data.FunctionsETo10.{functions_e, functions_f, functions_10}
use hex_fiend.Search.Data.Properties0To9.{
  properties_0, properties_1, properties_2, properties_3, properties_4, properties_5, properties_6,
  properties_7, properties_8, properties_9,
}
use hex_fiend.Search.Data.Small.{
  all_5, all_6, all_7, all_15, functions_7, functions_11, functions_12, typedefs_0, enums_0,
  properties_a, properties_b, defines_0, groups_0, groups_1, groups_2, groups_3, pages_0,
}
use hex_fiend.Search.Data.Variables.{
  variables_0, variables_1, variables_2, variables_3, variables_4, variables_5,
}

abbrev pub all_pages : List (List Entry)
all_pages =
    all_0 ∷ all_1 ∷ all_2 ∷ all_3 ∷ all_4 ∷ all_5 ∷ all_6 ∷ all_7 ∷ all_8 ∷ all_9 ∷ all_a ∷ all_b
    ∷ all_c ∷ all_d ∷ all_e ∷ all_f ∷ all_10 ∷ all_11 ∷ all_12 ∷ all_13 ∷ all_14 ∷ all_15 ∷ []

abbrev pub classes_pages : List (List Entry)
classes_pages = classes_0 ∷ []

abbrev pub files_pages : List (List Entry)
files_pages = files_0 ∷ []

abbrev pub functions_pages : List (List Entry)
functions_pages =
    functions_0 ∷ functions_1 ∷ functions_2 ∷ functions_3 ∷ functions_4 ∷ functions_5 ∷ functions_6
    ∷ functions_7 ∷ functions_8 ∷ functions_9 ∷ functions_a ∷ functions_b ∷ functions_c
    ∷ functions_d ∷ functions_e ∷ functions_f ∷ functions_10 ∷ functions_11 ∷ functions_12 ∷ []

abbrev pub variables_pages : List (List Entry)
variables_pages =
    variables_0 ∷ variables_1 ∷ variables_2 ∷ variables_3 ∷ variables_4 ∷ variables_5 ∷ []

abbrev pub typedefs_pages : List (List Entry)
typedefs_pages = typedefs_0 ∷ []

abbrev pub enums_pages : List (List Entry)
enums_pages = enums_0 ∷ []

abbrev pub enumvalues_pages : List (List Entry)
enumvalues_pages = enumvalues_0 ∷ []

abbrev pub properties_pages : List (List Entry)
properties_pages =
    properties_0 ∷ properties_1 ∷ properties_2 ∷ properties_3 ∷ properties_4 ∷ properties_5
    ∷ properties_6 ∷ properties_7 ∷ properties_8 ∷ properties_9 ∷ properties_a ∷ properties_b ∷ []

abbrev pub defines_pages : List (List Entry)
defines_pages = defines_0 ∷ []

abbrev pub groups_pages : List (List Entry)
groups_pages = groups_0 ∷ groups_1 ∷ groups_2 ∷ groups_3 ∷ []

abbrev pub pages_pages : List (List Entry)
pages_pages = pages_0 ∷ []

-- The pages of each section.
abbrev pub site_pages : List (List (List Entry))
site_pages =
    all_pages ∷ classes_pages ∷ files_pages ∷ functions_pages ∷ variables_pages ∷ typedefs_pages
    ∷ enums_pages ∷ enumvalues_pages ∷ properties_pages ∷ defines_pages ∷ groups_pages ∷ pages_pages
    ∷ []
