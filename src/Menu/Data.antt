-- ===== src/Menu/Data.antt =====
-- The tree of docs/docs/menudata.js.
use hex_fiend.Prelude.{true, false, List, [], ◌∷◌, codes}
use hex_fiend.Menu.{Entries, nil, entry}
use Prim.Native.String.{String}

-- An entry in front of others, without and with `children`.
abbrev leaf : String → String → Entries → Entries
leaf text url rest = entry (codes text) (codes url) false nil rest

abbrev entries : List (Entries → Entries) → Entries
entries [] = nil
entries (e ∷ es) = e (entries es)

abbrev branch : String → String → List (Entries → Entries) → Entries → Entries
branch text url children rest = entry (codes text) (codes url) true (entries children) rest

-- `menudata`
abbrev pub site_menu : Entries
site_menu = entries (
    (leaf "Main Page" "index.html")
    ∷ (leaf "Modules" "modules.html")
    ∷ (branch "Classes" "annotated.html" (
        (leaf "Class List" "annotated.html")
        ∷ (leaf "Class Hierarchy" "hierarchy.html")
        ∷ (branch "Class Members" "functions.html" (
            (branch "All" "functions.html" (
              (leaf "_" "functions.html#index__")
              ∷ (leaf "a" "functions_a.html#index_a")
              ∷ (leaf "b" "functions_b.html#index_b")
              ∷ (leaf "c" "functions_c.html#index_c")
              ∷ (leaf "d" "functions_d.html#index_d")
              ∷ (leaf "e" "functions_e.html#index_e")
              ∷ (leaf "f" "functions_f.html#index_f")
              ∷ (leaf "g" "functions_g.html#index_g")
              ∷ (leaf "h" "functions_h.html#index_h")
              ∷ (leaf "i" "functions_i.html#index_i")
              ∷ (leaf "l" "functions_l.html#index_l")
              ∷ (leaf "m" "functions_m.html#index_m")
              ∷ (leaf "n" "functions_n.html#index_n")
              ∷ (leaf "o" "functions_o.html#index_o")
              ∷ (leaf "p" "functions_p.html#index_p")
              ∷ (leaf "r" "functions_r.html#index_r")
              ∷ (leaf "s" "functions_s.html#index_s")
              ∷ (leaf "t" "functions_t.html#index_t")
              ∷ (leaf "u" "functions_u.html#index_u")
              ∷ (leaf "v" "functions_v.html#index_v")
              ∷ (leaf "w" "functions_w.html#index_w")
              ∷ []))
            ∷ (branch "Functions" "functions_func.html" (
                (leaf "a" "functions_func.html#index_a")
                ∷ (leaf "b" "functions_func.html#index_b")
                ∷ (leaf "c" "functions_func.html#index_c")
                ∷ (leaf "d" "functions_func.html#index_d")
                ∷ (leaf "e" "functions_func.html#index_e")
                ∷ (leaf "f" "functions_func.html#index_f")
                ∷ (leaf "g" "functions_func.html#index_g")
                ∷ (leaf "h" "functions_func.html#index_h")
                ∷ (leaf "i" "functions_func.html#index_i")
                ∷ (leaf "l" "functions_func.html#index_l")
                ∷ (leaf "m" "functions_func.html#index_m")
                ∷ (leaf "n" "functions_func.html#index_n")
                ∷ (leaf "o" "functions_func.html#index_o")
                ∷ (leaf "p" "functions_func.html#index_p")
                ∷ (leaf "r" "functions_func.html#index_r")
                ∷ (leaf "s" "functions_func.html#index_s")
                ∷ (leaf "t" "functions_func.html#index_t")
                ∷ (leaf "v" "functions_func.html#index_v")
                ∷ (leaf "w" "functions_func.html#index_w")
                ∷ []))
            ∷ (leaf "Variables" "functions_vars.html")
            ∷ (branch "Properties" "functions_prop.html" (
                (leaf "b" "functions_prop.html#index_b")
                ∷ (leaf "c" "functions_prop.html#index_c")
                ∷ (leaf "d" "functions_prop.html#index_d")
                ∷ (leaf "e" "functions_prop.html#index_e")
                ∷ (leaf "f" "functions_prop.html#index_f")
                ∷ (leaf "i" "functions_prop.html#index_i")
                ∷ (leaf "l" "functions_prop.html#index_l")
                ∷ (leaf "m" "functions_prop.html#index_m")
                ∷ (leaf "p" "functions_prop.html#index_p")
                ∷ (leaf "r" "functions_prop.html#index_r")
                ∷ (leaf "s" "functions_prop.html#index_s")
                ∷ (leaf "u" "functions_prop.html#index_u")
                ∷ []))
            ∷ []))
        ∷ []))
    ∷ (branch "Files" "files.html" (
        (leaf "File List" "files.html")
        ∷ (branch "File Members" "globals.html" (
            (branch "All" "globals.html"
              ((leaf "h" "globals.html#index_h") ∷ (leaf "k" "globals.html#index_k") ∷ []))
            ∷ (leaf "Functions" "globals_func.html")
            ∷ (leaf "Variables" "globals_vars.html")
            ∷ (leaf "Typedefs" "globals_type.html")
            ∷ (leaf "Enumerations" "globals_enum.html")
            ∷ (branch "Enumerator" "globals_eval.html"
                ((leaf "h" "globals_eval.html#index_h") ∷ []))
            ∷ (leaf "Macros" "globals_defs.html")
            ∷ []))
        ∷ []))
    ∷ [])
