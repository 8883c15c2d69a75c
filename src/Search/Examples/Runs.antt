-- ===== src/Search/Examples/Runs.antt =====
-- Runs of the functions on strings.
use hex_fiend.Prelude.{[], ◌∷◌, ◌++◌, ◌≡◌, refl, some, codes}
use hex_fiend.Prelude.Digits.{to_hex, to_string}
use hex_fiend.Search.Ident.{convert_to_id}
use hex_fiend.Search.Escape.{escape, unescape, location_search}
use hex_fiend.Search.Sections.{index_of}
use hex_fiend.Search.Results.Filter.{strip_row_prefix}

convert_to_id_run : convert_to_id (codes "hf_range 2.h") ≡ codes "hf_5frange_202_2eh"
unfolding convert_to_id
convert_to_id_run = refl

convert_to_id_controls : convert_to_id (9 ∷ 0xe9 ∷ 65 ∷ []) ≡ codes "_09" ++ 0xe9 ∷ codes "_41"
unfolding convert_to_id
convert_to_id_controls = refl

escape_run : escape (codes "a b%" ++ 0xe9 ∷ 0x20ac ∷ []) ≡ codes "a%20b%25%E9%u20AC"
unfolding escape
escape_run = refl

unescape_run :
    unescape (codes "a%20b%%25%e9%u20AC%u2") ≡ codes "a b%%" ++ 0xe9 ∷ 0x20ac ∷ codes "%u2"
unfolding unescape
unescape_run = refl

location_search_run : location_search (codes "search/all_1.html?ab#x") ≡ codes "?ab"
unfolding location_search
location_search_run = refl

strip_row_prefix_run : strip_row_prefix (codes "sr12_range") ≡ codes "range"
unfolding strip_row_prefix
strip_row_prefix_run = refl

strip_row_prefix_keeps : strip_row_prefix (codes "srx_range") ≡ codes "srx_range"
unfolding strip_row_prefix
strip_row_prefix_keeps = refl

index_of_run : index_of (codes "d") (codes "_abcd") ≡ some 4
unfolding index_of
index_of_run = refl

to_hex_run : to_hex 0x1a0f ≡ codes "1a0f"
unfolding to_string
to_hex_run = refl
