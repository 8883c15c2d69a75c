-- ===== src/Search/Examples/Words.antt =====
-- The properties of search words and identifiers, at examples.
use hex_fiend.Prelude.{◌≡◌, refl, [], ◌∷◌, ◌++◌, codes, IsText, arith, map, lower_char}
use hex_fiend.Search.Spaces.{strip_leading, strip_trailing}
use hex_fiend.Search.Ident.{convert_to_id, is_prefix}
use hex_fiend.Search.Ident.Matching.{is_prefix-convert_to_id}
use hex_fiend.Search.Escape.{escape}
use hex_fiend.Search.Results.Filter.{search_word}
use hex_fiend.Search.EndToEnd.{search_word-escape}

text : IsText (codes "hf_a")
text = (omega arith, (omega arith, (omega arith, (omega arith, tt))))

shorter : IsText (codes "hf_")
shorter = (omega arith, (omega arith, (omega arith, tt)))

is_prefix-convert_to_id_example :
    is_prefix (convert_to_id (codes "hf_")) (convert_to_id (codes "hf_a"))
    ≡ is_prefix (codes "hf_") (codes "hf_a")
is_prefix-convert_to_id_example = is_prefix-convert_to_id (codes "hf_") (codes "hf_a") shorter text

search_word-escape_example :
    search_word (map lower_char) (codes "a.b" ++ b'?' ∷ escape (codes "hf_a")) []
    ≡ map lower_char (strip_trailing (strip_leading (codes "hf_a")))
search_word-escape_example =
    search_word-escape (map lower_char) (codes "a.b") (codes "hf_a")
      ((refl, refl), ((refl, refl), ((refl, refl), tt))) text
