-- ===== src/Search/Ident.antt =====
-- `convertToId` of docs/docs/search/search.js: the identifier of a search word.
pub mod Matching
use hex_fiend.Prelude.{
  ℕ, Bool, true, false, ◌&&◌, ◌||◌, [], ◌∷◌, ◌++◌, ◌≡◌, refl, ltb, leb, if◌then◌else◌, Str, codes,
  str_eq, length, take,
}
use hex_fiend.Prelude.Digits.{to_string, to_hex}

-- /[a-z0-9\u0080-\uFFFF]/
unfoldable pub stands_for_itself : ℕ → Bool
stands_for_itself c =
    (leb b'a' c && leb c b'z') || (leb b'0' c && leb c b'9') || (leb 0x80 c && leb c 0xffff)

-- what one round of the loop appends
unfoldable pub convert_char : ℕ → Str
unfolding stands_for_itself to_string
convert_char c =
    if stands_for_itself c
    then c ∷ []
    else if ltb c 16
    then codes "_0" ++ to_hex c
    else codes "_" ++ to_hex c

-- the loop, with the result so far
convert_from : Str → Str → Str
convert_from result [] = result
convert_from result (c ∷ s) = convert_from (result ++ convert_char c) s

unfoldable pub convert_to_id : Str → Str
unfolding convert_from convert_char
convert_to_id search = convert_from [] search

-- The test of `SearchResults.Search` on the identifier of a row: it is as long as the word at least,
-- and starts with it.
unfoldable pub is_prefix : Str → Str → Bool
unfolding str_eq
is_prefix search name =
    leb (length search) (length name) && str_eq (take (length search) name) search
