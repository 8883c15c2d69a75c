-- ===== src/Search/Results/Filter.antt =====
-- `SearchResults.Search` of docs/docs/search/search.js. `lower` is `String.prototype.toLowerCase`.
pub mod Rows
pub mod Created
pub mod Names
use hex_fiend.Prelude.{
  ℕ, suc, ◌+◌, Bool, true, false, ◌&&◌, List, [], ◌∷◌, ◌++◌, leb, ◌==◌, if◌then◌else◌, Str, codes,
  str_eq, drop, ◌≡◌, refl,
}
use hex_fiend.Search.Spaces.{strip_leading, strip_trailing}
use hex_fiend.Search.Ident.{convert_to_id, is_prefix}
use hex_fiend.Search.Escape.{unescape, location_search}
use hex_fiend.Search.Dom.{Elem, Nodes, nil, node, get_attribute, id_of, class_name}
use hex_fiend.Search.Results.{Page}

skip_digits : Str → Str
skip_digits [] = []
skip_digits (c ∷ s) = if leb b'0' c && leb c b'9' then skip_digits s else c ∷ s

-- `replace(/^sr\d*_/, '')`; the first argument is what stays where the pattern does not match.
after_underscore : Str → Str → Str
after_underscore whole [] = whole
after_underscore whole (c ∷ s) = if c == b'_' then s else whole

unfoldable pub strip_row_prefix : Str → Str
unfolding skip_digits after_underscore
strip_row_prefix (c ∷ d ∷ s) =
    if c == b's' && d == b'r' then after_underscore (c ∷ d ∷ s) (skip_digits s) else c ∷ d ∷ s
strip_row_prefix s = s

unfoldable pub is_row : Elem → Bool
unfolding str_eq get_attribute
is_row e = str_eq e.tag (codes "DIV") && str_eq (class_name e) (codes "SRResult")

module _ (lower : Str → Str) where
  -- the word that is looked for: `location` is `window.location`, read if no word is given
  unfoldable pub search_word : Str → Str → Str
  unfolding unescape location_search strip_leading strip_trailing str_eq
  search_word location word =
      let given = if str_eq word [] then unescape (drop 1 (location_search location)) else word in
      lower (strip_trailing (strip_leading given))

  -- its identifier, which is compared
  unfoldable pub search_key : Str → Str → Str
  unfolding search_word convert_to_id
  search_key location word = convert_to_id (search_word location word)

  unfoldable pub row_matches : Str → Elem → Bool
  unfolding is_prefix strip_row_prefix get_attribute str_eq
  row_matches key e = is_prefix key (strip_row_prefix (lower (id_of e)))

  -- the body of the loop, with the count of the matches so far
  unfoldable pub visit_row : Str → Elem → ℕ → Elem × ℕ
  unfolding is_row row_matches
  visit_row key e matches =
      if is_row e
      then if row_matches key e
        then (record e { display = codes "block" }, suc matches)
        else (record e { display = codes "none" }, matches)
      else (e, matches)

  -- the loop over `getElementsByTagName("div")`, in document order
  unfoldable pub filter_rows : Str → Nodes → ℕ → Nodes × ℕ
  unfolding visit_row
  filter_rows key nil matches = (nil, matches)
  filter_rows key (node e kids rest) matches =
      let (e', m) = visit_row key e matches in
      let (kids', m') = filter_rows key kids m in
      let (rest', m'') = filter_rows key rest m' in (node e' kids' rest', m'')

  unfoldable pub search : Str → Str → Page → Page
  unfolding search_key filter_rows
  search location word page =
      let (results, matches) = filter_rows (search_key location word) page.results 0 in
      record page {
        results = results;
        searching = codes "none";
        no_matches = if matches == 0 then codes "block" else codes "none";
        last_match_count = matches;
      }
