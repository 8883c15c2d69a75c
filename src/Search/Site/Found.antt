-- ===== src/Search/Site/Found.antt =====
-- A search of a section's pages from the search field (docs/docs/search/search.js).
use hex_fiend.Prelude.{
  ℕ, true, false, List, [], ◌∷◌, ◌++◌, Option, none, some, str_eq, ◌==◌, Str, get_elem?, ◌≡◌, ◌≢◌,
  refl, ap, sym, subst, ◌∙◌, map, All, IsText, IsAscii, ascii-IsText, lower_char, LowersAscii,
  Bool-cases, Option-cases, inl, inr, ◌⊎◌,
}
use hex_fiend.Prelude.Outcome.{returns}
use hex_fiend.Search.Spaces.{NoLeading, strip_leading-NoLeading, strip_leading, strip_trailing}
use hex_fiend.Search.Ident.{convert_to_id, is_prefix}
use hex_fiend.Search.Escape.{escape}
use hex_fiend.Search.Escape.RoundTrip.{IsPagePath}
use hex_fiend.Search.Site.Ascii.{
  strip_leading-IsAscii, strip_trailing-IsAscii, strip_trailing-cons, map_lower-IsText,
  index_char-ascii,
}
use hex_fiend.Search.Sections.{Sections, index_of}
use hex_fiend.Search.Panel.{Layout, Panel}
use hex_fiend.Search.Panel.Query.{
  Strings, index_char, section_name, results_page, no_matches_page, pages, open_pages, search,
}
use hex_fiend.Search.Results.{Entry, result_div, create_results, new_page}
use hex_fiend.Search.Results.Filter
use hex_fiend.Search.Results.Filter.Rows.{rows, shown, shown_if}
use hex_fiend.Search.EndToEnd.{search_shows, search_lem, open_pages-frame_location, pages-found}
use hex_fiend.Search.Site.{lower_name, matching, concat, is_indexed}
use hex_fiend.Search.Site.Indexed.{IsNamed, matching-found, matching-not_found}

-- The rows that the word leaves are those of the entries that match it.
shown-matching :
    (w : Str) (es : List Entry)
    → shown (map (λ x. shown_if (is_prefix w (lower_name x)) (result_div x)) es)
      ≡ map (λ x. shown_if true (result_div x)) (matching w es)
unfolding matching shown str_eq
shown-matching w [] = refl
shown-matching w (x ∷ es) = elim (Bool-cases (is_prefix w (lower_name x))) [
  | inl e ↦ rw e (ap (shown_if true (result_div x) ∷◌) (shown-matching w es))
  | inr e ↦ rw e (shown-matching w es)
]

open_pages-last_results_page :
    (lay : Layout) (value page address : Str) (p : Panel)
    → (open_pages lay value (page, address) p).last_results_page ≡ page
unfolding open_pages
open_pages-last_results_page lay value page address p = refl

pages-not_found :
    (path section value : Str)
    → pages path section none value ≡ (no_matches_page path, no_matches_page path)
unfolding pages
pages-not_found path section value = refl

-- What a search of the pages of a section shows: the frame gets the address of a page of results,
-- with the escaped text of the search field, and on that page exactly the entries of the section
-- whose name starts with the word are shown; or, where there is none, the address of the page that
-- says so.
abbrev pub Answers : Strings → Str → Str → List (List Entry) → Str → Str → Panel → Type 0
Answers js path section pages_ value word p' =
    ((idx : ℕ) × (es : List Entry) × (get_elem? pages_ idx ≡ some es)
      × (p'.last_results_page ≡ results_page path section idx)
      × (p'.frame_location ≡ results_page path section idx ++ b'?' ∷ escape value)
      × (shown (
            rows
              (Filter.search js.lower p'.frame_location [] (new_page (create_results es))).results)
          ≡ map (λ x. shown_if true (result_div x)) (matching word (concat pages_))))
    ⊎ ((p'.last_results_page ≡ no_matches_page path)
        × (p'.frame_location ≡ no_matches_page path)
        × (matching word (concat pages_) ≡ []))

-- The word starts with the character that it is looked up under.
word-first :
    (js : Strings) (c : ℕ) (s : Str)
    → LowersAscii js.lower
    → IsAscii (c ∷ s)
    → (c == b' ') ≡ false
    → (r : Str) × (js.lower (strip_trailing (c ∷ s)) ≡ lower_char c ∷ r)
word-first js c s lowers h other =
    let (r, e) = strip_trailing-cons c s other in
    (
      map lower_char r,
      lowers (strip_trailing (c ∷ s)) (strip_trailing-IsAscii (c ∷ s) h) ∙ ap (map lower_char) e,
    )

not_empty : (s : Str) → s ≢ [] → (c : ℕ) × (t : Str) × (s ≡ c ∷ t)
not_empty [] h = absurd (h refl)
not_empty (c ∷ t) h = (c, t, refl)

first_other : (v : Str) (c : ℕ) (s : Str) → NoLeading v → v ≡ c ∷ s → (c == b' ') ≡ false
first_other [] c s h e = absurd (cc e)
first_other (d ∷ v) c s h e = subst (λ v'. NoLeading v') e h

coded_all :
    (d : ℕ) (es : List Entry)
    → All (IsNamed d) es
    → All (λ x. (x.id ≡ convert_to_id (lower_name x)) × IsAscii (lower_name x)) es
coded_all d [] h = tt
coded_all d (x ∷ es) h = ((h.0.coded, h.0.ascii), coded_all d es h.1)

module _ (js : Strings) (table : Sections) (lay : Layout) (p : Panel) (chars : Str)
    (pages_ : List (List Entry)) (has : get_elem? table.with_content p.search_index ≡ some chars)
    (indexed : is_indexed chars pages_ ≡ true) (path : IsPagePath p.results_path)
    (section : IsPagePath (section_name table p.search_index)) (ascii : IsAscii p.field_value)
    (lowers : LowersAscii js.lower) where
  word : Str
  word = js.lower (strip_trailing (strip_leading p.field_value))

  word-IsText : IsText word
  unfolding word
  word-IsText =
      let value = strip_leading-IsAscii p.field_value ascii in
      let trimmed = strip_trailing-IsAscii (strip_leading p.field_value) value in
      subst IsText (sym (lowers (strip_trailing (strip_leading p.field_value)) trimmed))
        (map_lower-IsText (strip_trailing (strip_leading p.field_value)) trimmed)

  searched : Option ℕ → Panel
  searched o =
      open_pages lay (strip_leading p.field_value)
        (pages p.results_path (section_name table p.search_index) o (strip_leading p.field_value))
        (record p { key_timeout = 0 })

  searched-last_results_page :
      (o : Option ℕ)
      → (searched o).last_results_page
        ≡ (pages p.results_path
            (section_name table p.search_index)
            o
            (strip_leading p.field_value)).0
  unfolding searched
  searched-last_results_page o =
      open_pages-last_results_page lay (strip_leading p.field_value) _ _
        (record p { key_timeout = 0 })

  searched-frame_location :
      (o : Option ℕ)
      → (searched o).frame_location
        ≡ (pages p.results_path
            (section_name table p.search_index)
            o
            (strip_leading p.field_value)).1
  unfolding searched
  searched-frame_location o =
      open_pages-frame_location lay (strip_leading p.field_value) _ _ (record p { key_timeout = 0 })

  search-searched :
      (o : Option ℕ)
      → index_of (index_char js (strip_leading p.field_value)) chars ≡ o
      → search js table lay p ≡ returns (searched o)
  unfolding searched
  search-searched o e = search_lem js table lay p chars has ∙ rw e refl

  Answers-found :
      (d : ℕ) (r : Str) (idx : ℕ)
      → index_char js (strip_leading p.field_value) ≡ d ∷ []
      → word ≡ d ∷ r
      → index_of (d ∷ []) chars ≡ some idx
      → Answers js p.results_path
          (section_name table p.search_index)
          pages_
          (strip_leading p.field_value)
          word
          (searched (some idx))
  unfolding word
  Answers-found d r idx first starts found =
      let at = ap (λ n. index_of n chars) first ∙ found in
      let (es, has_es, named, same) = matching-found d r chars pages_ idx indexed found in
      let (p', runs, shows) =
        search_shows js table lay p chars idx es lower_name has at path section
          (ascii-IsText p.field_value ascii) lowers word-IsText (coded_all d es named) in
      let p'-searched : p' ≡ searched (some idx) = cc (runs, search-searched (some idx) at) in
      inl (
        idx,
        es,
        has_es,
        searched-last_results_page (some idx)
            ∙ ap (λ q. q.0)
                (pages-found p.results_path (section_name table p.search_index)
                  (strip_leading p.field_value) idx),
        searched-frame_location (some idx)
            ∙ ap (λ q. q.1)
                (pages-found p.results_path (section_name table p.search_index)
                  (strip_leading p.field_value) idx),
        subst
            (λ q.
              shown (
                rows
                  (Filter.search js.lower q.frame_location []
                    (new_page (create_results es))).results)
              ≡ map (λ x. shown_if true (result_div x)) (matching word (concat pages_)))
            p'-searched
            (ap shown shows
              ∙ shown-matching word es
              ∙ ap (map (λ x. shown_if true (result_div x))) (
                  subst (λ w. matching w es ≡ matching w (concat pages_)) (sym starts) (sym same))),
      )

  Answers-not_found :
      (d : ℕ) (r : Str)
      → word ≡ d ∷ r
      → index_of (d ∷ []) chars ≡ none
      → Answers js p.results_path
          (section_name table p.search_index)
          pages_
          (strip_leading p.field_value)
          word
          (searched none)
  Answers-not_found d r starts found = inr (
    searched-last_results_page none
        ∙ ap (λ q. q.0)
            (pages-not_found p.results_path (section_name table p.search_index)
              (strip_leading p.field_value)),
    searched-frame_location none
        ∙ ap (λ q. q.1)
            (pages-not_found p.results_path (section_name table p.search_index)
              (strip_leading p.field_value)),
    subst (λ w. matching w (concat pages_) ≡ []) (sym starts)
        (matching-not_found d r chars pages_ indexed found),
  )

  word-Answers :
      (d : ℕ) (r : Str)
      → index_char js (strip_leading p.field_value) ≡ d ∷ []
      → word ≡ d ∷ r
      → (p' : Panel) × (search js table lay p ≡ returns p')
        × Answers js p.results_path
            (section_name table p.search_index)
            pages_
            (strip_leading p.field_value)
            word
            p'
  word-Answers d r first starts = elim (Option-cases (index_of (d ∷ []) chars)) [
    | inl e ↦ (
      searched none,
      search-searched none (ap (λ n. index_of n chars) first ∙ e),
      Answers-not_found d r starts e,
    )
    | inr (idx, e) ↦ (
      searched (some idx),
      search-searched (some idx) (ap (λ n. index_of n chars) first ∙ e),
      Answers-found d r idx first starts e,
    )
  ]

  -- Where the pages of the section are indexed by the characters of the table, each entry under the
  -- first of its name, then a search for a word that is not empty returns. The frame gets the address
  -- of the page, with the escaped text of the search field without the spaces in front of it, on which
  -- exactly the entries of the whole section whose name starts with the word are shown, or, where no
  -- entry does, that of the page that says so. The word is that of the search field, in lower case
  -- and without the spaces around it; the field is ASCII, and neither the path nor the section's
  -- name has `?` or `#`.
  pub search-Answers :
      strip_leading p.field_value ≢ []
      → (p' : Panel) × (search js table lay p ≡ returns p')
        × Answers js p.results_path
            (section_name table p.search_index)
            pages_
            (strip_leading p.field_value)
            (map lower_char (strip_trailing (strip_leading p.field_value)))
            p'
  unfolding word
  search-Answers full =
      let value = strip_leading-IsAscii p.field_value ascii in
      let (c, s, e) = not_empty (strip_leading p.field_value) full in
      let other =
        first_other (strip_leading p.field_value) c s (strip_leading-NoLeading p.field_value) e in
      let value' = subst IsAscii e value in
      let (r, starts) = word-first js c s lowers value' other in
      let (p', runs, shows) =
        word-Answers (lower_char c) r (ap (index_char js) e ∙ index_char-ascii js c s lowers value')
          (ap (λ v. js.lower (strip_trailing v)) e ∙ starts) in
      (
        p',
        runs,
        subst
            (λ w.
              Answers js p.results_path (section_name table p.search_index) pages_
                (strip_leading p.field_value) w p')
            (lowers (strip_trailing (strip_leading p.field_value))
              (strip_trailing-IsAscii (strip_leading p.field_value) value))
            shows,
      )
