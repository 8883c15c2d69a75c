-- ===== src/Search/Results/Nav/Created.antt =====
-- `NavNext` of docs/docs/search/search.js on a page that `createResults` has built, after a search.
use native.Mathlib.Decide.{dec_le}
use hex_fiend.Prelude.{
  ℕ, zero, suc, ◌≤◌, ◌<◌, Bool, true, false, List, [], ◌∷◌, Option, none, some, if◌then◌else◌, Str,
  codes, str_eq, get_elem?, length, ◌≡◌, refl, arith, ap, sym, ◌∙◌, All, subst, Bool-cases, inl,
  inr, ◌⊎◌, IsText, IsAscii, LowersAscii,
}
use hex_fiend.Prelude.Outcome.{returns}
use hex_fiend.Search.Dom.{
  Elem, Nodes, nil, node, Way, id_of, element_with_id, get_element_by_id, node_at,
}
use hex_fiend.Search.Ident.{convert_to_id, is_prefix}
use hex_fiend.Search.Results.{Entry, item_id, result_div, create_results, new_page}
use hex_fiend.Search.Results.Children.{display_at}
use hex_fiend.Search.Results.Filter
use hex_fiend.Search.Results.Filter.{
  is_row, row_matches, visit_row, filter_rows, search_word, search_key,
}
use hex_fiend.Search.Results.Filter.Created.{is_row-result_div}
use hex_fiend.Search.Results.Filter.Names.{row_matches-entry, search_key_lem}
use hex_fiend.Search.Results.Nav.{is_visible, nav_next}
use hex_fiend.Search.Results.Nav.Items.{
  created, create_results-created, created-item, created-no_item,
}
use hex_fiend.Search.Results.Nav.Visible.{EndsAt, IsHidden, nav_next_lem}

module _ (lower : Str → Str) (key : Str) where
  id_of-visit_row : (e : Elem) (m : ℕ) → id_of (visit_row lower key e m).0 ≡ id_of e
  unfolding visit_row
  id_of-visit_row e m = elim (Bool-cases (is_row e)) [
    | inl row ↦ elim (Bool-cases (row_matches lower key e)) [
      | inl hit ↦ rw (row, hit) refl
      | inr miss ↦ rw (row, miss) refl
    ]
    | inr other ↦ rw other refl
  ]

  -- A search changes no identifier.
  element_with_id-filter_rows :
      (ns : Nodes) (m : ℕ) (id : Str)
      → element_with_id (filter_rows lower key ns m).0 id ≡ element_with_id ns id
  unfolding filter_rows element_with_id
  element_with_id-filter_rows nil m id = refl
  element_with_id-filter_rows (node e kids rest) m id =
      rw
        (
          id_of-visit_row e m,
          element_with_id-filter_rows kids (visit_row lower key e m).1 id,
          element_with_id-filter_rows rest
              (filter_rows lower key kids (visit_row lower key e m).1).1 id,
        )
        refl

  display-visit_row :
      (e : Elem) (m : ℕ)
      → is_row e ≡ true
      → (visit_row lower key e m).0.display
        ≡ (if row_matches lower key e then codes "block" else codes "none")
  unfolding visit_row
  display-visit_row e m row = elim (Bool-cases (row_matches lower key e)) [
    | inl hit ↦ rw (row, hit) refl
    | inr miss ↦ rw (row, miss) refl
  ]

  -- The row of an entry is displayed if it matches.
  display_at-row :
      (j e m : ℕ) (es : List Entry) (x : Entry)
      → get_elem? es j ≡ some x
      → display_at (filter_rows lower key (created e es) m).0 (j ∷ [])
        ≡ (if row_matches lower key (result_div x) then codes "block" else codes "none")
  unfolding filter_rows created node_at
  display_at-row j e m [] x h = absurd (cc h)
  display_at-row zero e m (y ∷ es) x h =
      let same : y ≡ x = cc h in
      display-visit_row (result_div y) m (is_row-result_div y)
      ∙ ap (λ z. if row_matches lower key (result_div z) then codes "block" else codes "none") same
  display_at-row (suc j) e m (y ∷ es) x h = display_at-row j (suc e) _ es x h

get_elem-some {ℓ} :
    {A : Type ℓ} (xs : List A) (i : ℕ) → i < length xs → (x : A) × (get_elem? xs i ≡ some x)
get_elem-some [] i h = absurd (omega arith)
get_elem-some (x ∷ xs) zero h = (x, refl)
get_elem-some (x ∷ xs) (suc i) h = get_elem-some xs i (omega (arith, h))

block_if : (b : Bool) → str_eq (if b then codes "block" else codes "none") (codes "block") ≡ b
unfolding str_eq
block_if true = refl
block_if false = refl

All-get {ℓ κ} :
    {A : Type ℓ} (P : A → Type κ) (xs : List A) (i : ℕ) (x : A)
    → All P xs
    → get_elem? xs i ≡ some x
    → P x
All-get P [] i x h e = absurd (cc e)
All-get P (y ∷ xs) zero x h e = let same : y ≡ x = cc e in subst P same h.0
All-get P (y ∷ xs) (suc i) x h e = All-get P xs i x h.1 e

-- The first entry from an index on that passes a test, by the way to its link on the page.
pub record FirstMatch (test : Entry → Bool) (es : List Entry) (i : ℕ) (o : Option Way)
    : Type 0 where
  pub stop : ℕ
  pub forward : i ≤ stop
  pub found :
      ((o ≡ none) × (length es ≤ stop))
      ⊎ ((x : Entry) × (o ≡ some (stop ∷ 0 ∷ 0 ∷ []))
          × (get_elem? es stop ≡ some x)
          × (test x ≡ true))
  pub skipped :
      (k : ℕ) → i ≤ k → k < stop → (x : Entry) × (get_elem? es k ≡ some x) × (test x ≡ false)

module _ (lower : Str → Str) (location word : Str) (es : List Entry) (name : Entry → Str)
    (lowers : LowersAscii lower) (wide : IsText (search_word lower location word))
    (named : All (λ x. (x.id ≡ convert_to_id (name x)) × IsAscii (name x)) es) where
  doc : Nodes
  doc = (Filter.search lower location word (new_page (create_results es))).results

  doc-filter_rows : doc ≡ (filter_rows lower (search_key lower location word) (created 0 es) 0).0
  unfolding doc Filter.search
  doc-filter_rows =
      ap (λ ns. (filter_rows lower (search_key lower location word) ns 0).0)
        (create_results-created es)

  lookup : (k : ℕ) → get_element_by_id doc (item_id k) ≡ element_with_id (created 0 es) (item_id k)
  unfolding get_element_by_id
  lookup k =
      ap (λ ns. element_with_id ns (item_id k)) doc-filter_rows
      ∙ element_with_id-filter_rows lower (search_key lower location word) (created 0 es) 0
          (item_id k)

  lookup-item :
      (k : ℕ) (x : Entry)
      → get_elem? es k ≡ some x
      → get_element_by_id doc (item_id k) ≡ some (k ∷ 0 ∷ 0 ∷ [])
  lookup-item k x h =
      lookup k
      ∙ ap (λ n. element_with_id (created 0 es) (item_id n)) (omega arith)
      ∙ created-item k 0 es x h

  lookup-none : (k : ℕ) → length es ≤ k → get_element_by_id doc (item_id k) ≡ none
  lookup-none k h = lookup k ∙ created-no_item 0 k es (omega (arith, h))

  test : Entry → Bool
  test x = is_prefix (search_word lower location word) (name x)

  visible-item :
      (k : ℕ) (x : Entry) → get_elem? es k ≡ some x → is_visible doc (k ∷ 0 ∷ 0 ∷ []) ≡ test x
  unfolding is_visible test
  visible-item k x h =
      let own = All-get (λ z. (z.id ≡ convert_to_id (name z)) × IsAscii (name z)) es k x named h in
      ap (λ s. str_eq s (codes "block"))
        (ap (λ ns. display_at ns (k ∷ [])) doc-filter_rows
          ∙ display_at-row lower (search_key lower location word) k 0 0 es x h)
      ∙ block_if (row_matches lower (search_key lower location word) (result_div x))
      ∙ ap (λ q. row_matches lower q (result_div x)) (search_key_lem lower location word)
      ∙ row_matches-entry lower lowers x (name x) (search_word lower location word) own.0 own.1 wide

  found_at :
      (k : ℕ) (o : Option Way)
      → EndsAt doc (item_id k) o
      → ((o ≡ none) × (length es ≤ k))
        ⊎ ((x : Entry) × (o ≡ some (k ∷ 0 ∷ 0 ∷ [])) × (get_elem? es k ≡ some x) × (test x ≡ true))
  found_at k none ends = elim (dec_le (length es) k) [
    | yes behind ↦ inl (refl, behind)
    | no within ↦
        let (x, at) = get_elem-some es k (omega (arith, within)) in
        absurd (cc (ends, lookup-item k x at))
  ]
  found_at k (some w) ends = elim (dec_le (length es) k) [
    | yes behind ↦ absurd (cc (ends.0, lookup-none k behind))
    | no within ↦
        let (x, at) = get_elem-some es k (omega (arith, within)) in
        let way : w ≡ k ∷ 0 ∷ 0 ∷ [] = cc (ends.0, lookup-item k x at) in
        inr (
          x,
          ap (λ v. some v) way,
          at,
          sym (visible-item k x at) ∙ ap (is_visible doc) (sym way) ∙ ends.1,
        )
  ]

  skipped_at :
      (k : ℕ)
      → IsHidden doc (item_id k)
      → (x : Entry) × (get_elem? es k ≡ some x) × (test x ≡ false)
  skipped_at k (w, there, hidden) = elim (dec_le (length es) k) [
    | yes behind ↦ absurd (cc (there, lookup-none k behind))
    | no within ↦
        let (x, at) = get_elem-some es k (omega (arith, within)) in
        let way : w ≡ k ∷ 0 ∷ 0 ∷ [] = cc (there, lookup-item k x at) in
        (x, at, sym (visible-item k x at) ∙ ap (is_visible doc) (sym way) ∙ hidden)
  ]

  -- On the page that `createResults` builds, after a search, `NavNext` returns the link of the first
  -- entry from the index on whose name starts with the word, and null if there is none. The names are
  -- ASCII and the identifiers of the entries are made of them, `toLowerCase` does on ASCII text what
  -- the standard says, and the word is of 16-bit code units.
  pub nav_next-FirstMatch :
      (i : ℕ)
      → (o : Option Way) × (nav_next
            (Filter.search lower location word (new_page (create_results es))).results
            i
          ≡ returns o)
        × FirstMatch (λ x. is_prefix (search_word lower location word) (name x)) es i o
  unfolding doc test
  nav_next-FirstMatch i =
      let (o, runs, first) = nav_next_lem doc i in
      (
        o,
        runs,
        record {
          stop = first.stop;
          forward = first.forward;
          found = found_at first.stop o first.ends;
          skipped = λ k lo hi. skipped_at k (first.hidden k lo hi);
        },
      )
