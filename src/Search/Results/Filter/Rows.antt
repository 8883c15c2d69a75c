-- ===== src/Search/Results/Filter/Rows.antt =====
-- What a search leaves on any page: which rows are shown, and how many.
use hex_fiend.Prelude.{
  ℕ, suc, ◌+◌, Bool, true, false, not, ◌&&◌, List, [], ◌∷◌, ◌++◌, if◌then◌else◌, Str, codes, str_eq,
  ◌≡◌, refl, arith, ap, ap₂, sym, length, map, Bool-cases, inl, inr, ◌∙◌, ◌==◌,
}
use hex_fiend.Search.Dom.{Elem, Nodes, nil, node}
use hex_fiend.Search.Results.{Page}
use hex_fiend.Search.Results.Filter.{
  is_row, row_matches, visit_row, filter_rows, search_key, search,
}

-- The elements in document order.
unfoldable pub elements : Nodes → List Elem
elements nil = []
elements (node e kids rest) = e ∷ elements kids ++ elements rest

pub select : (Elem → Bool) → List Elem → List Elem
select p [] = []
select p (e ∷ es) = let more = select p es in if p e then e ∷ more else more

pub select-append :
    (p : Elem → Bool) (xs ys : List Elem) → select p (xs ++ ys) ≡ select p xs ++ select p ys
unfolding select
select-append p [] ys = refl
select-append p (x ∷ xs) ys = ground (arith, select-append p xs ys)

-- The rows of the page, in document order.
unfoldable pub rows : Nodes → List Elem
unfolding elements select
rows ns = select is_row (elements ns)

-- Those among them that are shown.
unfoldable pub shown : List Elem → List Elem
unfolding select
shown es = select (λ e. str_eq e.display (codes "block")) es

-- The elements that are no rows.
unfoldable pub others : Nodes → List Elem
unfolding elements select
others ns = select (λ e. not (is_row e)) (elements ns)

abbrev pub shown_if : Bool → Elem → Elem
shown_if b e = record e { display = if b then codes "block" else codes "none" }

map-append_lem {ℓ κ} :
    {A : Type ℓ} {B : Type κ} (f : A → B) (xs ys : List A) → map f (xs ++ ys) ≡ map f xs ++ map f ys
map-append_lem f [] ys = refl
map-append_lem f (x ∷ xs) ys = ap (f x ∷◌) (map-append_lem f xs ys)

module _ (lower : Str → Str) (key : Str) where
  -- What the loop makes of one element, and what it counts.
  restyle : Elem → Elem
  restyle e = if is_row e then shown_if (row_matches lower key e) e else e

  is_hit : Elem → Bool
  is_hit e = is_row e && row_matches lower key e

  hits : List Elem → ℕ
  hits [] = 0
  hits (e ∷ es) = let more = hits es in if is_hit e then suc more else more

  hits-append : (xs ys : List Elem) → hits (xs ++ ys) ≡ hits xs + hits ys
  unfolding hits
  hits-append [] ys = omega arith
  hits-append (x ∷ xs) ys = ground (arith, hits-append xs ys)

  visit_row_lem :
      (e : Elem) (m : ℕ) → visit_row lower key e m ≡ (restyle e, m + (if is_hit e then 1 else 0))
  unfolding visit_row restyle is_hit
  visit_row_lem e m = elim (Bool-cases (is_row e)) [
    | inl row ↦ elim (Bool-cases (row_matches lower key e)) [
      | inl yes_ ↦ rw (row, yes_) (ground arith)
      | inr no_ ↦ rw (row, no_) (ground arith)
    ]
    | inr other ↦ rw other (ground arith)
  ]

  -- The loop, on the elements in document order.
  filter_rows_lem :
      (ns : Nodes) (m : ℕ)
      → (elements (filter_rows lower key ns m).0 ≡ map restyle (elements ns))
        × ((filter_rows lower key ns m).1 ≡ m + hits (elements ns))
  unfolding elements filter_rows hits
  filter_rows_lem nil m = (refl, omega arith)
  filter_rows_lem (node e kids rest) m =
      let m1 = m + (if is_hit e then 1 else 0) in
      let k = filter_rows_lem kids m1 in
      let r = filter_rows_lem rest (filter_rows lower key kids m1).1 in
      rw (visit_row_lem e m) (
        ap (restyle e ∷◌)
            (ap₂ ◌++◌ k.0 r.0 ∙ sym (map-append_lem restyle (elements kids) (elements rest))),
        ground (arith, k.1, r.1, hits-append (elements kids) (elements rest)),
      )

  is_row-restyle : (e : Elem) → is_row (restyle e) ≡ is_row e
  unfolding restyle is_row
  is_row-restyle e = ground arith

  restyle-row : (e : Elem) → is_row e ≡ true → restyle e ≡ shown_if (row_matches lower key e) e
  unfolding restyle
  restyle-row e h = rw h

  restyle-other : (e : Elem) → is_row e ≡ false → restyle e ≡ e
  unfolding restyle
  restyle-other e h = rw h

  styled : Elem → Elem
  styled r = shown_if (row_matches lower key r) r

  select-rows : (es : List Elem) → select is_row (map restyle es) ≡ map styled (select is_row es)
  unfolding select styled
  select-rows [] = refl
  select-rows (e ∷ es) = elim (Bool-cases (is_row e)) [
    | inl row ↦ rw (is_row-restyle e, row) (ap₂ ◌∷◌ (restyle-row e row) (select-rows es))
    | inr other ↦ rw (is_row-restyle e, other) (select-rows es)
  ]

  select-others :
      (es : List Elem)
      → select (λ e. not (is_row e)) (map restyle es) ≡ select (λ e. not (is_row e)) es
  unfolding select
  select-others [] = refl
  select-others (e ∷ es) = elim (Bool-cases (is_row e)) [
    | inl row ↦ rw (is_row-restyle e, row) (select-others es)
    | inr other ↦ rw (is_row-restyle e, other) (ap₂ ◌∷◌ (restyle-other e other) (select-others es))
  ]

  length-shown : (es : List Elem) → length (shown (map styled (select is_row es))) ≡ hits es
  unfolding shown select hits styled is_hit str_eq
  length-shown [] = refl
  length-shown (e ∷ es) = elim (Bool-cases (is_row e)) [
    | inl row ↦ elim (Bool-cases (row_matches lower key e)) [
      | inl match ↦ rw (row, match) (ap suc (length-shown es))
      | inr differs ↦ rw (row, differs) (length-shown es)
    ]
    | inr other ↦ rw other (length-shown es)
  ]

-- A search shows the rows that match and hides the others, in place: every other element is as it
-- was. It counts the rows that are shown, and says that there are none exactly if that is so.
pub rows-search :
    (lower : Str → Str) (location word : Str) (page : Page)
    → let after = search lower location word page in
      let key = search_key lower location word in
      (rows after.results ≡ map (λ r. shown_if (row_matches lower key r) r) (rows page.results))
      × (others after.results ≡ others page.results)
      × (after.last_match_count ≡ length (shown (rows after.results)))
      × (after.no_matches
          ≡ (if length (shown (rows after.results)) == 0 then codes "block" else codes "none"))
unfolding search rows others styled
rows-search lower location word page =
    let key = search_key lower location word in
    let es = elements page.results in
    let (els, count) = filter_rows_lem lower key page.results 0 in
    let left : rows (filter_rows lower key page.results 0).0
        ≡ map (styled lower key) (select is_row es) =
      ap (select is_row) els ∙ select-rows lower key es in
    let shown_count : (filter_rows lower key page.results 0).1
        ≡ length (shown (rows (filter_rows lower key page.results 0).0)) =
      rw left (omega (arith, count, length-shown lower key es)) in
    (
      left,
      ap (select (λ e. not (is_row e))) els ∙ select-others lower key es,
      shown_count,
      ap (λ (n : ℕ). if n == 0 then codes "block" else codes "none") shown_count,
    )
