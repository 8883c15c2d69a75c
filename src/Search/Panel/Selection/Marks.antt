-- ===== src/Search/Panel/Selection/Marks.antt =====
-- What the selection window shows as chosen, and what the key Down does at its last item.
use hex_fiend.Prelude.{
  ℕ, zero, suc, ◌+◌, ◌<◌, true, false, List, [], ◌∷◌, none, some, ltb, ◌==◌, if◌then◌else◌, Str,
  str_eq, length, get_elem?, ◌≡◌, refl, arith, ap, ◌∙◌, sym, subst, Bool-cases, inl, inr,
}
use hex_fiend.Prelude.Outcome.{throws}
use hex_fiend.Search.Spaces.{strip_all}
use hex_fiend.Search.Sections.{Sections}
use hex_fiend.Search.Panel.{Layout, Panel, Item}
use hex_fiend.Search.Panel.Query.{Strings, search}
use hex_fiend.Search.Panel.Selection.{
  is_select_item, count_items, select_item_count, set_marks, select_item_set, bullet,
  no_break_space, on_select_item, on_search_select_key,
}

-- The marks of the items of class SelectItem, and the other children of the window.
unfoldable pub marks : List Item → List Str
marks [] = []
marks (i ∷ more) = let rest = marks more in if is_select_item i then i.mark ∷ rest else rest

unfoldable pub other_items : List Item → List Item
other_items [] = []
other_items (i ∷ more) = let rest = other_items more in if is_select_item i then rest else i ∷ rest

mark_for : ℕ → ℕ → Str
mark_for id j = if j == id then bullet else no_break_space

is_select_item-mark :
    (i : Item) (m : Str) → is_select_item (record i { mark = m }) ≡ is_select_item i
unfolding is_select_item
is_select_item-mark i m = refl

fewer :
    {n : ℕ}
    → (i : Item) (more : List Item) → is_select_item i ≡ false
    → n < length (marks (i ∷ more))
    → n < length (marks more)
unfolding marks
fewer i more e h = ground (arith, e)

one_less :
    {n : ℕ}
    → (i : Item) (more : List Item) → is_select_item i ≡ true
    → suc n < length (marks (i ∷ more))
    → n < length (marks more)
unfolding marks
one_less i more e h = ground (arith, e)

marks-set_marks :
    (id j k : ℕ) (items : List Item)
    → k < length (marks items)
    → get_elem? (marks (set_marks id j items)) k ≡ some (mark_for id (j + k))
unfolding mark_for marks set_marks
marks-set_marks id j k [] h = absurd (omega arith)
marks-set_marks id j zero (i ∷ more) h = elim (Bool-cases (is_select_item i)) [
  | inl e ↦
      rw (e, set_marks, marks, is_select_item-mark, e)
        (ap (λ n. some (mark_for id n)) (omega arith))
  | inr e ↦ rw (e, set_marks, marks, e) (marks-set_marks id j zero more (fewer i more e h))
]
marks-set_marks id j (suc k) (i ∷ more) h = elim (Bool-cases (is_select_item i)) [
  | inl e ↦
      rw (e, set_marks, marks, is_select_item-mark, e)
        (marks-set_marks id (suc j) k more (one_less i more e h)
          ∙ ap (λ n. some (mark_for id n)) (omega arith))
  | inr e ↦ rw (e, set_marks, marks, e) (marks-set_marks id j (suc k) more (fewer i more e h))
]

length-set_marks :
    (id j : ℕ) (items : List Item) → length (marks (set_marks id j items)) ≡ length (marks items)
unfolding marks set_marks
length-set_marks id j [] = refl
length-set_marks id j (i ∷ more) = elim (Bool-cases (is_select_item i)) [
  | inl e ↦
      rw (e, set_marks, marks, is_select_item-mark, e) (ap suc (length-set_marks id (suc j) more))
  | inr e ↦ rw (e, set_marks, marks, e) (length-set_marks id j more)
]

others-set_marks :
    (id j : ℕ) (items : List Item) → other_items (set_marks id j items) ≡ other_items items
unfolding other_items set_marks
others-set_marks id j [] = refl
others-set_marks id j (i ∷ more) = elim (Bool-cases (is_select_item i)) [
  | inl e ↦
      rw (e, set_marks, other_items, is_select_item-mark, e) (others-set_marks id (suc j) more)
  | inr e ↦ rw (e, set_marks, other_items, e) (ap (i ∷◌) (others-set_marks id j more))
]

count_items_lem : (n : ℕ) (items : List Item) → count_items n items ≡ n + length (marks items)
unfolding count_items marks
count_items_lem n [] = omega arith
count_items_lem n (i ∷ more) =
    ground (arith, count_items_lem (if is_select_item i then suc n else n) more)

count_items-marks : (items : List Item) → count_items 0 items ≡ length (marks items)
count_items-marks items = count_items_lem 0 items ∙ omega arith

-- Of the sections in the selection window exactly the chosen one is marked, and nothing else in the
-- window changes; `SelectItemCount` counts the sections.
pub select_item_set_lem :
    (id : ℕ) (p : Panel)
    → let q = select_item_set id p in
      ((k : ℕ)
        → k < select_item_count p
        → get_elem? (marks q.items) k ≡ some (if k == id then bullet else no_break_space))
      × (select_item_count q ≡ select_item_count p)
      × (length (marks q.items) ≡ select_item_count q)
      × (other_items q.items ≡ other_items p.items)
unfolding mark_for select_item_set select_item_count
select_item_set_lem id p = (
  λ k h.
      marks-set_marks id 0 k p.items (subst (λ n. k < n) (count_items-marks p.items) h)
      ∙ ap (λ n. some (mark_for id n)) (omega arith),
  count_items-marks (set_marks id 0 p.items)
      ∙ length-set_marks id 0 p.items
      ∙ sym (count_items-marks p.items),
  sym (count_items-marks (set_marks id 0 p.items)),
  others-set_marks id 0 p.items,
)

-- The key Down goes past the last section. Where the table has as many sections as the window has
-- items, and a word stands in the active search field, the handler throws at the last item.
pub down_throws :
    (js : Strings) (table : Sections) (lay : Layout) (p : Panel)
    → suc p.search_index ≡ select_item_count p
    → get_elem? table.with_content (select_item_count p) ≡ none
    → str_eq (strip_all p.field_value) [] ≡ false
    → p.search_active ≡ true
    → on_search_select_key js table lay 40 p ≡ throws
unfolding on_search_select_key on_select_item select_item_set search
down_throws js table lay p last missing word active =
    let more : ltb p.search_index (select_item_count p) ≡ true = ground arith in
    let none' : get_elem? table.with_content (suc p.search_index) ≡ none =
      subst (λ n. get_elem? table.with_content n ≡ none) (sym last) missing in
    rw (more, word, active, search, none') refl
