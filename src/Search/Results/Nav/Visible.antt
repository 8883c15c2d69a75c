-- ===== src/Search/Results/Nav/Visible.antt =====
-- The loops of `NavNext` and `NavPrev` end, at the nearest visible item on their way.
use native.Mathlib.Decide.{dec_le}
use hex_fiend.Prelude.{
  ℕ, zero, suc, ◌+◌, ◌≤◌, ◌<◌, true, false, ◌++◌, Option, none, some, Str, codes, ◌≡◌, refl, arith,
  Bool-cases, Option-cases, inl, inr, ◌∙◌, ap, ◌⊎◌, drop,
}
use hex_fiend.Prelude.Digits.{to_string-injective}
use hex_fiend.Prelude.Int.{
  ℤ, pos_part, neg_part, pred_ℤ, pred_ℤ_lem, int_string, int_string-injective,
}
use hex_fiend.Prelude.Outcome.{Outcome, returns, out_of_fuel}
use hex_fiend.Search.Dom.{Nodes, Way, size, get_element_by_id}
use hex_fiend.Search.Dom.Counting.{AllThere, one_more, not_AllThere}
use hex_fiend.Search.Results.{item_id}
use hex_fiend.Search.Results.Nav.{is_visible, nav_next_from, nav_next, nav_prev_from, nav_prev}

-- There is an element of that identifier, and it is not shown.
abbrev pub IsHidden : Nodes → Str → Type 0
IsHidden doc id = (w : Way) × (get_element_by_id doc id ≡ some w) × (is_visible doc w ≡ false)

-- What ends a search among the items.
abbrev pub EndsAt : Nodes → Str → Option Way → Type 0
EndsAt doc id none = get_element_by_id doc id ≡ none
EndsAt doc id (some w) = (get_element_by_id doc id ≡ some w) × (is_visible doc w ≡ true)

-- A search through the names from an index on ends at the first that is shown or not there.
pub record FirstVisible (name : ℕ → Str) (doc : Nodes) (i : ℕ) (o : Option Way) : Type 0 where
  pub stop : ℕ
  pub forward : i ≤ stop
  pub ends : EndsAt doc (name stop) o
  pub hidden : (k : ℕ) → i ≤ k → k < stop → IsHidden doc (name k)

module _ (name : ℕ → Str) where
  -- The loop that `NavNext` and `NavPrev` have in common.
  find_visible : ℕ → Nodes → ℕ → Outcome (Option Way)
  find_visible zero doc i = out_of_fuel
  find_visible (suc fuel) doc i = elim (get_element_by_id doc (name i)) [
    | none ↦ returns none
    | some w ↦ elim (is_visible doc w) [
      | true ↦ returns (some w)
      | false ↦ find_visible fuel doc (suc i)
    ]
  ]

  stop_here :
      (doc : Nodes) (i : ℕ) (o : Option Way) → EndsAt doc (name i) o → FirstVisible name doc i o
  stop_here doc i o e = record {
    stop = i;
    forward = omega arith;
    ends = e;
    hidden = λ k lo hi. absurd (omega arith);
  }

  later :
      (doc : Nodes) (i : ℕ) (o : Option Way)
      → IsHidden doc (name i)
      → FirstVisible name doc (suc i) o
      → FirstVisible name doc i o
  later doc i o here n = record {
    stop = n.stop;
    forward = omega (arith, n.forward);
    ends = n.ends;
    hidden = λ k lo hi. elim (dec_le (suc i) k) [
      | yes above ↦ n.hidden k above hi
      | no below ↦ let same : k ≡ i = omega arith in rw same here
    ];
  }

  -- Either all the names that the fuel reaches are there, or the loop ends as it should.
  find_visible_lem :
      (fuel : ℕ) (doc : Nodes) (i : ℕ)
      → AllThere name fuel i doc
        ⊎ ((o : Option Way) × (find_visible fuel doc i ≡ returns o) × FirstVisible name doc i o)
  unfolding find_visible
  find_visible_lem zero doc i = inl (λ k lo hi. absurd (omega arith))
  find_visible_lem (suc fuel) doc i = elim (Option-cases (get_element_by_id doc (name i))) [
    | inl gone ↦ inr (none, rw (gone, find_visible), stop_here doc i none gone)
    | inr (w, found) ↦ elim (Bool-cases (is_visible doc w)) [
      | inl shown ↦
          inr (some w, rw (found, shown, find_visible), stop_here doc i (some w) (found, shown))
      | inr hidden ↦ elim (find_visible_lem fuel doc (suc i)) [
        | inl full ↦ inl (one_more name fuel doc i found full)
        | inr (o, e, n) ↦
            inr (o, rw (found, hidden, find_visible) e, later doc i o (w, found, hidden) n)
      ]
    ]
  ]

  find_visible_total :
      ((i j : ℕ) → name i ≡ name j → i ≡ j)
      → (doc : Nodes) (i : ℕ)
      → (o : Option Way) × (find_visible (suc (size doc)) doc i ≡ returns o)
        × FirstVisible name doc i o
  find_visible_total injective doc i = elim (find_visible_lem (suc (size doc)) doc i) [
    | inl full ↦ absurd (not_AllThere name injective i doc full)
    | inr result ↦ result
  ]

nav_next_from-find_visible :
    (fuel : ℕ) (doc : Nodes) (i : ℕ) → nav_next_from fuel doc i ≡ find_visible item_id fuel doc i
unfolding nav_next_from find_visible
nav_next_from-find_visible zero doc i = refl
nav_next_from-find_visible (suc fuel) doc i =
    elim (Option-cases (get_element_by_id doc (item_id i))) [
      | inl gone ↦ rw (gone, nav_next_from, find_visible) refl
      | inr (w, found) ↦ elim (Bool-cases (is_visible doc w)) [
        | inl shown ↦ rw (found, shown, nav_next_from, find_visible) refl
        | inr hidden ↦
            rw (found, hidden, nav_next_from, find_visible)
              (nav_next_from-find_visible fuel doc (suc i))
      ]
    ]

item_id-injective : (i j : ℕ) → item_id i ≡ item_id j → i ≡ j
item_id-injective i j e = to_string-injective 10 i j (omega arith) (omega arith) (ap (drop 4) e)

-- `NavNext` ends on every document, and returns the first item from the index on that is visible;
-- it returns null where it meets a missing item first. All the items in front are hidden.
pub nav_next_lem :
    (doc : Nodes) (i : ℕ)
    → (o : Option Way) × (nav_next doc i ≡ returns o) × FirstVisible item_id doc i o
unfolding nav_next
nav_next_lem doc i =
    let (o, e, n) = find_visible_total item_id item_id-injective doc i in
    (o, nav_next_from-find_visible (suc (size doc)) doc i ∙ e, n)

-- The index so many steps back.
abbrev pub steps_back : ℤ → ℕ → ℤ
steps_back z zero = z
steps_back z (suc k) = pred_ℤ (steps_back z k)

-- The identifier of the item so many steps back.
abbrev pub id_back : ℤ → ℕ → Str
id_back z k = codes "Item" ++ int_string (steps_back z k)

nav_prev_from-find_visible :
    (fuel : ℕ) (doc : Nodes) (z : ℤ) (k : ℕ)
    → nav_prev_from fuel doc (steps_back z k) ≡ find_visible (id_back z) fuel doc k
unfolding nav_prev_from find_visible
nav_prev_from-find_visible zero doc z k = refl
nav_prev_from-find_visible (suc fuel) doc z k =
    elim (Option-cases (get_element_by_id doc (id_back z k))) [
      | inl gone ↦ rw (gone, nav_prev_from, find_visible) refl
      | inr (w, found) ↦ elim (Bool-cases (is_visible doc w)) [
        | inl shown ↦ rw (found, shown, nav_prev_from, find_visible) refl
        | inr hidden ↦
            rw (found, hidden, nav_prev_from, find_visible)
              (nav_prev_from-find_visible fuel doc z (suc k))
      ]
    ]

steps_back_lem :
    (z : ℤ) (k : ℕ)
    → pos_part (steps_back z k) + neg_part z + k ≡ neg_part (steps_back z k) + pos_part z
steps_back_lem z zero = omega arith
steps_back_lem z (suc k) = omega (arith, pred_ℤ_lem (steps_back z k), steps_back_lem z k)

steps_back-injective : (z : ℤ) (i j : ℕ) → steps_back z i ≡ steps_back z j → i ≡ j
steps_back-injective z i j e =
    omega (arith, steps_back_lem z i, steps_back_lem z j, ap pos_part e, ap neg_part e)

id_back-injective : (z : ℤ) (i j : ℕ) → id_back z i ≡ id_back z j → i ≡ j
id_back-injective z i j e =
    steps_back-injective z i j
      (int_string-injective (steps_back z i) (steps_back z j) (ap (drop 4) e))

-- `NavPrev` ends on every document, and returns the first visible item from the index on downwards;
-- it returns null where it meets a missing item first. All the items that it passes are hidden.
pub nav_prev_lem :
    (doc : Nodes) (z : ℤ)
    → (o : Option Way) × (nav_prev doc z ≡ returns o) × FirstVisible (id_back z) doc 0 o
unfolding nav_prev
nav_prev_lem doc z =
    let (o, e, n) = find_visible_total (id_back z) (id_back-injective z) doc 0 in
    (o, nav_prev_from-find_visible (suc (size doc)) doc z 0 ∙ e, n)
