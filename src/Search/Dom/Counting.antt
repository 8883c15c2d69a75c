-- ===== src/Search/Dom/Counting.antt =====
-- Of a family of different identifiers, a document has no more than it has elements.
use native.Mathlib.Decide.{dec_le}
use hex_fiend.Prelude.{
  ℕ, zero, suc, ◌+◌, ◌≤◌, ◌<◌, [], ◌∷◌, some, if◌then◌else◌, Str, str_eq, str_eq_iff, ◌≡◌, refl,
  arith, Bool-cases, Option-cases, inl, inr, ◌∙◌, sym,
}
use hex_fiend.Search.Dom.{
  Elem, Nodes, nil, node, Way, size, id_of, element_with_id, get_element_by_id,
}

-- How many elements have the identifier.
count_id : Str → Nodes → ℕ
count_id id nil = 0
count_id id (node e kids rest) =
    (if str_eq (id_of e) id then 1 else 0) + count_id id kids + count_id id rest

count_id-element_with_id :
    (id : Str) (ns : Nodes) {w : Way} → element_with_id ns id ≡ some w → 0 < count_id id ns
unfolding element_with_id count_id
count_id-element_with_id id nil h = absurd (cc)
count_id-element_with_id id (node e kids rest) {w} h = elim (Bool-cases (str_eq (id_of e) id)) [
  | inl same ↦ rw same (omega arith)
  | inr other ↦ elim (Option-cases (element_with_id kids id)) [
    | inl nowhere ↦ elim (Option-cases (element_with_id rest id)) [
      | inl gone ↦ absurd (ground (arith, other, nowhere, gone))
      | inr (w', found) ↦ omega (arith, count_id-element_with_id id rest found)
    ]
    | inr (w', found) ↦ omega (arith, count_id-element_with_id id kids found)
  ]
]

-- An element that is found is counted.
count_id-found :
    (id : Str) (ns : Nodes) {w : Way} → get_element_by_id ns id ≡ some w → 0 < count_id id ns
unfolding get_element_by_id
count_id-found [] ns h = absurd (cc)
count_id-found (c ∷ id) ns h = count_id-element_with_id (c ∷ id) ns h

module _ (name : ℕ → Str) where
  -- How many elements have one of the names from an index on, for so many indices.
  named : ℕ → ℕ → Nodes → ℕ
  named zero i ns = 0
  named (suc n) i ns = count_id (name i) ns + named n (suc i) ns

  -- How many of these names an element has.
  own : ℕ → ℕ → Elem → ℕ
  own zero i e = 0
  own (suc n) i e = (if str_eq (id_of e) (name i) then 1 else 0) + own n (suc i) e

  named-node :
      (n i : ℕ) (e : Elem) (kids rest : Nodes)
      → named n i (node e kids rest) ≡ own n i e + named n i kids + named n i rest
  unfolding named own count_id
  named-node zero i e kids rest = omega arith
  named-node (suc n) i e kids rest = omega (arith, named-node n (suc i) e kids rest)

  named-nil : (n i : ℕ) → named n i nil ≡ 0
  unfolding named count_id
  named-nil zero i = refl
  named-nil (suc n) i = omega (arith, named-nil n (suc i))

  module _ (injective : (i j : ℕ) → name i ≡ name j → i ≡ j) where
    -- An element has one of the names at most.
    own-zero : (n i : ℕ) (e : Elem) {j : ℕ} → j < i → id_of e ≡ name j → own n i e ≡ 0
    unfolding own
    own-zero zero i e h same = refl
    own-zero (suc n) i e {j} h same = elim (Bool-cases (str_eq (id_of e) (name i))) [
      | inl hit ↦
          absurd (omega (arith, injective i j (sym ((str_eq_iff (id_of e) (name i)).0 hit) ∙ same)))
      | inr other ↦ rw other (omega (arith, own-zero n (suc i) e {j = j} (omega arith) same))
    ]

    own-le : (n i : ℕ) (e : Elem) → own n i e ≤ 1
    unfolding own
    own-le zero i e = omega arith
    own-le (suc n) i e = elim (Bool-cases (str_eq (id_of e) (name i))) [
      | inl same ↦ rw same (
          omega (
            arith,
            own-zero n (suc i) e {j = i} (omega arith) ((str_eq_iff (id_of e) (name i)).0 same),
          ))
      | inr other ↦ rw other (omega (arith, own-le n (suc i) e))
    ]

    named-le-size : (n i : ℕ) (ns : Nodes) → named n i ns ≤ size ns
    unfolding size
    named-le-size n i nil = omega (arith, named-nil n i)
    named-le-size n i (node e kids rest) = omega (
      arith,
      named-node n i e kids rest,
      own-le n i e,
      named-le-size n i kids,
      named-le-size n i rest,
    )

-- The names from the index on are all there, for so many indices.
abbrev pub AllThere : (ℕ → Str) → ℕ → ℕ → Nodes → Type 0
AllThere name n i doc =
    (k : ℕ) → i ≤ k → k < i + n → (w : Way) × (get_element_by_id doc (name k) ≡ some w)

pub one_more :
    (name : ℕ → Str) (fuel : ℕ) (doc : Nodes) (i : ℕ) {w : Way}
    → get_element_by_id doc (name i) ≡ some w
    → AllThere name fuel (suc i) doc
    → AllThere name (suc fuel) i doc
one_more name fuel doc i {w} found full k lo hi = elim (dec_le (suc i) k) [
  | yes above ↦ full k above (omega arith)
  | no below ↦ let same : k ≡ i = omega arith in rw same (w, found)
]

named-AllThere :
    (name : ℕ → Str) (n i : ℕ) (doc : Nodes) → AllThere name n i doc → n ≤ named name n i doc
unfolding named
named-AllThere name zero i doc h = omega arith
named-AllThere name (suc n) i doc h =
    let (w, found) = h i (omega arith) (omega arith) in
    omega (
      arith,
      count_id-found (name i) doc found,
      named-AllThere name n (suc i) doc (λ k lo hi. h k (omega arith) (omega arith)),
    )

-- More names than elements are never all there.
pub not_AllThere :
    (name : ℕ → Str)
    → ((i j : ℕ) → name i ≡ name j → i ≡ j)
    → (i : ℕ) (doc : Nodes) → AllThere name (suc (size doc)) i doc
    → ⊥
not_AllThere name injective i doc h = omega (
  arith,
  named-le-size name injective (suc (size doc)) i doc,
  named-AllThere name (suc (size doc)) i doc h,
)
