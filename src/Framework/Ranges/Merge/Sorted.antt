-- ===== src/Framework/Ranges/Merge/Sorted.antt =====
-- `qsort` with `hfrange_compare` of framework/sources/HFFunctions.m.
use Prim.Native.Nat.{Ordering}
use hex_fiend.Prelude.{
  ℕ, ◌≤◌, Bool, false, ◌||◌, List, [], ◌∷◌, ◌≡◌, refl, arith, All, ◌∙◌, ap, sym, subst, ◌⊎◌, inl,
  inr,
}
use hex_fiend.Framework.Ranges.{HfRange, hf_location_in_range}
use hex_fiend.Framework.Ranges.Merge.{hfrange_compare, insert, qsort}

-- No range of the list starts in front of an earlier one.
abbrev pub IsSorted : List HfRange → Type 0
IsSorted [] = Unit
IsSorted (r ∷ rs) = All (λ s. r.location ≤ s.location) rs × IsSorted rs

-- A location is in one of the ranges.
unfoldable pub in_any : ℕ → List HfRange → Bool
in_any x [] = false
in_any x (r ∷ rs) = hf_location_in_range x r || in_any x rs

Ordering-cases : (o : Ordering) → (o ≡ Ordering.gt) ⊎ ((o ≡ Ordering.lt) ⊎ (o ≡ Ordering.eq))
Ordering-cases Ordering.lt = inr (inl refl)
Ordering-cases Ordering.eq = inr (inr refl)
Ordering-cases Ordering.gt = inl refl

compare-greater : (r s : HfRange) → hfrange_compare r s ≡ Ordering.gt → s.location ≤ r.location
unfolding hfrange_compare
compare-greater r s h = ground (arith, h)

compare-less : (r s : HfRange) → hfrange_compare r s ≡ Ordering.lt → r.location ≤ s.location
unfolding hfrange_compare
compare-less r s h = ground (arith, h)

compare-equal : (r s : HfRange) → hfrange_compare r s ≡ Ordering.eq → r.location ≤ s.location
unfolding hfrange_compare
compare-equal r s h = ground (arith, h)

-- The range goes in front of the first one that does not start in front of it.
insert_cases :
    (r s : HfRange) (ss : List HfRange)
    → ((s.location ≤ r.location) × (insert r (s ∷ ss) ≡ s ∷ insert r ss))
      ⊎ ((r.location ≤ s.location) × (insert r (s ∷ ss) ≡ r ∷ s ∷ ss))
unfolding insert
insert_cases r s ss = elim (Ordering-cases (hfrange_compare r s)) [
  | inl gt ↦ inl (compare-greater r s gt, rw (gt, insert) refl)
  | inr (inl lt) ↦ inr (compare-less r s lt, rw (lt, insert) refl)
  | inr (inr eq) ↦ inr (compare-equal r s eq, rw (eq, insert) refl)
]

insert-All {ℓ} :
    (P : HfRange → Type ℓ) (r : HfRange) (ss : List HfRange) → P r → All P ss → All P (insert r ss)
unfolding insert
insert-All P r [] h k = (h, tt)
insert-All P r (s ∷ ss) h k = elim (insert_cases r s ss) [
  | inl (_, e) ↦ subst (All P) (sym e) (k.0, insert-All P r ss h k.1)
  | inr (_, e) ↦ subst (All P) (sym e) (h, k)
]

insert-in_any :
    (x : ℕ) (r : HfRange) (ss : List HfRange)
    → in_any x (insert r ss) ≡ (hf_location_in_range x r || in_any x ss)
unfolding insert in_any
insert-in_any x r [] = refl
insert-in_any x r (s ∷ ss) = elim (insert_cases r s ss) [
  | inl (_, e) ↦ ap (in_any x) e ∙ ground (arith, insert-in_any x r ss)
  | inr (_, e) ↦ ap (in_any x) e
]

All-weaken :
    (a b : ℕ) (ss : List HfRange)
    → a ≤ b
    → All (λ s. b ≤ s.location) ss
    → All (λ s. a ≤ s.location) ss
All-weaken a b [] h k = tt
All-weaken a b (s ∷ ss) h k = (omega (arith, h, k.0), All-weaken a b ss h k.1)

insert-IsSorted : (r : HfRange) (ss : List HfRange) → IsSorted ss → IsSorted (insert r ss)
unfolding insert
insert-IsSorted r [] h = (tt, tt)
insert-IsSorted r (s ∷ ss) h = elim (insert_cases r s ss) [
  | inl (le, e) ↦
      subst IsSorted (sym e)
        (insert-All (λ t. s.location ≤ t.location) r ss le h.0, insert-IsSorted r ss h.1)
  | inr (le, e) ↦ subst IsSorted (sym e) ((le, All-weaken r.location s.location ss le h.0), h)
]

pub qsort-IsSorted : (rs : List HfRange) → IsSorted (qsort rs)
unfolding qsort
qsort-IsSorted [] = tt
qsort-IsSorted (r ∷ rs) = insert-IsSorted r (qsort rs) (qsort-IsSorted rs)

pub qsort-All {ℓ} : (P : HfRange → Type ℓ) (rs : List HfRange) → All P rs → All P (qsort rs)
unfolding qsort
qsort-All P [] h = tt
qsort-All P (r ∷ rs) h = insert-All P r (qsort rs) h.0 (qsort-All P rs h.1)

pub qsort-in_any : (x : ℕ) (rs : List HfRange) → in_any x (qsort rs) ≡ in_any x rs
unfolding qsort in_any
qsort-in_any x [] = refl
qsort-in_any x (r ∷ rs) =
    insert-in_any x r (qsort rs) ∙ ap (λ b. hf_location_in_range x r || b) (qsort-in_any x rs)
