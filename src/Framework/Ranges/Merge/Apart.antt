-- ===== src/Framework/Ranges/Merge/Apart.antt =====
-- What `organizeAndMergeRanges:` of framework/sources/HFFunctions.m returns.
use hex_fiend.Prelude.{
  ℕ, ◌+◌, ◌≤◌, ◌<◌, Bool, true, false, ◌||◌, List, [], ◌∷◌, some, ◌==◌, ◌≡◌, refl, arith, All, ap,
  sym, ◌∙◌, inl, inr, Bool-cases, min, max, subst,
}
use hex_fiend.Framework.Word.{IsWord, ◌+w◌, ◌-w◌}
use hex_fiend.Framework.Word.Bounds.{hf_sum_does_not_overflow_iff}
use hex_fiend.Framework.Ranges.{
  HfRange, hf_range_make, hf_location_in_range, hf_intersects_range, touches, hf_union_range,
}
use hex_fiend.Framework.Ranges.Inside.{IsRange}
use hex_fiend.Framework.Ranges.Joined.{
  EndsAtWord, Near, hf_max_range_lem, touches-Near, no_gap, hf_union_range_lem,
}
use hex_fiend.Framework.Ranges.Merge.{merge_loop, merge_sorted, qsort, organize_and_merge_ranges}
use hex_fiend.Framework.Ranges.Merge.Sorted.{
  IsSorted, in_any, qsort-IsSorted, qsort-All, qsort-in_any,
}

-- A range that is not empty and ends at a word.
pub record IsSolid (r : HfRange) : Type 0 where
  pub words : IsRange r
  pub ends : EndsAtWord r
  pub full : 0 < r.length

-- Each range starts after the end of the one in front of it, and is not next to it.
abbrev pub IsApart : List HfRange → Type 0
IsApart [] = Unit
IsApart (r ∷ []) = Unit
IsApart (r ∷ s ∷ more) = (r.location + r.length < s.location) × IsApart (s ∷ more)

is_near : HfRange → HfRange → Bool
is_near lead trail =
    hf_intersects_range lead trail
    || lead.location + lead.length == trail.location
    || trail.location + trail.length == lead.location

touches_lem :
    (lead trail : HfRange)
    → IsSolid lead
    → IsSolid trail
    → touches lead trail ≡ some (is_near lead trail)
unfolding touches is_near
touches_lem lead trail hl ht =
    rw (hf_max_range_lem lead hl.words hl.ends, hf_max_range_lem trail ht.words ht.ends)
      (ground arith)

is_near-Near : (lead trail : HfRange) → is_near lead trail ≡ true → Near lead trail
unfolding is_near
is_near-Near lead trail h = elim (Bool-cases (hf_intersects_range lead trail)) [
  | inl meet ↦ inl meet
  | inr other ↦ inr (elim (Bool-cases (lead.location + lead.length == trail.location)) [
    | inl e ↦ inl (ground (arith, e))
    | inr n ↦ inr (ground (arith, h, other, n))
  ])
]

-- The trailing range ends in front of the leading one.
far_apart :
    (lead trail : HfRange)
    → IsSolid lead
    → IsSolid trail
    → trail.location ≤ lead.location
    → is_near lead trail ≡ false
    → trail.location + trail.length < lead.location
unfolding is_near hf_intersects_range
far_apart lead trail hl ht le h = ground (
  arith, le, h, hl.words.location_word, ht.words.location_word, hl.full, ht.full, hl.ends, ht.ends,
)

-- The union of the two starts where the trailing range does.
union_lem :
    (lead trail : HfRange)
    → IsSolid lead
    → IsSolid trail
    → trail.location ≤ lead.location
    → is_near lead trail ≡ true
    → (u : HfRange) × (hf_union_range lead trail ≡ some u)
      × IsSolid u
      × (u.location ≡ trail.location)
      × ((x : ℕ)
          → IsWord x
          → hf_location_in_range x u
            ≡ (hf_location_in_range x lead || hf_location_in_range x trail))
unfolding hf_union_range
union_lem lead trail hl ht le h =
    let near = is_near-Near lead trail h in
    let fine_l =
      (hf_sum_does_not_overflow_iff lead.location lead.length hl.words.location_word
          hl.words.length_word).1
        hl.ends in
    let fine_t =
      (hf_sum_does_not_overflow_iff trail.location trail.length ht.words.location_word
          ht.words.length_word).1
        ht.ends in
    let (left, right) = no_gap lead trail hl.words ht.words near in
    let u = hf_range_make (min lead.location trail.location) (
      max (lead.location +w lead.length) (trail.location +w trail.length)
      -w min lead.location trail.location) in
    let runs : hf_union_range lead trail ≡ some u =
      rw (touches-Near lead trail hl.words ht.words hl.ends ht.ends near, fine_l, fine_t) refl in
    let (r, e, same) = hf_union_range_lem lead trail hl.words ht.words hl.ends ht.ends near in
    let r_u : r ≡ u = cc (e, runs) in
    (
      u,
      runs,
      record {
        words = record {
          location_word = omega (arith, hl.words.location_word, ht.words.location_word);
          length_word = omega arith;
        };
        ends = omega (arith, le, left, right, hl.ends, ht.ends, hl.full, ht.full);
        full = omega (arith, le, left, right, hl.ends, ht.ends, hl.full, ht.full);
      },
      omega (arith, le),
      subst
          (λ v.
            (x : ℕ)
            → IsWord x
            → hf_location_in_range x v
              ≡ (hf_location_in_range x lead || hf_location_in_range x trail))
          r_u same,
    )

-- What the loop returns.
record IsMerged (rs out : List HfRange) : Type 0 where
  solid : All IsSolid out
  apart : IsApart out
  same : (x : ℕ) → IsWord x → in_any x out ≡ in_any x rs

-- The ranges from the trailing one on are merged, and the first of them starts where it does.
abbrev Loops : HfRange → List HfRange → Type 0
Loops trail rest =
    (o : HfRange) × (more : List HfRange) × (merge_loop trail rest ≡ some (o ∷ more))
    × (o.location ≡ trail.location)
    × IsMerged (trail ∷ rest) (o ∷ more)

joined_step :
    (trail lead : HfRange) (rest : List HfRange)
    → IsSolid trail
    → IsSolid lead
    → trail.location ≤ lead.location
    → is_near lead trail ≡ true
    → ((u : HfRange) → IsSolid u → u.location ≡ trail.location → Loops u rest)
    → Loops trail (lead ∷ rest)
unfolding merge_loop in_any
joined_step trail lead rest ht hl le near loops =
    let (u, runs, solid, start, same) = union_lem lead trail hl ht le near in
    let (o, more, ends, first, merged) = loops u solid start in
    (
      o,
      more,
      rw (touches_lem lead trail hl ht, near, runs) ends,
      first ∙ start,
      record {
        solid = merged.solid;
        apart = merged.apart;
        same = λ x w. merged.same x w ∙ ground (arith, same x w);
      },
    )

apart_step :
    (trail lead : HfRange) (rest : List HfRange)
    → IsSolid trail
    → IsSolid lead
    → trail.location ≤ lead.location
    → is_near lead trail ≡ false
    → Loops lead rest
    → Loops trail (lead ∷ rest)
unfolding merge_loop in_any
apart_step trail lead rest ht hl le far (o, more, ends, first, merged) = (
  trail,
  o ∷ more,
  rw (touches_lem lead trail hl ht, far, ends) refl,
  refl,
  record {
    solid = (ht, merged.solid);
    apart = (omega (arith, first, far_apart lead trail hl ht le far), merged.apart);
    same = λ x w. ap (λ b. hf_location_in_range x trail || b) (merged.same x w);
  },
)

merge_loop-Loops :
    (rest : List HfRange) (trail : HfRange)
    → IsSolid trail
    → All IsSolid rest
    → All (λ s. trail.location ≤ s.location) rest
    → IsSorted rest
    → Loops trail rest
unfolding merge_loop
merge_loop-Loops [] trail ht hr le sorted =
    (trail, [], refl, refl, record { solid = (ht, tt); apart = tt; same = λ x w. refl })
merge_loop-Loops (lead ∷ rest) trail ht hr le sorted = elim (Bool-cases (is_near lead trail)) [
  | inl near ↦ joined_step trail lead rest ht hr.0 le.0 near (λ u solid start.
      merge_loop-Loops rest u solid hr.1
        (subst (λ l. All (λ s. l ≤ s.location) rest) (sym start) le.1) sorted.1)
  | inr far ↦
      apart_step trail lead rest ht hr.0 le.0 far
        (merge_loop-Loops rest lead hr.0 hr.1 sorted.0 sorted.1)
]

merge_sorted_lem :
    (rs : List HfRange)
    → All IsSolid rs
    → IsSorted rs
    → (out : List HfRange) × (merge_sorted rs ≡ some out) × IsMerged rs out
unfolding merge_sorted
merge_sorted_lem [] h sorted = ([], refl, record { solid = tt; apart = tt; same = λ x w. refl })
merge_sorted_lem (r ∷ rs) h sorted =
    let (o, more, runs, _, merged) = merge_loop-Loops rs r h.0 h.1 sorted.0 sorted.1 in
    (o ∷ more, runs, merged)

-- Of ranges that are not empty and end at words, `organizeAndMergeRanges:` makes ranges of this kind,
-- in order, each of which starts behind the end of the one in front of it: no two of them intersect
-- or are next to each other. A location is in one of them exactly if it was in one of the ranges, and
-- no assertion fails.
pub organize_and_merge_ranges_lem :
    (rs : List HfRange)
    → All IsSolid rs
    → (out : List HfRange) × (organize_and_merge_ranges rs ≡ some out)
      × All IsSolid out
      × IsApart out
      × ((x : ℕ) → IsWord x → in_any x out ≡ in_any x rs)
unfolding organize_and_merge_ranges
organize_and_merge_ranges_lem [] h = ([], refl, tt, tt, λ x w. refl)
organize_and_merge_ranges_lem (r ∷ []) h = (r ∷ [], refl, h, tt, λ x w. refl)
organize_and_merge_ranges_lem (r ∷ s ∷ more) h =
    let rs = r ∷ s ∷ more in
    let (out, runs, merged) =
      merge_sorted_lem (qsort rs) (qsort-All IsSolid rs h) (qsort-IsSorted rs) in
    (out, runs, merged.solid, merged.apart, λ x w. merged.same x w ∙ qsort-in_any x rs)
