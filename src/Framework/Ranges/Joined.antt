-- ===== src/Framework/Ranges/Joined.antt =====
-- The union of two ranges, and the parts of a range around a subrange.
use hex_fiend.Prelude.{
  ℕ, ◌+◌, ◌≤◌, ◌<◌, true, ◌||◌, some, leb, ◌≡◌, ◌⊎◌, refl, arith, Bool-cases, inl, inr, min, max,
}
use hex_fiend.Framework.Word.{IsWord, ◌+w◌, ◌-w◌, hf_sum_does_not_overflow, hf_subtract}
use hex_fiend.Framework.Word.Bounds.{hf_sum_does_not_overflow_iff}
use hex_fiend.Framework.Ranges.{
  HfRange, hf_range_make, hf_location_in_range, hf_max_range, hf_range_is_subrange_of_range,
  hf_range_split_about_subrange, hf_intersects_range, touches, hf_union_range,
}
use hex_fiend.Framework.Ranges.Inside.{IsRange, hf_range_is_subrange_of_range_iff}

-- The range ends at a word.
abbrev pub EndsAtWord : HfRange → Type 0
EndsAtWord r = r.location + r.length < 18446744073709551616

pub hf_max_range_lem :
    (r : HfRange) → IsRange r → EndsAtWord r → hf_max_range r ≡ some (r.location + r.length)
unfolding hf_max_range hf_sum_does_not_overflow
hf_max_range_lem r h ends = ground (arith, h.location_word, h.length_word)

-- If a range ends at a word, it is split about a subrange: the prefix goes from its start to that of
-- the subrange, and the suffix from the end of the subrange to its own.
pub hf_range_split_about_subrange_lem :
    (range subrange : HfRange)
    → IsRange range
    → IsRange subrange
    → EndsAtWord range
    → hf_range_is_subrange_of_range subrange range ≡ true
    → (prefix : HfRange) × (suffix : HfRange) × (hf_range_split_about_subrange range subrange
        ≡ some (prefix, suffix))
      × (prefix.location ≡ range.location)
      × (prefix.location + prefix.length ≡ subrange.location)
      × (suffix.location ≡ subrange.location + subrange.length)
      × (suffix.location + suffix.length ≡ range.location + range.length)
unfolding hf_range_split_about_subrange hf_subtract
hf_range_split_about_subrange_lem range subrange hr hs ends inside =
    let (starts, stops) = (hf_range_is_subrange_of_range_iff subrange range hs hr).0 inside in
    let sub_ends : EndsAtWord subrange = omega arith in
    let below : leb range.location subrange.location ≡ true = ground arith in
    (
      hf_range_make range.location (subrange.location -w range.location),
      hf_range_make (subrange.location + subrange.length)
          (range.location + range.length -w (subrange.location + subrange.length)),
      rw (inside, below, hf_max_range_lem subrange hs sub_ends, hf_max_range_lem range hr ends)
          refl,
      refl,
      omega (arith, hr.location_word, hs.location_word),
      refl,
      omega (arith, hr.location_word, hs.location_word),
    )

-- The ranges intersect, or one ends where the other starts.
abbrev pub Near : HfRange → HfRange → Type 0
Near a b =
    (hf_intersects_range a b ≡ true)
    ⊎ (a.location + a.length ≡ b.location)
    ⊎ (b.location + b.length ≡ a.location)

pub touches-Near :
    (a b : HfRange)
    → IsRange a
    → IsRange b
    → EndsAtWord a
    → EndsAtWord b
    → Near a b
    → touches a b ≡ some true
unfolding touches
touches-Near a b ha hb ends_a ends_b near = elim (Bool-cases (hf_intersects_range a b)) [
  | inl meet ↦ rw meet refl
  | inr apart ↦
      rw (apart, hf_max_range_lem a ha ends_a, hf_max_range_lem b hb ends_b) (ground (arith, near))
]

pub no_gap :
    (a b : HfRange)
    → IsRange a
    → IsRange b
    → Near a b
    → (b.location ≤ a.location + a.length) × (a.location ≤ b.location + b.length)
unfolding hf_intersects_range
no_gap a b ha hb near =
    ground (arith, near, ha.location_word, hb.location_word, ha.length_word, hb.length_word)

-- Two ranges that end at words, and intersect or are next to each other, have a union: a location
-- is in it exactly if it is in one of them.
pub hf_union_range_lem :
    (a b : HfRange)
    → IsRange a
    → IsRange b
    → EndsAtWord a
    → EndsAtWord b
    → Near a b
    → (r : HfRange) × (hf_union_range a b ≡ some r)
      × ((x : ℕ)
          → IsWord x
          → hf_location_in_range x r ≡ (hf_location_in_range x a || hf_location_in_range x b))
unfolding hf_union_range hf_location_in_range
hf_union_range_lem a b ha hb ends_a ends_b near =
    let fine_a =
      (hf_sum_does_not_overflow_iff a.location a.length ha.location_word ha.length_word).1 ends_a in
    let fine_b =
      (hf_sum_does_not_overflow_iff b.location b.length hb.location_word hb.length_word).1 ends_b in
    let (left, right) = no_gap a b ha hb near in
    (
      hf_range_make (min a.location b.location)
          (max (a.location +w a.length) (b.location +w b.length) -w min a.location b.location),
      rw (touches-Near a b ha hb ends_a ends_b near, fine_a, fine_b) refl,
      λ x hx. ground (arith, left, right),
    )
