-- ===== src/Framework/Ranges.antt =====
-- The ranges of framework/sources/HFFunctions.h: a location and a length, both `unsigned long long`.
-- An assertion that fails is `none`.
pub mod Inside
pub mod Joined
pub mod Merge
use hex_fiend.Prelude.{
  ℕ, ◌+◌, ◌-◌, ◌%◌, ◌<◌, Bool, true, false, not, ◌&&◌, ◌||◌, Option, none, some, ltb, leb, ◌==◌,
  if◌then◌else◌, min, max,
}
use hex_fiend.Framework.Word.{
  ◌>>=◌, IsWord, ◌+w◌, ◌-w◌, hf_sum_does_not_overflow, hf_subtract, hf_sum_is_larger_than_sum,
}

pub record HfRange : Type 0 where
  pub location : ℕ
  pub length : ℕ

-- `HFRangeMake`
abbrev pub hf_range_make : ℕ → ℕ → HfRange
hf_range_make loc len = record { location = loc; length = len }

-- `HFLocationInRange`
unfoldable pub hf_location_in_range : ℕ → HfRange → Bool
hf_location_in_range location range =
    leb range.location location && ltb (location -w range.location) range.length

-- `HFRangeEqualsRange`
unfoldable pub hf_range_equals_range : HfRange → HfRange → Bool
hf_range_equals_range a b = a.location == b.location && a.length == b.length

-- `HFMaxRange`
unfoldable pub hf_max_range : HfRange → Option ℕ
unfolding hf_sum_does_not_overflow
hf_max_range a =
    if hf_sum_does_not_overflow a.location a.length then some (a.location +w a.length) else none

-- `HFRangeIsSubrangeOfRange`
unfoldable pub hf_range_is_subrange_of_range : HfRange → HfRange → Bool
hf_range_is_subrange_of_range needle haystack =
    if ltb needle.location haystack.location || ltb haystack.length needle.length
    then false
    else leb (needle.location -w haystack.location) (haystack.length -w needle.length)

-- `HFRangeSplitAboutSubrange`, with the prefix and the suffix
unfoldable pub hf_range_split_about_subrange : HfRange → HfRange → Option (HfRange × HfRange)
unfolding hf_range_is_subrange_of_range hf_subtract hf_max_range
hf_range_split_about_subrange range subrange =
    if hf_range_is_subrange_of_range subrange range
    then (do
      before ← hf_subtract subrange.location range.location
      start ← hf_max_range subrange
      end_ ← hf_max_range range
      some (hf_range_make range.location before, hf_range_make start (end_ -w start)))
    else none

-- `HFIntersectsRange`
unfoldable pub hf_intersects_range : HfRange → HfRange → Bool
hf_intersects_range a b =
    if a.length == 0 || b.length == 0
    then false
    else (let clause1 = leb b.location a.location && leb b.length (a.location -w b.location) in
        let clause2 = leb a.location b.location && leb a.length (b.location -w a.location) in
        not (clause1 || clause2))

-- What `HFUnionRange` asserts first: the ranges intersect, or one ends where the other starts.
unfoldable pub touches : HfRange → HfRange → Option Bool
touches a b = if hf_intersects_range a b then some true else (do
  end_a ← hf_max_range a
  (if end_a == b.location
      then some true
      else (do end_b ← hf_max_range b; some (end_b == a.location))))

-- `HFUnionRange`
unfoldable pub hf_union_range : HfRange → HfRange → Option HfRange
hf_union_range a b = do
  near ← touches a b
  (if near
        && hf_sum_does_not_overflow a.location a.length
        && hf_sum_does_not_overflow b.location b.length
      then some (
          hf_range_make (min a.location b.location)
            (max (a.location +w a.length) (b.location +w b.length) -w min a.location b.location))
      else none)

-- `HFRangeExtendsPastRange`
unfoldable pub hf_range_extends_past_range : HfRange → HfRange → Bool
unfolding hf_sum_is_larger_than_sum
hf_range_extends_past_range a b = hf_sum_is_larger_than_sum a.location a.length b.location b.length

-- `HFIntersectionRange`
unfoldable pub hf_intersection_range : HfRange → HfRange → HfRange
hf_intersection_range range1 range2 =
    let minend =
      if hf_range_extends_past_range range2 range1
      then range1.location +w range1.length
      else range2.location +w range2.length in
    if leb range2.location range1.location && ltb (range1.location -w range2.location) range2.length
    then hf_range_make range1.location (minend -w range1.location)
    else if leb range1.location range2.location
        && ltb (range2.location -w range1.location) range1.length
    then hf_range_make range2.location (minend -w range2.location)
    else hf_range_make 0 0
