-- ===== src/Framework/Examples.antt =====
-- The properties of words and ranges, at examples.
use Prim.Native.Nat.{◌∣◌}
use hex_fiend.Prelude.{
  Bool, Option, ap, List, [], ◌∷◌, All, ℕ, ◌+◌, ◌-◌, ◌*◌, ◌≤◌, ◌<◌, true, ◌&&◌, ◌||◌, none, some,
  ltb, leb, if◌then◌else◌, ◌≡◌, ◌↔◌, refl, arith, min, inl,
}
use hex_fiend.Framework.Word.{
  ullong_max, IsWord, hf_sum_does_not_overflow, hf_sum, hf_sum_ull_saturate, hf_subtract,
  hf_absolute_difference, hf_sum_is_larger_than_sum, hf_round_up_to_multiple,
}
use hex_fiend.Framework.Word.Bounds.{hf_sum_lem, hf_sum_is_larger_than_sum_iff}
use hex_fiend.Framework.Word.Rounding.{hf_round_up_to_multiple_lem}
use hex_fiend.Framework.Multiples.{hf_product_int, hf_product_ull, hf_least_common_multiple}
use hex_fiend.Framework.Multiples.Least.{hf_product_lem, hf_least_common_multiple_lem}
use hex_fiend.Framework.Ranges.{
  HfRange, hf_range_make, hf_location_in_range, hf_range_is_subrange_of_range, hf_intersects_range,
  hf_intersection_range, hf_union_range, hf_max_range, touches, hf_range_split_about_subrange,
}
use hex_fiend.Framework.Ranges.Inside.{
  IsRange, hf_range_is_subrange_of_range_iff, hf_intersects_range_iff, hf_intersection_range_lem,
}
use hex_fiend.Framework.Ranges.Joined.{hf_range_split_about_subrange_lem, hf_union_range_lem}
use hex_fiend.Framework.Ranges.Merge.{organize_and_merge_ranges}
use hex_fiend.Framework.Ranges.Merge.Sorted.{in_any}
use hex_fiend.Framework.Ranges.Merge.Apart.{IsSolid, IsApart, organize_and_merge_ranges_lem}
use hex_fiend.Framework.RangeSets.{hf_range_set_contains_all_range, hf_range_set_overlaps_any_range}
use hex_fiend.Framework.RangeSets.Contains.{IsRising, included, below}
use hex_fiend.Framework.RangeSets.Covered.{hf_range_set_contains_all_range_lem}
use hex_fiend.Framework.RangeSets.Overlap.{hf_range_set_overlaps_any_range_lem}

abbrev top : ℕ
top = 18446744073709551615

hf_sum_lem_example :
    (hf_sum top 2 ≡ (if ltb (top + 2) 18446744073709551616 then some (top + 2) else none))
    × (hf_sum_ull_saturate top 2 ≡ min (top + 2) ullong_max)
    × (hf_subtract top 2 ≡ (if leb 2 top then some (top - 2) else none))
    × (hf_absolute_difference top 2 ≡ (top - 2) + (2 - top))
hf_sum_lem_example = hf_sum_lem top 2 (omega arith) (omega arith)

hf_sum_is_larger_than_sum_iff_example :
    (hf_sum_is_larger_than_sum top 1 10 20 ≡ true) ↔ (10 + 20 < top + 1)
hf_sum_is_larger_than_sum_iff_example =
    hf_sum_is_larger_than_sum_iff top 1 10 20 (omega arith) (omega arith) (omega arith)
      (omega arith)

hf_round_up_to_multiple_lem_example :
    (k : ℕ) × (13 ≤ k * 5)
    × (k * 5 < 13 + 5)
    × (hf_round_up_to_multiple 13 5
        ≡ (if ltb (k * 5) 18446744073709551616 then some (k * 5) else none))
hf_round_up_to_multiple_lem_example = hf_round_up_to_multiple_lem 13 4 (omega arith) (omega arith)

abbrev page : HfRange
page = hf_range_make 10 20

abbrev part : HfRange
part = hf_range_make 15 5

page-IsRange : IsRange page
page-IsRange = record { location_word = omega arith; length_word = omega arith }

part-IsRange : IsRange part
part-IsRange = record { location_word = omega arith; length_word = omega arith }

hf_range_is_subrange_of_range_iff_example :
    (hf_range_is_subrange_of_range part page ≡ true) ↔ ((10 ≤ 15) × (15 + 5 ≤ 10 + 20))
hf_range_is_subrange_of_range_iff_example =
    hf_range_is_subrange_of_range_iff part page part-IsRange page-IsRange

hf_intersects_range_iff_example : (hf_intersects_range page part ≡ true) ↔ (
    (x : ℕ) × IsWord x
    × (hf_location_in_range x page ≡ true)
    × (hf_location_in_range x part ≡ true))
hf_intersects_range_iff_example = hf_intersects_range_iff page part page-IsRange part-IsRange

hf_intersection_range_lem_example :
    hf_location_in_range 17 (hf_intersection_range page part)
    ≡ hf_location_in_range 17 page && hf_location_in_range 17 part
hf_intersection_range_lem_example =
    hf_intersection_range_lem page part 17 page-IsRange part-IsRange (omega arith)

hf_range_split_about_subrange_lem_example :
    (prefix : HfRange) × (suffix : HfRange) × (hf_range_split_about_subrange page part
      ≡ some (prefix, suffix))
    × (prefix.location ≡ 10)
    × (prefix.location + prefix.length ≡ 15)
    × (suffix.location ≡ 15 + 5)
    × (suffix.location + suffix.length ≡ 10 + 20)
unfolding hf_range_is_subrange_of_range
hf_range_split_about_subrange_lem_example =
    hf_range_split_about_subrange_lem page part page-IsRange part-IsRange (omega arith) refl

hf_union_range_lem_example :
    (r : HfRange) × (hf_union_range page part ≡ some r)
    × ((x : ℕ)
        → IsWord x
        → hf_location_in_range x r ≡ (hf_location_in_range x page || hf_location_in_range x part))
unfolding hf_intersects_range
hf_union_range_lem_example =
    hf_union_range_lem page part page-IsRange part-IsRange (omega arith) (omega arith) (inl refl)

hf_product_lem_example :
    (hf_product_int top 2 ≡ (if ltb (top * 2) 18446744073709551616 then some (top * 2) else none))
    × (hf_product_ull top 2 ≡ (if ltb (top * 2) 18446744073709551616 then some (top * 2) else none))
hf_product_lem_example = hf_product_lem top 2 (omega arith) (omega arith)

hf_least_common_multiple_lem_example :
    (m : ℕ) × (4 ∣ m)
    × (6 ∣ m)
    × ((n : ℕ) → 4 ∣ n → 6 ∣ n → m ∣ n)
    × (hf_least_common_multiple 4 6 ≡ (if ltb m 18446744073709551616 then some m else none))
hf_least_common_multiple_lem_example = hf_least_common_multiple_lem 3 5 (omega arith) (omega arith)

solid : (loc len : ℕ) → loc + len < 18446744073709551616 → 0 < len → IsSolid (hf_range_make loc len)
solid loc len h k = record {
  words = record { location_word = omega arith; length_word = omega arith };
  ends = h;
  full = k;
}

abbrev three_ranges : List HfRange
three_ranges = hf_range_make 20 5 ∷ hf_range_make 3 4 ∷ hf_range_make 5 10 ∷ []

organize_and_merge_ranges_lem_example :
    (out : List HfRange) × (organize_and_merge_ranges three_ranges ≡ some out)
    × All IsSolid out
    × IsApart out
    × ((x : ℕ) → IsWord x → in_any x out ≡ in_any x three_ranges)
organize_and_merge_ranges_lem_example = organize_and_merge_ranges_lem three_ranges (
  solid 20 5 (omega arith) (omega arith),
  (solid 3 4 (omega arith) (omega arith), (solid 5 10 (omega arith) (omega arith), tt)),
)

three_ranges_run :
    organize_and_merge_ranges three_ranges ≡ some (hf_range_make 3 12 ∷ hf_range_make 20 5 ∷ [])
unfolding organize_and_merge_ranges touches hf_union_range hf_max_range hf_intersects_range
    hf_sum_does_not_overflow
three_ranges_run = refl

abbrev value_or : ℕ → Option ℕ → ℕ
value_or d none = d
value_or d (some n) = n

-- The ranges from 1 to 3 and from 5 to 10.
abbrev posts : List ℕ
posts = 1 ∷ 3 ∷ 5 ∷ 10 ∷ []

posts-IsRising : IsRising posts
posts-IsRising = (
  (omega arith, (omega arith, (omega arith, tt))),
  ((omega arith, (omega arith, tt)), ((omega arith, tt), (tt, tt))),
)

abbrev find : List ℕ → ℕ → ℕ
find xs v = below v xs

hf_range_set_contains_all_range_lem_example :
    (r : Bool) × (hf_range_set_contains_all_range find posts 6 9 ≡ some r)
    × ((r ≡ true) ↔ ((x : ℕ) → 6 ≤ x → x < 9 → included x posts ≡ true))
hf_range_set_contains_all_range_lem_example =
    hf_range_set_contains_all_range_lem find posts 6 9 (λ xs v h. refl) posts-IsRising refl
      (omega arith)

hf_range_set_overlaps_any_range_lem_example :
    (r : Bool) × (hf_range_set_overlaps_any_range find posts 3 6 ≡ some r)
    × ((r ≡ true) ↔ ((x : ℕ) × (3 ≤ x) × (x < 6) × (included x posts ≡ true)))
hf_range_set_overlaps_any_range_lem_example =
    hf_range_set_overlaps_any_range_lem find posts 3 6 (λ xs v h. refl) posts-IsRising refl
      (omega arith) (λ e. absurd (omega (arith, ap (λ o. value_or 0 o) e)))

-- A range that starts at the last fencepost: the test reads past the end of the array.
last_post_run : hf_range_set_overlaps_any_range find posts 10 12 ≡ none
unfolding hf_range_set_overlaps_any_range below
last_post_run = refl
