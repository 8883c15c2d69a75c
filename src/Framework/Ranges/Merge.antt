-- ===== src/Framework/Ranges/Merge.antt =====
-- `organizeAndMergeRanges:` of class HFRangeWrapper in framework/sources/HFFunctions.m.
pub mod Sorted
pub mod Apart
use Prim.Native.Nat.{compare, Ordering}
use hex_fiend.Prelude.{
  ℕ, ◌+◌, ◌≤◌, ◌<◌, Bool, true, false, ◌||◌, List, [], ◌∷◌, Option, none, some, if◌then◌else◌, ◌≡◌,
  refl, arith, All,
}
use hex_fiend.Framework.Word.{◌>>=◌}
use hex_fiend.Framework.Ranges.{HfRange, hf_location_in_range, touches, hf_union_range}

-- `hfrange_compare`
unfoldable pub hfrange_compare : HfRange → HfRange → Ordering
hfrange_compare a b = elim (compare a.location b.location) [
  | Ordering.lt ↦ Ordering.lt
  | Ordering.gt ↦ Ordering.gt
  | Ordering.eq ↦ compare a.length b.length
]

-- `qsort` with that comparison: ranges that compare equal are equal, so that the order is determined.
unfoldable pub insert : HfRange → List HfRange → List HfRange
unfolding hfrange_compare
insert r [] = r ∷ []
insert r (s ∷ ss) = elim (hfrange_compare r s) [ Ordering.gt ↦ s ∷ insert r ss | _ ↦ r ∷ s ∷ ss ]

unfoldable pub qsort : List HfRange → List HfRange
unfolding insert
qsort [] = []
qsort (r ∷ rs) = insert r (qsort rs)

-- The loop, from the range at `trailing` and those from `leading` on, to the ranges from `trailing`
-- on that are left: the leading range is joined to the trailing one, or comes behind it.
unfoldable pub merge_loop : HfRange → List HfRange → Option (List HfRange)
merge_loop trail [] = some (trail ∷ [])
merge_loop trail (lead ∷ rest) = touches lead trail >>= λ near. elim near [
  | true ↦ hf_union_range lead trail >>= λ joined. merge_loop joined rest
  | false ↦ merge_loop lead rest >>= λ more. some (trail ∷ more)
]

unfoldable pub merge_sorted : List HfRange → Option (List HfRange)
unfolding merge_loop
merge_sorted [] = some []
merge_sorted (trail ∷ rest) = merge_loop trail rest

-- `organizeAndMergeRanges:`; `none` where an assertion fails.
unfoldable pub organize_and_merge_ranges : List HfRange → Option (List HfRange)
unfolding merge_sorted qsort
organize_and_merge_ranges [] = some []
organize_and_merge_ranges (r ∷ []) = some (r ∷ [])
organize_and_merge_ranges (r ∷ s ∷ more) = merge_sorted (qsort (r ∷ s ∷ more))
