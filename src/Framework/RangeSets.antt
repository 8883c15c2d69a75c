-- ===== src/Framework/RangeSets.antt =====
-- The fenceposts of class HFRangeSet in framework/sources/HFFunctions.m. A set is a list of numbers,
-- of an even length and in order, with the ranges from the first to the second, from the third to
-- the fourth, and so on.
pub mod Contains
pub mod Covered
pub mod Overlap
use hex_fiend.Prelude.{
  ℕ, zero, suc, ◌+◌, ◌-◌, ◌%◌, ◌≤◌, ◌<◌, Bool, true, false, ◌&&◌, ◌||◌, List, [], ◌∷◌, ◌++◌, Option,
  none, some, ltb, leb, ◌==◌, if◌then◌else◌, get_elem?, length, take, drop, All, ◌≡◌,
}
use hex_fiend.Framework.Word.{◌>>=◌}

-- An `assert`
abbrev pub asserts {ℓ} : {A : Type ℓ} → Bool → Option A → Option A
asserts b o = if b then o else none

-- `CFArrayBSearchValues` on all of the array, with `uintptrComparator`, is a parameter.
module _ (search : List ℕ → ℕ → ℕ) where
  -- `HFRangeSetContainsAllRange`; a value that is not there is none.
  unfoldable pub hf_range_set_contains_all_range : List ℕ → ℕ → ℕ → Option Bool
  hf_range_set_contains_all_range xs a b =
      let count = length xs in
      let idxa = search xs a in
      let idxb = search xs b in
      asserts (ltb a b && count % 2 == 0) (
        if leb count idxa || idxb == 0
        then some false
        else if leb (idxa + 2) idxb
        then some false
        else if idxb % 2 == 1
        then (get_elem? xs idxa >>= λ v. some (idxa == (if v == a then idxb - 1 else idxb)))
        else some false)

  -- `HFRangeSetOverlapsAnyRange`
  unfoldable pub hf_range_set_overlaps_any_range : List ℕ → ℕ → ℕ → Option Bool
  hf_range_set_overlaps_any_range xs a b =
      let count = length xs in
      let idxa = search xs a in
      let idxb = search xs b in
      asserts (ltb a b && count % 2 == 0) (
        if leb count idxa || idxb == 0
        then some false
        else if leb (idxa + 2) idxb
        then some true
        else (get_elem? xs idxa >>= λ v.
            if v == a
            then (if idxa % 2 == 0
                then some true
                else (get_elem? xs (idxa + 1) >>= λ next. some (ltb next b)))
            else if idxa % 2 == 1
            then some true
            else some (ltb v b)))
