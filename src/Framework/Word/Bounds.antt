-- ===== src/Framework/Word/Bounds.antt =====
-- When the functions on words overflow, and that they are right where they do not.
use hex_fiend.Prelude.{
  ℕ, ◌+◌, ◌-◌, ◌<◌, true, none, some, ltb, leb, if◌then◌else◌, ◌≡◌, ◌↔◌, arith, min,
}
use hex_fiend.Framework.Word.{
  ullong_max, IsWord, hf_sum_does_not_overflow, hf_sum, hf_sum_ull_saturate, hf_subtract,
  hf_sum_is_larger_than_sum, hf_absolute_difference,
}

-- The test for overflow is exact.
pub hf_sum_does_not_overflow_iff :
    (a b : ℕ)
    → IsWord a
    → IsWord b
    → (hf_sum_does_not_overflow a b ≡ true) ↔ (a + b < 18446744073709551616)
unfolding hf_sum_does_not_overflow
hf_sum_does_not_overflow_iff a b ha hb = ground arith

-- On words, the checked sum is the sum if that is a word and fails otherwise, the saturating sum is
-- the smaller of the sum and `ULLONG_MAX`, the checked difference is the difference if it is not
-- negative and fails otherwise, and the absolute difference is the sum of the differences, each
-- taken as 0 where it is negative.
pub hf_sum_lem :
    (a b : ℕ)
    → IsWord a
    → IsWord b
    → (hf_sum a b ≡ (if ltb (a + b) 18446744073709551616 then some (a + b) else none))
      × (hf_sum_ull_saturate a b ≡ min (a + b) ullong_max)
      × (hf_subtract a b ≡ (if leb b a then some (a - b) else none))
      × (hf_absolute_difference a b ≡ (a - b) + (b - a))
unfolding hf_sum hf_sum_ull_saturate hf_subtract hf_absolute_difference hf_sum_does_not_overflow
hf_sum_lem a b ha hb = (ground arith, ground arith, ground arith, ground arith)

-- `HFSumIsLargerThanSum` compares the sums without overflow.
pub hf_sum_is_larger_than_sum_iff :
    (a b c d : ℕ)
    → IsWord a
    → IsWord b
    → IsWord c
    → IsWord d
    → (hf_sum_is_larger_than_sum a b c d ≡ true) ↔ (c + d < a + b)
unfolding hf_sum_is_larger_than_sum
hf_sum_is_larger_than_sum_iff a b c d ha hb hc hd = ground arith
