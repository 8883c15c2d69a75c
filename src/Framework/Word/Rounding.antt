-- ===== src/Framework/Word/Rounding.antt =====
-- The functions on words that round up.
use native.Mathlib.Nat.{suc-mul, div-add-mod', div-le_self, mod-lt}
use hex_fiend.Prelude.{
  ℕ, zero, suc, ◌+◌, ◌-◌, ◌*◌, ◌/◌, ◌%◌, ◌≤◌, ◌<◌, Option, none, some, ltb, ◌==◌, if◌then◌else◌,
  ◌≡◌, refl, arith, Bool-cases, inl, inr, min, ◌∙◌, ap,
}
use hex_fiend.Framework.Word.{
  ullong_max, IsWord, ◌+w◌, ◌-w◌, hf_round_up_to_multiple, hf_round_up_to_next_multiple_saturate,
  hf_divide_ull_rounding_up,
}
use hex_fiend.Framework.Word.Bounds.{hf_sum_lem}

-- A number, if it is a word.
abbrev checked : ℕ → Option ℕ
checked n = if ltb n 18446744073709551616 then some n else none

checked-word : (a : ℕ) → IsWord a → some a ≡ checked a
checked-word a h = ground (arith, h)

-- What rounding up adds.
gap : (r b : ℕ) → r < b → IsWord b → b -w r ≡ b - r
gap r b h hb = omega arith

-- Where the divisor is not 0, `HFRoundUpToMultiple` gives the smallest multiple of it that is not
-- less than the number, if that is a word, and fails otherwise.
pub hf_round_up_to_multiple_lem :
    (a b : ℕ)
    → IsWord a
    → IsWord (suc b)
    → (k : ℕ) × (a ≤ k * suc b)
      × (k * suc b < a + suc b)
      × (hf_round_up_to_multiple a (suc b)
          ≡ (if ltb (k * suc b) 18446744073709551616 then some (k * suc b) else none))
unfolding hf_round_up_to_multiple
hf_round_up_to_multiple_lem a b ha hb =
    let split = div-add-mod' a (suc b) in
    let less : a % suc b < suc b = mod-lt a (omega arith) in
    let next = suc-mul (a / suc b) (suc b) in
    elim (Bool-cases (a % suc b == 0)) [
      | inl even ↦
          let none_left : a % suc b ≡ 0 = ground (arith, even) in
          (
            a / suc b,
            omega (arith, split, none_left),
            omega (arith, split),
            rw even (checked-word a ha ∙ ap checked (omega (arith, split, none_left))),
          )
      | inr odd ↦
          let some_left : 0 < a % suc b = ground (arith, odd) in
          (
            suc (a / suc b),
            omega (arith, split, next, less),
            omega (arith, split, next, some_left),
            rw (odd, gap (a % suc b) (suc b) less hb)
                ((hf_sum_lem a (suc b - a % suc b) ha (omega (arith, hb))).0
                  ∙ ap checked (omega (arith, split, next, less))),
          )
    ]

-- Where the divisor is not 0, `HFRoundUpToNextMultipleSaturate` gives the smallest multiple of it
-- that is larger than the number, or `ULLONG_MAX` if that is smaller.
pub hf_round_up_to_next_multiple_saturate_lem :
    (a b : ℕ)
    → IsWord a
    → IsWord (suc b)
    → (k : ℕ) × (a < k * suc b)
      × (k * suc b ≤ a + suc b)
      × (hf_round_up_to_next_multiple_saturate a (suc b) ≡ some (min (k * suc b) ullong_max))
unfolding hf_round_up_to_next_multiple_saturate
hf_round_up_to_next_multiple_saturate_lem a b ha hb =
    let split = div-add-mod' a (suc b) in
    let less : a % suc b < suc b = mod-lt a (omega arith) in
    let next = suc-mul (a / suc b) (suc b) in
    (
      suc (a / suc b),
      omega (arith, split, next, less),
      omega (arith, split, next),
      rw (gap (a % suc b) (suc b) less hb) (
          ap some (
            saturated a (suc b - a % suc b) ha (omega (arith, hb))
            ∙ ap (λ n. min n ullong_max) (omega (arith, split, next, less)))),
    )
  where
    saturated :
        (a c : ℕ)
        → IsWord a
        → IsWord c
        → (if ltb (a +w c) a then ullong_max else a +w c) ≡ min (a + c) ullong_max
    saturated a c ha hc = ground arith

-- Where the divisor is not 0, `HFDivideULLRoundingUp` gives the quotient rounded up.
pub hf_divide_ull_rounding_up_lem :
    (a b : ℕ)
    → IsWord a
    → (q : ℕ) × (hf_divide_ull_rounding_up a (suc b) ≡ some q)
      × (a ≤ q * suc b)
      × (q * suc b < a + suc b)
unfolding hf_divide_ull_rounding_up
hf_divide_ull_rounding_up_lem zero b ha = (0, refl, omega arith, omega arith)
hf_divide_ull_rounding_up_lem (suc a) b ha =
    let split = div-add-mod' a (suc b) in
    let less : a % suc b < suc b = mod-lt a (omega arith) in
    let next = suc-mul (a / suc b) (suc b) in
    let small : a / suc b ≤ a = div-le_self a (suc b) in
    (
      suc (a / suc b),
      ap some (omega (arith, small, ha)),
      omega (arith, split, next, less),
      omega (arith, split, next),
    )
