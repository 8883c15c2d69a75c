-- ===== src/Framework/Word.antt =====
-- The functions on `unsigned long long` of framework/sources/HFFunctions.h. An assertion that fails
-- is `none`; so is a division by 0.
pub mod Bounds
pub mod Rounding
use hex_fiend.Prelude.{
  ℕ, zero, suc, ◌+◌, ◌-◌, ◌*◌, ◌/◌, ◌%◌, ◌<◌, Bool, true, false, ◌&&◌, ◌||◌, Option, none, some,
  ltb, leb, ◌==◌, if◌then◌else◌,
}

-- `ULLONG_MAX` and one more.
abbrev pub ullong_max : ℕ
ullong_max = 18446744073709551615

abbrev pub modulus : ℕ
modulus = 18446744073709551616

abbrev pub IsWord : ℕ → Type 0
IsWord a = a < 18446744073709551616

infixl 5 ◌>>=◌
abbrev pub ◌>>=◌ {ℓ κ} : {A : Type ℓ} {B : Type κ} → Option A → (A → Option B) → Option B
none >>= f = none
some a >>= f = f a

-- The operations of C on words, which wrap around.
infixl 65 ◌+w◌ ◌-w◌
abbrev pub ◌+w◌ : ℕ → ℕ → ℕ
a +w b = (a + b) % 18446744073709551616

abbrev pub ◌-w◌ : ℕ → ℕ → ℕ
a -w b = (a + 18446744073709551616 - b) % 18446744073709551616

-- `HFSumDoesNotOverflow`
unfoldable pub hf_sum_does_not_overflow : ℕ → ℕ → Bool
hf_sum_does_not_overflow a b = leb a (a +w b)

-- `HFSum`
unfoldable pub hf_sum : ℕ → ℕ → Option ℕ
unfolding hf_sum_does_not_overflow
hf_sum a b = if hf_sum_does_not_overflow a b then some (a +w b) else none

-- `HFSumULLSaturate`
unfoldable pub hf_sum_ull_saturate : ℕ → ℕ → ℕ
hf_sum_ull_saturate a b = if ltb (a +w b) a then ullong_max else a +w b

-- `HFMaxULL`
unfoldable pub hf_max_ull : ℕ → ℕ → ℕ
hf_max_ull a b = if ltb a b then b else a

-- `HFSubtract`
unfoldable pub hf_subtract : ℕ → ℕ → Option ℕ
hf_subtract a b = if leb b a then some (a -w b) else none

-- `HFRoundUpToMultiple`
unfoldable pub hf_round_up_to_multiple : ℕ → ℕ → Option ℕ
hf_round_up_to_multiple a zero = none
hf_round_up_to_multiple a (suc b) =
    let remainder = a % suc b in if remainder == 0 then some a else hf_sum a (suc b -w remainder)

-- `HFRoundUpToNextMultipleSaturate`
unfoldable pub hf_round_up_to_next_multiple_saturate : ℕ → ℕ → Option ℕ
hf_round_up_to_next_multiple_saturate a zero = none
hf_round_up_to_next_multiple_saturate a (suc b) =
    let result = a +w (suc b -w a % suc b) in some (if ltb result a then ullong_max else result)

-- `HFSumIsLargerThanSum`
unfoldable pub hf_sum_is_larger_than_sum : ℕ → ℕ → ℕ → ℕ → Bool
hf_sum_is_larger_than_sum a b c d =
    let rem1 = a % 2 + b % 2 in
    let rem2 = c % 2 + d % 2 in
    let sum1 = a / 2 +w b / 2 +w rem1 / 2 in
    let sum2 = c / 2 +w d / 2 +w rem2 / 2 in
    if ltb sum2 sum1 then true else if ltb sum1 sum2 then false else ltb (rem2 % 2) (rem1 % 2)

-- `HFAbsoluteDifference`
unfoldable pub hf_absolute_difference : ℕ → ℕ → ℕ
hf_absolute_difference a b = if ltb b a then a -w b else b -w a

-- `HFDivideULLRoundingUp`
unfoldable pub hf_divide_ull_rounding_up : ℕ → ℕ → Option ℕ
hf_divide_ull_rounding_up zero b = some 0
hf_divide_ull_rounding_up (suc a) zero = none
hf_divide_ull_rounding_up (suc a) (suc b) = some (a / suc b +w 1)
