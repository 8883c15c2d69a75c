-- ===== src/Framework/Multiples.antt =====
-- The products of framework/sources/HFFunctions.h and `HFLeastCommonMultiple`; `NSUInteger` has 64
-- bits. An assertion that fails is `none`.
pub mod Least
use hex_fiend.Prelude.{
  ℕ, zero, suc, ◌*◌, ◌/◌, ◌%◌, Bool, true, false, ◌||◌, Option, none, some, ◌==◌, if◌then◌else◌,
}
use hex_fiend.Framework.Word.{◌>>=◌}

-- The product of C, which wraps around.
infixl 70 ◌*w◌
abbrev pub ◌*w◌ : ℕ → ℕ → ℕ
a *w b = a * b % 18446744073709551616

-- `HFProductDoesNotOverflow`
unfoldable pub hf_product_does_not_overflow : ℕ → ℕ → Bool
hf_product_does_not_overflow a b = if b == 0 then true else a *w b / b == a

-- `HFProductULL`
unfoldable pub hf_product_ull : ℕ → ℕ → Option ℕ
unfolding hf_product_does_not_overflow
hf_product_ull a b = if hf_product_does_not_overflow a b then some (a *w b) else none

-- `HFProductInt`
unfoldable pub hf_product_int : ℕ → ℕ → Option ℕ
hf_product_int a b = if a == 0 || a *w b / a == b then some (a *w b) else none

-- The loop of `HFLeastCommonMultiple`, with `u` and `v`.
unfoldable pub gcd_loop : ℕ → ℕ → ℕ → Option ℕ
gcd_loop zero u v = none
gcd_loop (suc fuel) u zero = some u
gcd_loop (suc fuel) u (suc v) = gcd_loop fuel (suc v) (u % suc v)

-- `HFLeastCommonMultiple`; `v` gets smaller in each round.
unfoldable pub hf_least_common_multiple : ℕ → ℕ → Option ℕ
unfolding gcd_loop hf_product_int
hf_least_common_multiple zero b = none
hf_least_common_multiple (suc a) zero = none
hf_least_common_multiple (suc a) (suc b) =
    gcd_loop (suc (suc b)) (suc a) (suc b) >>= λ u. hf_product_int (suc a / u) (suc b)
