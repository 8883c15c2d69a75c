-- ===== src/Prelude/Int.antt =====
-- Signed integers over the native numbers, under the library's names (its ℤ stands on the unary ℕ).
use hex_fiend.Prelude.Tests.{leb, if◌then◌else◌}
use hex_fiend.Prelude.Text.{Str}
use hex_fiend.Prelude.Lists.{All, drop}
use hex_fiend.Prelude.Digits.{digit, to_decimal, to_string-injective, to_string-All}
use mathlib.Core.Path.{◌≡◌, refl, sym, ap, subst}
use mathlib.Core.Logic.{◌≢◌}
use native.Mathlib.Omega.{arith}
use Prim.Native.Nat.{ℕ, zero, suc, ◌+◌, ◌-◌}
use mathlib.Core.List.{◌∷◌}

-- `negsuc n` is -(n + 1).
pub data ℤ : Type 0 where
  pos : ℕ → ℤ
  negsuc : ℕ → ℤ

abbrev pub pos_part : ℤ → ℕ
pos_part (pos n) = n
pos_part (negsuc n) = 0

abbrev pub neg_part : ℤ → ℕ
neg_part (pos n) = 0
neg_part (negsuc n) = suc n

-- a - b, as an integer.
abbrev pub sub_ℕ : ℕ → ℕ → ℤ
sub_ℕ a b = if leb b a then pos (a - b) else negsuc (b - a - 1)

infixl 65 ◌+ℤ◌ ◌-ℤ◌
unfoldable pub ◌+ℤ◌ : ℤ → ℤ → ℤ
a +ℤ b = sub_ℕ (pos_part a + pos_part b) (neg_part a + neg_part b)

unfoldable pub ◌-ℤ◌ : ℤ → ℤ → ℤ
a -ℤ b = sub_ℕ (pos_part a + neg_part b) (neg_part a + pos_part b)

abbrev pub pred_ℤ : ℤ → ℤ
pred_ℤ (pos zero) = negsuc 0
pred_ℤ (pos (suc n)) = pos n
pred_ℤ (negsuc n) = negsuc (suc n)

-- `String(i)`
abbrev pub int_string : ℤ → Str
int_string (pos n) = to_decimal n
int_string (negsuc n) = b'-' ∷ to_decimal (suc n)

-- A decimal numeral does not start with a minus sign.
not_minus : (n : ℕ) (s : Str) → to_decimal n ≡ b'-' ∷ s → ⊥
unfolding digit
not_minus n s e =
    let digits : All (λ c. c ≢ b'-') (to_decimal n) =
      to_string-All (λ c. c ≢ b'-') 10 n (omega arith) (omega arith) (λ d h. ground arith) in
    (subst (All (λ c. c ≢ b'-')) e digits).0 refl

-- The predecessor, in the parts of an integer.
pub pred_ℤ_lem : (a : ℤ) → pos_part (pred_ℤ a) + neg_part a + 1 ≡ neg_part (pred_ℤ a) + pos_part a
pred_ℤ_lem (pos zero) = omega arith
pred_ℤ_lem (pos (suc n)) = omega arith
pred_ℤ_lem (negsuc n) = omega arith

pub int_string-injective : (a b : ℤ) → int_string a ≡ int_string b → a ≡ b
int_string-injective (pos m) (pos n) e =
    ap pos (to_string-injective 10 m n (omega arith) (omega arith) e)
int_string-injective (pos m) (negsuc n) e = absurd (not_minus m (to_decimal (suc n)) e)
int_string-injective (negsuc m) (pos n) e = absurd (not_minus n (to_decimal (suc m)) (sym e))
int_string-injective (negsuc m) (negsuc n) e = ap negsuc (
    omega
      (arith, to_string-injective 10 (suc m) (suc n) (omega arith) (omega arith) (ap (drop 1) e)))
