-- ===== src/Prelude/Digits.antt =====
-- `Number.prototype.toString(radix)` on the natural numbers, for a radix up to 36.
use Prim.Native.Nat.{ℕ, zero, suc, ◌+◌, ◌-◌, ◌*◌, ◌/◌, ◌%◌, ◌≤◌, ◌<◌}
use mathlib.Core.Path.{◌≡◌, refl, sym, ◌∙◌, ap}
use mathlib.Core.Logic.{inl, inr}
use mathlib.Core.List.{[], ◌∷◌, ◌++◌}
use native.Mathlib.Nat.{div-add-mod', div-lt_self, mod-lt}
use native.Mathlib.Omega.{arith}
use hex_fiend.Prelude.Tests.{ltb, Bool-cases, if◌then◌else◌}
use hex_fiend.Prelude.Text.{Str, All-append}
use hex_fiend.Prelude.Lists.{All}

-- 0 to 9, then a to z
unfoldable pub digit : ℕ → ℕ
digit d = if ltb d 10 then b'0' + d else b'a' + (d - 10)

-- Each round gives one digit, the last one first. The fuel is the number itself, which is never
-- below the number of digits that are left.
unfoldable pub digits : ℕ → ℕ → ℕ → Str
digits zero base n = digit n ∷ []
digits (suc f) base n =
    let rest = digits f base (n / base) in
    if ltb n base then digit n ∷ [] else rest ++ digit (n % base) ∷ []

unfoldable pub to_string : ℕ → ℕ → Str
unfolding digits digit
to_string base n = digits n base n

abbrev pub to_hex : ℕ → Str
to_hex = to_string 16

abbrev pub to_decimal : ℕ → Str
to_decimal = to_string 10

-- What a string of digits stands for.
digit_value : ℕ → ℕ
digit_value c = if ltb c b'a' then c - b'0' else c - b'a' + 10

value : ℕ → ℕ → Str → ℕ
value base acc [] = acc
value base acc (c ∷ s) = value base (acc * base + digit_value c) s

digit_value-digit : (d : ℕ) → d < 36 → digit_value (digit d) ≡ d
unfolding digit_value digit
digit_value-digit d h = ground arith

value-concat :
    (base acc : ℕ) (s : Str) (c : ℕ)
    → value base acc (s ++ c ∷ []) ≡ value base acc s * base + digit_value c
unfolding value
value-concat base acc [] c = refl
value-concat base acc (x ∷ s) c = value-concat base (acc * base + digit_value x) s c

value-single : (base n : ℕ) → n < 36 → value base 0 (digit n ∷ []) ≡ n
unfolding value
value-single base n h = omega (arith, digit_value-digit n h)

mod_small : (n base : ℕ) → 2 ≤ base → base ≤ 36 → n % base < 36
mod_small n base lo hi = omega (arith, mod-lt n {m = base} (omega arith))

div-le_pred : (n base f : ℕ) → 2 ≤ base → base ≤ n → n ≤ suc f → n / base ≤ f
div-le_pred n base f lo le h =
    omega (arith, div-lt_self {n = n} {k = base} (omega arith) (omega arith))

value-digits : (f base n : ℕ) → 2 ≤ base → base ≤ 36 → n ≤ f → value base 0 (digits f base n) ≡ n
unfolding digits
value-digits zero base n lo hi h = value-single base n (omega arith)
value-digits (suc f) base n lo hi h = elim (Bool-cases (ltb n base)) [
  | inl small ↦ rw small (value-single base n (ground arith))
  | inr large ↦
      rw
        (
          large,
          value-concat base 0 (digits f base (n / base)) (digit (n % base)),
          value-digits f base (n / base) lo hi (div-le_pred n base f lo (ground arith) h),
        )
        (omega (arith, digit_value-digit (n % base) (mod_small n base lo hi), div-add-mod' n base))
]

pub to_string-injective :
    (base m n : ℕ) → 2 ≤ base → base ≤ 36 → to_string base m ≡ to_string base n → m ≡ n
unfolding to_string
to_string-injective base m n lo hi e =
    sym (value-digits m base m lo hi (omega arith))
    ∙ ap (value base 0) e
    ∙ value-digits n base n lo hi (omega arith)

digits-small : (f base n : ℕ) → n < base → digits f base n ≡ digit n ∷ []
unfolding digits
digits-small zero base n h = refl
digits-small (suc f) base n h = ground arith

digits-two :
    (f base n : ℕ)
    → base ≤ n
    → n / base < base
    → digits (suc f) base n ≡ digit (n / base) ∷ digit (n % base) ∷ []
unfolding digits
digits-two f base n le lt = ground (arith, digits-small f base (n / base) lt)

-- What holds of every digit holds of all the characters of a number.
digits-All :
    (P : ℕ → Type 0) (f base n : ℕ)
    → 2 ≤ base
    → base ≤ 36
    → ((d : ℕ) → d < 36 → P (digit d))
    → n ≤ f
    → All P (digits f base n)
unfolding digits
digits-All P zero base n lo hi each h = (each n (omega arith), tt)
digits-All P (suc f) base n lo hi each h = elim (Bool-cases (ltb n base)) [
  | inl small ↦ rw small (each n (ground arith), tt)
  | inr large ↦ rw large (
      All-append P (digits f base (n / base)) (digit (n % base) ∷ [])
        (digits-All P f base (n / base) lo hi each (div-le_pred n base f lo (ground arith) h))
        (each (n % base) (mod_small n base lo hi), tt))
]

pub to_string-All :
    (P : ℕ → Type 0) (base n : ℕ)
    → 2 ≤ base
    → base ≤ 36
    → ((d : ℕ) → d < 36 → P (digit d))
    → All P (to_string base n)
unfolding to_string
to_string-All P base n lo hi each = digits-All P n base n lo hi each (omega arith)

-- A number below the square of the radix has one digit or two.
pub to_string-small : (base n : ℕ) → n < base → to_string base n ≡ digit n ∷ []
unfolding to_string
to_string-small base n h = digits-small n base n h

pub to_string-two :
    (base n : ℕ)
    → 0 < base
    → base ≤ n
    → n / base < base
    → to_string base n ≡ digit (n / base) ∷ digit (n % base) ∷ []
to_string-two base zero pos le lt = absurd (omega arith)
to_string-two base (suc n) pos le lt = unfold to_string in digits-two n base (suc n) le lt
