-- ===== src/Prelude/Text.antt =====
-- JavaScript strings as lists of UTF-16 code units.
use Prim.Native.Nat.{ℕ, ◌<◌, ◌+◌}
use Prim.Native.Char.{code}
use Prim.Native.String.{String}
use mathlib.Core.Path.{◌≡◌, refl}
use mathlib.Core.Logic.{◌↔◌}
use mathlib.Core.Bool.{Bool, true, false, ◌&&◌}
use mathlib.Core.List.{List, [], ◌∷◌, ◌++◌, map}
use native.Mathlib.Omega.{arith}
use hex_fiend.Prelude.Tests.{◌==◌, leb, if◌then◌else◌}
use hex_fiend.Prelude.Lists.{All}

abbrev pub Str : Type 0
Str = List ℕ

-- The code units of a literal.
abbrev pub codes : String → Str
codes String.[] = []
codes (String.◌∷◌ c s) = code c ∷ codes s

-- Every element is a 16-bit code unit.
abbrev pub IsText : Str → Type 0
IsText = All (λ c. c < 0x10000)

unfoldable pub str_eq : Str → Str → Bool
str_eq [] [] = true
str_eq (x ∷ xs) (y ∷ ys) = x == y && str_eq xs ys
str_eq _ _ = false

pub str_eq_iff : (a b : Str) → (str_eq a b ≡ true) ↔ (a ≡ b)
unfolding str_eq
str_eq_iff [] [] = (λ _. refl, λ _. refl)
str_eq_iff [] (y ∷ b) = (λ h. cc, λ h. cc)
str_eq_iff (x ∷ a) [] = (λ h. cc, λ h. cc)
str_eq_iff (x ∷ a) (y ∷ b) = ground (arith, str_eq_iff a b)

pub str_eq_refl : (a : Str) → str_eq a a ≡ true
str_eq_refl a = (str_eq_iff a a).1 refl

abbrev pub IsAscii : Str → Type 0
IsAscii = All (λ c. c < 128)

pub ascii-IsText : (s : Str) → IsAscii s → IsText s
ascii-IsText [] h = tt
ascii-IsText (c ∷ s) h = (omega arith, ascii-IsText s h.1)

unfoldable pub lower_char : ℕ → ℕ
lower_char c = if leb b'A' c && leb c b'Z' then c + 32 else c

-- What the standard says of `toLowerCase` on a string of ASCII characters.
abbrev pub LowersAscii : (Str → Str) → Type 0
LowersAscii lower = (s : Str) → IsAscii s → lower s ≡ map lower_char s

pub All-append {ℓ κ} :
    {A : Type ℓ} (P : A → Type κ) (xs ys : List A) → All P xs → All P ys → All P (xs ++ ys)
All-append P [] ys h k = k
All-append P (x ∷ xs) ys h k = (h.0, All-append P xs ys h.1 k)
