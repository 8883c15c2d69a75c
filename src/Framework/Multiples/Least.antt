-- ===== src/Framework/Multiples/Least.antt =====
-- The products are exact, and `HFLeastCommonMultiple` is the least common multiple.
use Prim.Native.Nat.{◌∣◌}
use native.Mathlib.Decide.{dec_le}
use native.Mathlib.Nat.{
  mul_comm, mul_assoc, zero-mul, mul-zero, zero-div, add-mul, mul-div_cancel_left,
  div-lt_iff_lt-mul, div-add-mod', mod-lt, dvd_refl, dvd-zero, dvd-mul_left_of_dvd, dvd-mul_right,
  dvd-mul_left, dvd-mod_iff, dvd-add_iff_right, mul-dvd-mul_left, dvd_of_mul-dvd-mul_left,
  div-mul_cancel, mul-div_cancel', pos_of_dvd_of_pos, div-le_self,
}
use hex_fiend.Prelude.{
  ℕ, zero, suc, ◌+◌, ◌*◌, ◌/◌, ◌%◌, ◌≤◌, ◌<◌, none, some, ltb, if◌then◌else◌, ◌≡◌, refl, arith, sym,
  ap, subst, ◌∙◌,
}
use hex_fiend.Framework.Word.{◌>>=◌, IsWord}
use hex_fiend.Framework.Multiples.{
  ◌*w◌, hf_product_does_not_overflow, hf_product_ull, hf_product_int, gcd_loop,
  hf_least_common_multiple,
}

-- A divisor gives back the other factor exactly if the product did not wrap around.
divided-word : (a b : ℕ) → a * b < 18446744073709551616 → 0 < a → (a *w b) / a ≡ b
divided-word a b h pos =
    let same : a *w b ≡ a * b = omega (arith, h) in ap (λ n. n / a) same ∙ mul-div_cancel_left b pos

divided-wrapped : (a b : ℕ) → 18446744073709551616 ≤ a * b → 0 < a → (a *w b) / a < b
divided-wrapped a b h pos =
    let below : a *w b < b * a = omega (arith, mul_comm a b, h) in (div-lt_iff_lt-mul pos).1 below

-- On words, the checked products are the product if that is a word, and fail otherwise.
pub hf_product_lem :
    (a b : ℕ)
    → IsWord a
    → IsWord b
    → (hf_product_int a b ≡ (if ltb (a * b) 18446744073709551616 then some (a * b) else none))
      × (hf_product_ull a b ≡ (if ltb (a * b) 18446744073709551616 then some (a * b) else none))
unfolding hf_product_int hf_product_ull hf_product_does_not_overflow
hf_product_lem zero b ha hb = rw zero-mul (refl, ground (arith, zero-div b))
hf_product_lem (suc a) zero ha hb = rw mul-zero (ground (arith, zero-div (suc a)), refl)
hf_product_lem (suc a) (suc b) ha hb =
    let turned : suc b *w suc a ≡ suc a *w suc b =
      ap (λ n. n % 18446744073709551616) (mul_comm (suc b) (suc a)) in
    elim (dec_le 18446744073709551616 (suc a * suc b)) [
      | yes wraps ↦
          let left = divided-wrapped (suc a) (suc b) wraps (omega arith) in
          let right : (suc a *w suc b) / suc b < suc a =
            subst (λ n. n / suc b < suc a) turned
              (divided-wrapped (suc b) (suc a) (omega (arith, mul_comm (suc a) (suc b), wraps))
                (omega arith)) in
          (ground (arith, left, wraps), ground (arith, right, wraps))
      | no fits ↦
          let left = divided-word (suc a) (suc b) (omega (arith, fits)) (omega arith) in
          let right : (suc a *w suc b) / suc b ≡ suc a =
            ap (λ n. n / suc b) (sym turned)
            ∙ divided-word (suc b) (suc a) (omega (arith, mul_comm (suc a) (suc b), fits))
                (omega arith) in
          (ground (arith, left, fits), ground (arith, right, fits))
    ]

-- The greatest common divisor, by what divides it: `d` divides a multiple of it if it divides the
-- same multiples of both numbers.
pub record IsGcd (g u v : ℕ) : Type 0 where
  pub left : g ∣ u
  pub right : g ∣ v
  pub greatest : (d c : ℕ) → d ∣ u * c → d ∣ v * c → d ∣ g * c

split_multiple : (u v c : ℕ) → u / suc v * (suc v * c) + u % suc v * c ≡ u * c
split_multiple u v c =
    ap (λ n. n + u % suc v * c) (sym (mul_assoc (u / suc v) (suc v) c))
    ∙ sym (add-mul (u / suc v * suc v) (u % suc v) c)
    ∙ ap (λ n. n * c) (div-add-mod' u (suc v))

remainder_dvd : (u v d c : ℕ) → d ∣ u * c → d ∣ suc v * c → d ∣ u % suc v * c
remainder_dvd u v d c hu hv =
    (dvd-add_iff_right d {m = u / suc v * (suc v * c)} {n = u % suc v * c}
        (dvd-mul_left_of_dvd d hv (u / suc v))).1
      (subst (λ n. d ∣ n) (sym (split_multiple u v c)) hu)

step-IsGcd : (g u v : ℕ) → IsGcd g (suc v) (u % suc v) → IsGcd g u (suc v)
step-IsGcd g u v h = record {
  left = (dvd-mod_iff g h.left).0 h.right;
  right = h.left;
  greatest = λ d c hu hv. h.greatest d c hv (remainder_dvd u v d c hu hv);
}

gcd_loop_lem : (fuel u v : ℕ) → v < fuel → (g : ℕ) × (gcd_loop fuel u v ≡ some g) × IsGcd g u v
unfolding gcd_loop
gcd_loop_lem zero u v h = absurd (omega arith)
gcd_loop_lem (suc fuel) u zero h =
    (u, refl, record { left = dvd_refl u; right = dvd-zero u; greatest = λ d c hu hv. hu })
gcd_loop_lem (suc fuel) u (suc v) h =
    let (g, e, is) =
      gcd_loop_lem fuel (suc v) (u % suc v) (omega (arith, mod-lt u {m = suc v} (omega arith))) in
    (g, e, step-IsGcd g u v is)

-- The product that the code forms: a number, divided by the greatest common divisor, and the other.
quotient_product : (g a b : ℕ) → g ∣ a → g * (a / g * b) ≡ a * b
quotient_product g a b h =
    sym (mul_assoc g (a / g) b) ∙ ap (λ n. n * b) (mul_comm g (a / g) ∙ div-mul_cancel g h)

-- A number that both divide is a multiple of that product.
least : (g a b n : ℕ) → 0 < g → IsGcd g a b → a ∣ n → b ∣ n → a / g * b ∣ n
least g a b n pos is ha hb = dvd_of_mul-dvd-mul_left (a / g * b) pos (
    subst (λ m. m ∣ g * n) (sym (quotient_product g a b is.left))
      (is.greatest (a * b) n (mul-dvd-mul_left b a hb)
        (subst (λ m. m ∣ b * n) (mul_comm b a) (mul-dvd-mul_left a b ha))))

left_divides : (g a b : ℕ) → IsGcd g a b → a ∣ a / g * b
left_divides g a b is =
    subst (λ n. a ∣ n)
      (ap (λ n. n * (b / g)) (sym (div-mul_cancel g is.left))
        ∙ mul_assoc (a / g) g (b / g)
        ∙ ap (λ n. a / g * n) (mul-div_cancel' g is.right))
      (dvd-mul_right a (b / g))

-- Of two words that are not 0, `HFLeastCommonMultiple` gives the least common multiple, which
-- divides every other one, if it is a word, and fails otherwise; its loop ends.
pub hf_least_common_multiple_lem :
    (a b : ℕ)
    → IsWord (suc a)
    → IsWord (suc b)
    → (m : ℕ) × (suc a ∣ m)
      × (suc b ∣ m)
      × ((n : ℕ) → suc a ∣ n → suc b ∣ n → m ∣ n)
      × (hf_least_common_multiple (suc a) (suc b)
          ≡ (if ltb m 18446744073709551616 then some m else none))
unfolding hf_least_common_multiple
hf_least_common_multiple_lem a b ha hb =
    let (g, e, is) = gcd_loop_lem (suc (suc b)) (suc a) (suc b) (omega arith) in
    let pos : 0 < g = pos_of_dvd_of_pos is.left (omega arith) in
    (
      suc a / g * suc b,
      left_divides g (suc a) (suc b) is,
      dvd-mul_left (suc b) (suc a / g),
      λ n ha' hb'. least g (suc a) (suc b) n pos is ha' hb',
      ap (λ o. o >>= λ u. hf_product_int (suc a / u) (suc b)) e
          ∙ (hf_product_lem (suc a / g) (suc b) (omega (arith, div-le_self (suc a) g, ha)) hb).0,
    )
