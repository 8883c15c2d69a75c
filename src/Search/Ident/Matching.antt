-- ===== src/Search/Ident/Matching.antt =====
-- The codes of two characters are never one a prefix of the other, so that identifiers match
-- exactly where the words do.
use hex_fiend.Prelude.{
  ℕ, ◌/◌, ◌%◌, ◌<◌, true, false, ◌&&◌, [], ◌∷◌, ◌++◌, ◌≡◌, refl, ltb, ◌==◌, Str, append_assoc,
  append-nil, arith, ◌↔◌, length-append, ◌∙◌, sym, ap, IsText, length, inl, inr, Bool-cases,
}
use hex_fiend.Prelude.Digits.{digit, to_string-small, to_string-two}
use hex_fiend.Search.Ident.{is_prefix, stands_for_itself, convert_char, convert_from, convert_to_id}

pub is_prefix-cons : (c d : ℕ) (s t : Str) → is_prefix (c ∷ s) (d ∷ t) ≡ (d == c && is_prefix s t)
unfolding is_prefix
is_prefix-cons c d s t = ground arith

convert_from_lem : (result s : Str) → convert_from result s ≡ result ++ convert_from [] s
unfolding convert_from
convert_from_lem result [] = sym (append-nil result)
convert_from_lem result (c ∷ s) =
    convert_from_lem (result ++ convert_char c) s
    ∙ append_assoc result (convert_char c) (convert_from [] s)
    ∙ ap (λ r. result ++ r) (sym (convert_from_lem (convert_char c) s))

pub convert_to_id-cons :
    (c : ℕ) (s : Str) → convert_to_id (c ∷ s) ≡ convert_char c ++ convert_to_id s
unfolding convert_to_id
convert_to_id-cons c s = convert_from_lem (convert_char c) s

-- The code of a character that does not stand for itself has three characters.
pub escaped_char :
    (c : ℕ)
    → c < 0x10000
    → stands_for_itself c ≡ false
    → convert_char c ≡ b'_' ∷ digit (c / 16) ∷ digit (c % 16) ∷ []
unfolding convert_char
escaped_char c h e = elim (Bool-cases (ltb c 16)) [
  | inl small ↦ rw (e, small) (ground (arith, to_string-small 16 c))
  | inr large ↦ rw (e, large) (ground (arith, to_string-two 16 c))
]

pub plain_char : (c : ℕ) → stands_for_itself c ≡ true → convert_char c ≡ c ∷ []
unfolding convert_char
plain_char c h = rw h

pub escaped_lt : (c : ℕ) → c < 0x10000 → stands_for_itself c ≡ false → c < 128
unfolding stands_for_itself
escaped_lt c h e = ground arith

digit_inj : (a b : ℕ) → a < 16 → b < 16 → digit a ≡ digit b → a ≡ b
unfolding digit
digit_inj a b ha hb e = ground arith

plain_escaped :
    (c d : ℕ) (x y : Str)
    → stands_for_itself c ≡ true
    → stands_for_itself d ≡ false
    → is_prefix (c ∷ x) (b'_' ∷ digit (d / 16) ∷ digit (d % 16) ∷ y) ≡ (d == c && is_prefix x y)
unfolding stands_for_itself
plain_escaped c d x y hc hd =
    rw (is_prefix-cons c b'_' x (digit (d / 16) ∷ digit (d % 16) ∷ y)) (ground arith)

escaped_plain :
    (c d : ℕ) (x y : Str)
    → stands_for_itself c ≡ false
    → stands_for_itself d ≡ true
    → is_prefix (b'_' ∷ digit (c / 16) ∷ digit (c % 16) ∷ x) (d ∷ y) ≡ (d == c && is_prefix x y)
unfolding stands_for_itself
escaped_plain c d x y hc hd =
    rw (is_prefix-cons b'_' d (digit (c / 16) ∷ digit (c % 16) ∷ x) y) (ground arith)

escaped_escaped :
    (c d : ℕ) (x y : Str)
    → c < 0x10000
    → d < 0x10000
    → stands_for_itself c ≡ false
    → stands_for_itself d ≡ false
    → is_prefix
        (b'_' ∷ digit (c / 16) ∷ digit (c % 16) ∷ x)
        (b'_' ∷ digit (d / 16) ∷ digit (d % 16) ∷ y)
      ≡ (d == c && is_prefix x y)
escaped_escaped c d x y hc hd ec ed =
    let c' = escaped_lt c hc ec in
    let d' = escaped_lt d hd ed in
    rw (is_prefix-cons, is_prefix-cons, is_prefix-cons)
      (ground (arith, digit_inj (d / 16) (c / 16), digit_inj (d % 16) (c % 16)))

is_prefix-convert_char :
    (c d : ℕ) (x y : Str)
    → c < 0x10000
    → d < 0x10000
    → is_prefix (convert_char c ++ x) (convert_char d ++ y) ≡ (d == c && is_prefix x y)
is_prefix-convert_char c d x y hc hd = elim (Bool-cases (stands_for_itself c)) [
  | inl cs ↦ elim (Bool-cases (stands_for_itself d)) [
    | inl ds ↦ rw (plain_char c cs, plain_char d ds) (is_prefix-cons c d x y)
    | inr de ↦ rw (plain_char c cs, escaped_char d hd de) (plain_escaped c d x y cs de)
  ]
  | inr ce ↦ elim (Bool-cases (stands_for_itself d)) [
    | inl ds ↦ rw (escaped_char c hc ce, plain_char d ds) (escaped_plain c d x y ce ds)
    | inr de ↦ rw (escaped_char c hc ce, escaped_char d hd de) (escaped_escaped c d x y hc hd ce de)
  ]
]

pub is_prefix-nil : (s : Str) → is_prefix [] s ≡ true
unfolding is_prefix
is_prefix-nil s = ground arith

is_prefix-cons_nil : (c : ℕ) (s : Str) → is_prefix (c ∷ s) [] ≡ false
unfolding is_prefix
is_prefix-cons_nil c s = ground arith

pub convert_to_id-nil : convert_to_id [] ≡ []
unfolding convert_to_id
convert_to_id-nil = refl

is_prefix-convert_char_nil : (c : ℕ) (x : Str) → is_prefix (convert_char c ++ x) [] ≡ false
unfolding is_prefix convert_char
is_prefix-convert_char_nil c x = ground arith

-- For words of 16-bit code units, the identifier of one is at the front of the identifier of the
-- other exactly if the word is at the front of the other word.
pub is_prefix-convert_to_id :
    (s t : Str)
    → IsText s
    → IsText t
    → is_prefix (convert_to_id s) (convert_to_id t) ≡ is_prefix s t
is_prefix-convert_to_id [] t hs ht =
    rw convert_to_id-nil (is_prefix-nil (convert_to_id t) ∙ sym (is_prefix-nil t))
is_prefix-convert_to_id (c ∷ s) [] hs ht =
    rw (convert_to_id-cons c s, convert_to_id-nil)
      (is_prefix-convert_char_nil c (convert_to_id s) ∙ sym (is_prefix-cons_nil c s))
is_prefix-convert_to_id (c ∷ s) (d ∷ t) hs ht =
    rw
      (
        convert_to_id-cons c s,
        convert_to_id-cons d t,
        is_prefix-cons c d s t,
        ← is_prefix-convert_to_id s t hs.1 ht.1,
      )
      (is_prefix-convert_char c d (convert_to_id s) (convert_to_id t) hs.0 ht.0)

and_both :
    (c d : ℕ) (s t : Str) → is_prefix (c ∷ s) (d ∷ t) ≡ true → (d ≡ c) × (is_prefix s t ≡ true)
and_both c d s t h = ground (arith, is_prefix-cons c d s t)

-- The test decides that the name goes on where the word ends.
pub is_prefix_iff : (s t : Str) → (is_prefix s t ≡ true) ↔ ((rest : Str) × (t ≡ s ++ rest))
is_prefix_iff [] t = (λ _. (t, refl), λ _. is_prefix-nil t)
is_prefix_iff (c ∷ s) [] = (λ h. absurd (cc (is_prefix-cons_nil c s)), λ (r, e). absurd (cc))
is_prefix_iff (c ∷ s) (d ∷ t) = (
  λ h. let (same, more) = and_both c d s t h in let (r, e) = (is_prefix_iff s t).0 more in (r, cc),
  λ (r, e). ground (arith, is_prefix-cons c d s t, (is_prefix_iff s t).1 (r, cc)),
)

append_antisym : (s t r q : Str) → t ≡ s ++ r → s ≡ t ++ q → s ≡ t
append_antisym s t [] q e f = sym (append-nil s) ∙ sym e
append_antisym s t (x ∷ r) q e f =
    absurd
      (omega (arith, ap length e, ap length f, length-append {0} s (x ∷ r), length-append {0} t q))

is_prefix-antisym : (s t : Str) → is_prefix s t ≡ true → is_prefix t s ≡ true → s ≡ t
is_prefix-antisym s t h k =
    let (r, e) = (is_prefix_iff s t).0 h in
    let (q, f) = (is_prefix_iff t s).0 k in append_antisym s t r q e f

is_prefix_refl : (s : Str) → is_prefix s s ≡ true
is_prefix_refl s = (is_prefix_iff s s).1 ([], sym (append-nil s))

-- Words of 16-bit code units with the same identifier are the same.
pub convert_to_id-injective :
    (s t : Str) → IsText s → IsText t → convert_to_id s ≡ convert_to_id t → s ≡ t
convert_to_id-injective s t hs ht e =
    is_prefix-antisym s t
      (sym (is_prefix-convert_to_id s t hs ht) ∙ rw e (is_prefix_refl (convert_to_id t)))
      (sym (is_prefix-convert_to_id t s ht hs) ∙ rw e (is_prefix_refl (convert_to_id t)))
