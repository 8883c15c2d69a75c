-- ===== src/Dynsections/Folders/Ids.antt =====
-- The identifiers of the rows of a directory, as the regular expression of `toggleFolder` in
-- docs/docs/dynsections.js reads them, and the order of the rows.
use hex_fiend.Prelude.{
  ℕ, Bool, true, false, not, ◌&&◌, List, [], ◌∷◌, ◌==◌, ==_iff, if◌then◌else◌, Str, ◌≡◌, refl, ap,
  ap₂, sym, ◌∙◌, arith, All, Bool-cases, inl, inr, lower_char, subst,
}
use hex_fiend.Dynsections.{digits_bar, matches_child}
use hex_fiend.Dynsections.Laws.{mem, starts_with}

-- Lower case stays as it is.
abbrev pub IsLower : Str → Type 0
IsLower = All (λ c. lower_char c ≡ c)

-- The last character is `_`.
abbrev pub ends_bar : Str → Bool
ends_bar [] = false
ends_bar (c ∷ []) = c == b'_'
ends_bar (c ∷ d ∷ s) = ends_bar (d ∷ s)

matches_child-cons :
    (p : ℕ) (ps : Str) (c : ℕ) (s : Str)
    → lower_char p ≡ p
    → lower_char c ≡ c
    → matches_child (p ∷ ps) (c ∷ s) ≡ true
    → (c ≡ p) × (matches_child ps s ≡ true)
unfolding matches_child
matches_child-cons p ps c s hp hc h =
    (sym hc ∙ (==_iff (lower_char c) (lower_char p)).0 (ground arith) ∙ hp, ground arith)

-- A child's identifier goes on where the parent's ends.
pub matches_child-starts_with :
    (x y : Str) → IsLower x → IsLower y → matches_child x y ≡ true → starts_with x y ≡ true
unfolding matches_child starts_with
matches_child-starts_with [] y hx hy h = refl
matches_child-starts_with (p ∷ ps) [] hx hy h = absurd (cc h)
matches_child-starts_with (p ∷ ps) (c ∷ s) hx hy h =
    let (same, more) = matches_child-cons p ps c s hx.0 hy.0 h in
    ground (arith, same, matches_child-starts_with ps s hx.1 hy.1 more)

pub starts_with_trans :
    (x y z : Str) → starts_with x y ≡ true → starts_with y z ≡ true → starts_with x z ≡ true
unfolding starts_with
starts_with_trans [] y z h k = refl
starts_with_trans (p ∷ ps) [] z h k = absurd (cc h)
starts_with_trans (p ∷ ps) (c ∷ s) [] h k = absurd (cc k)
starts_with_trans (p ∷ ps) (c ∷ s) (d ∷ t) h k = ground (arith, starts_with_trans ps s t)

-- Digits and a last `_` have no parent's identifier within.
digits-no_parent :
    (seen : Bool) (x y : Str)
    → IsLower x
    → IsLower y
    → ends_bar x ≡ true
    → digits_bar seen y ≡ true
    → matches_child x y ≡ true
    → ⊥
unfolding digits_bar matches_child
digits-no_parent seen [] y hx hy e h k = cc e
digits-no_parent seen (p ∷ ps) [] hx hy e h k = cc k
digits-no_parent seen (p ∷ []) (c ∷ []) hx hy e h k =
    cc (matches_child-cons p [] c [] hx.0 hy.0 k).1
digits-no_parent seen (p ∷ q ∷ ps) (c ∷ []) hx hy e h k =
    cc (matches_child-cons p (q ∷ ps) c [] hx.0 hy.0 k).1
digits-no_parent seen (p ∷ []) (c ∷ d ∷ s) hx hy e h k =
    let (same, more) = matches_child-cons p [] c (d ∷ s) hx.0 hy.0 k in ground (arith, same, e, h)
digits-no_parent seen (p ∷ q ∷ ps) (c ∷ d ∷ s) hx hy e h k =
    let (same, more) = matches_child-cons p (q ∷ ps) c (d ∷ s) hx.0 hy.0 k in
    digits-no_parent true (q ∷ ps) (d ∷ s) hx.1 hy.1 e (ground arith) more

-- An identifier has one parent.
pub matches_child_unique :
    (x y z : Str)
    → IsLower x
    → IsLower y
    → IsLower z
    → ends_bar x ≡ true
    → ends_bar y ≡ true
    → matches_child x z ≡ true
    → matches_child y z ≡ true
    → x ≡ y
unfolding matches_child
matches_child_unique [] y z hx hy hz ex ey h k = absurd (cc ex)
matches_child_unique (p ∷ ps) [] z hx hy hz ex ey h k = absurd (cc ey)
matches_child_unique (p ∷ ps) (q ∷ qs) [] hx hy hz ex ey h k = absurd (cc h)
matches_child_unique (p ∷ []) (q ∷ []) (c ∷ s) hx hy hz ex ey h k =
    ap (λ b. b ∷ []) (ground (arith, ex, ey))
matches_child_unique (p ∷ []) (q ∷ r ∷ qs) (c ∷ s) hx hy hz ex ey h k = absurd (
    digits-no_parent false (r ∷ qs) s hy.1 hz.1 ey (matches_child-cons p [] c s hx.0 hz.0 h).1
      (matches_child-cons q (r ∷ qs) c s hy.0 hz.0 k).1)
matches_child_unique (p ∷ r ∷ ps) (q ∷ []) (c ∷ s) hx hy hz ex ey h k = absurd (
    digits-no_parent false (r ∷ ps) s hx.1 hz.1 ex (matches_child-cons q [] c s hy.0 hz.0 k).1
      (matches_child-cons p (r ∷ ps) c s hx.0 hz.0 h).1)
matches_child_unique (p ∷ r ∷ ps) (q ∷ t ∷ qs) (c ∷ s) hx hy hz ex ey h k =
    let (left, more) = matches_child-cons p (r ∷ ps) c s hx.0 hz.0 h in
    let (right, rest) = matches_child-cons q (t ∷ qs) c s hy.0 hz.0 k in
    ap₂ ◌∷◌ (sym left ∙ right)
      (matches_child_unique (r ∷ ps) (t ∷ qs) s hx.1 hy.1 hz.1 ex ey more rest)

-- The elements after one.
abbrev pub after : ℕ → List ℕ → List ℕ
after e [] = []
after e (x ∷ xs) = let rest = after e xs in if e == x then xs else rest

unfoldable pub distinct : List ℕ → Bool
unfolding mem
distinct [] = true
distinct (x ∷ xs) = not (mem x xs) && distinct xs

after-mem : (e c : ℕ) (xs : List ℕ) → mem c (after e xs) ≡ true → mem c xs ≡ true
unfolding mem
after-mem e c [] h = h
after-mem e c (x ∷ xs) h = elim (Bool-cases (e == x)) [
  | inl at ↦ ground (arith, at, h)
  | inr other ↦ ground (arith, other, after-mem e c xs)
]

after-tail : (r c x : ℕ) (xs : List ℕ) → mem c (after r (x ∷ xs)) ≡ true → mem c xs ≡ true
after-tail r c x xs k = elim (Bool-cases (r == x)) [
  | inl at ↦ ground (arith, at, k)
  | inr other ↦ after-mem r c xs (ground (arith, other, k))
]

after-other :
    (r c x : ℕ) (xs : List ℕ)
    → (r == x) ≡ false
    → mem c (after r (x ∷ xs)) ≡ true
    → mem c (after r xs) ≡ true
after-other r c x xs other k = ground (arith, other, k)

mem-same : (r x : ℕ) (xs : List ℕ) → (r == x) ≡ true → mem r xs ≡ true → mem x xs ≡ true
mem-same r x xs at m = subst (λ n. mem n xs ≡ true) ((==_iff r x).0 at) m

-- What comes after an element comes after all that are in front of it.
pub after_trans :
    (e r c : ℕ) (xs : List ℕ)
    → distinct xs ≡ true
    → mem r (after e xs) ≡ true
    → mem c (after r xs) ≡ true
    → mem c (after e xs) ≡ true
unfolding distinct
after_trans e r c [] n h k = k
after_trans e r c (x ∷ xs) n h k = elim (Bool-cases (e == x)) [
  | inl at ↦ rw at (after-tail r c x xs k)
  | inr other ↦
      let in_rest = after-other e r x xs other h in
      rw other (elim (Bool-cases (r == x)) [
        | inl same ↦ absurd (ground (arith, n, mem-same r x xs same (after-mem e r xs in_rest)))
        | inr differs ↦
            after_trans e r c xs (ground (arith, n)) in_rest (after-other r c x xs differs k)
      ])
]
