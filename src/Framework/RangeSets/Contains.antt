-- ===== src/Framework/RangeSets/Contains.antt =====
-- What HFRangeSetContainsAllRange of framework/sources/HFFunctions.m decides.
use native.Mathlib.Decide.{dec_le}
use hex_fiend.Prelude.{
  ℕ, suc, ◌+◌, ◌%◌, ◌≤◌, ◌<◌, Bool, true, false, ◌&&◌, ◌||◌, List, [], ◌∷◌, some, ltb, leb, ◌==◌,
  if◌then◌else◌, get_elem?, length, All, ◌≡◌, refl, subst, arith, ap, sym, ◌∙◌, Bool-cases, inl,
  inr,
}

-- The fenceposts rise.
abbrev pub IsRising : List ℕ → Type 0
IsRising [] = Unit
IsRising (p ∷ ps) = All (λ q. p < q) ps × IsRising ps

-- The ranges that the fenceposts stand for have the location.
unfoldable pub included : ℕ → List ℕ → Bool
included x [] = false
included x (p ∷ []) = false
included x (p ∷ q ∷ ps) = (leb p x && ltb x q) || included x ps

-- The number of fenceposts in front of a location.
unfoldable pub below : ℕ → List ℕ → ℕ
below v [] = 0
below v (p ∷ ps) = let rest = below v ps in if ltb p v then suc rest else rest

-- The search finds the first fencepost that is not less than the number.
abbrev pub Finds : (List ℕ → ℕ → ℕ) → Type 0
Finds search = (xs : List ℕ) (v : ℕ) → IsRising xs → search xs v ≡ below v xs

pub below-zero : (v p : ℕ) (ps : List ℕ) → v ≤ suc p → All (λ q. p < q) ps → below v ps ≡ 0
unfolding below
below-zero v p [] h k = refl
below-zero v p (q ∷ ps) h k = ground (arith, h, k.0, below-zero v p ps h k.1)

pub below-length : (v : ℕ) (ps : List ℕ) → below v ps ≤ length ps
unfolding below
below-length v [] = omega arith
below-length v (p ∷ ps) = ground (arith, below-length v ps)

pub below_mono : (v w : ℕ) (ps : List ℕ) → v ≤ w → below v ps ≤ below w ps
unfolding below
below_mono v w [] h = omega arith
below_mono v w (p ∷ ps) h = ground (arith, h, below_mono v w ps h)

-- At one location there is at most one fencepost.
pub below-step : (v : ℕ) (ps : List ℕ) → IsRising ps → below (suc v) ps ≤ suc (below v ps)
unfolding below
below-step v [] h = omega arith
below-step v (p ∷ ps) h = elim (Bool-cases (p == v)) [
  | inl at ↦
      let zero_after : below (suc v) ps ≡ 0 = below-zero (suc v) p ps (ground (arith, at)) h.0 in
      ground (arith, at, zero_after)
  | inr other ↦ ground (arith, other, below-step v ps h.1)
]

below-nil : (v : ℕ) → below v [] ≡ 0
unfolding below
below-nil v = refl

pub below-past : (x p : ℕ) (ps : List ℕ) → p ≤ x → below (suc x) (p ∷ ps) ≡ suc (below (suc x) ps)
unfolding below
below-past x p ps h = ground (arith, h)

below-front : (x p : ℕ) (ps : List ℕ) → x < p → below (suc x) (p ∷ ps) ≡ below (suc x) ps
unfolding below
below-front x p ps h = ground (arith, h)

pub below-after : (v p : ℕ) (ps : List ℕ) → p < v → below v (p ∷ ps) ≡ suc (below v ps)
unfolding below
below-after v p ps h = ground (arith, h)

pub below-here : (v p : ℕ) (ps : List ℕ) → v ≤ p → All (λ q. p < q) ps → below v (p ∷ ps) ≡ 0
unfolding below
below-here v p ps h k = ground (arith, h, below-zero v p ps (omega (arith, h)) k)

-- The fencepost that the search finds is the number itself exactly if it counts from there on.
pub below-value :
    (v p : ℕ) (ps : List ℕ)
    → IsRising ps
    → get_elem? ps (below v ps) ≡ some p
    → below (suc v) ps ≡ below v ps + (if p == v then 1 else 0)
below-value v p [] h at = absurd (cc at)
below-value v p (q ∷ ps) h at = elim (dec_le v q) [
  | yes here ↦
      let none_front = below-here v q ps here h.0 in
      let first : q ≡ p = cc (subst (λ n. get_elem? (q ∷ ps) n ≡ some p) none_front at) in
      let more : below (suc v) ps ≡ 0 = below-zero (suc v) q ps (omega (arith, here)) h.0 in
      elim (Bool-cases (p == v)) [
        | inl same ↦
            below-past v q ps (ground (arith, same, first)) ∙ ground (arith, more, none_front, same)
        | inr other ↦
            below-front v q ps (ground (arith, other, first, here))
            ∙ ground (arith, more, none_front, other)
      ]
  | no past ↦
      let counted = below-after v q ps (omega (arith, past)) in
      let later = below-value v p ps h.1 (subst (λ n. get_elem? (q ∷ ps) n ≡ some p) counted at) in
      below-past v q ps (omega (arith, past)) ∙ ground (arith, counted, later)
]

odd-two : (n : ℕ) → (suc (suc n) % 2 == 1) ≡ (n % 2 == 1)
odd-two n = ground arith

included-past : (x p q : ℕ) (ps : List ℕ) → q ≤ x → included x (p ∷ q ∷ ps) ≡ included x ps
unfolding included
included-past x p q ps h = ground (arith, h)

included-within : (x p q : ℕ) (ps : List ℕ) → p ≤ x → x < q → included x (p ∷ q ∷ ps) ≡ true
unfolding included
included-within x p q ps h k = ground (arith, h, k)

included-front : (x p q : ℕ) (ps : List ℕ) → x < p → included x (p ∷ q ∷ ps) ≡ included x ps
unfolding included
included-front x p q ps h = ground (arith, h)

-- A location is in the set exactly if an odd number of fenceposts is at it or in front of it.
pub included-below :
    (x : ℕ) (ps : List ℕ)
    → IsRising ps
    → length ps % 2 ≡ 0
    → included x ps ≡ (below (suc x) ps % 2 == 1)
unfolding included
included-below x [] h e = ap (λ n. n % 2 == 1) (sym (below-nil (suc x)))
included-below x (p ∷ []) h e = absurd (cc e)
included-below x (p ∷ q ∷ ps) h e =
    let rest = included-below x ps h.1.1 (omega (arith, e)) in
    elim (dec_le q x) [
      | yes past ↦
          included-past x p q ps past
          ∙ rest
          ∙ sym (odd-two (below (suc x) ps))
          ∙ ap (λ n. n % 2 == 1)
              (sym (
                below-past x p (q ∷ ps) (omega (arith, past, h.0.0))
                ∙ ap suc (below-past x q ps past)))
      | no front ↦
          let none_after : below (suc x) ps ≡ 0 =
            below-zero (suc x) q ps (omega (arith, front)) h.1.0 in
          elim (dec_le p x) [
            | yes within ↦
                included-within x p q ps within (omega (arith, front))
                ∙ ap (λ n. n % 2 == 1)
                    (sym (
                      below-past x p (q ∷ ps) within
                      ∙ ap suc (below-front x q ps (omega (arith, front)) ∙ none_after)))
            | no before ↦
                included-front x p q ps (omega (arith, before))
                ∙ rest
                ∙ ap (λ n. n % 2 == 1)
                    (sym (
                      below-front x p (q ∷ ps) (omega (arith, before))
                      ∙ below-front x q ps (omega (arith, front))))
          ]
    ]
