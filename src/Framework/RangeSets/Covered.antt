-- ===== src/Framework/RangeSets/Covered.antt =====
-- HFRangeSetContainsAllRange of framework/sources/HFFunctions.m decides whether a range is covered.
use native.Mathlib.Decide.{dec_le}
use hex_fiend.Prelude.{
  ℕ, zero, suc, ◌+◌, ◌-◌, ◌%◌, ◌≤◌, ◌<◌, Bool, true, false, ◌&&◌, ◌||◌, List, [], ◌∷◌, some, ltb,
  leb, ◌==◌, if◌then◌else◌, get_elem?, length, ◌≡◌, ◌↔◌, refl, arith, ap, sym, ◌∙◌, Bool-cases, inl,
  inr,
}
use hex_fiend.Framework.RangeSets.{hf_range_set_contains_all_range}
use hex_fiend.Framework.RangeSets.Contains.{
  IsRising, included, below, Finds, below-length, below_mono, below-step, below-value,
  included-below,
}

-- Each number of fenceposts on the way is met.
pub reach :
    (a n t : ℕ) (ps : List ℕ)
    → IsRising ps
    → below (suc a) ps ≤ t
    → t ≤ below (suc (a + n)) ps
    → (m : ℕ) × (m ≤ n) × (below (suc (a + m)) ps ≡ t)
reach a zero t ps rising lo hi =
    let same : a + 0 ≡ a = omega arith in
    let at : below (suc (a + 0)) ps ≡ below (suc a) ps = ap (λ z. below (suc z) ps) same in
    (0, omega arith, omega (arith, lo, hi, at))
reach a (suc n) t ps rising lo hi = elim (dec_le t (below (suc (a + n)) ps)) [
  | yes sooner ↦ let (m, le, e) = reach a n t ps rising lo sooner in (m, omega (arith, le), e)
  | no last ↦
      let next : below (suc (a + suc n)) ps ≡ below (suc (suc (a + n))) ps =
        ap (λ z. below (suc z) ps) (omega arith) in
      (suc n, omega arith, omega (arith, last, hi, next, below-step (suc (a + n)) ps rising))
]

pub get_elem-some : (xs : List ℕ) (i : ℕ) → i < length xs → (p : ℕ) × (get_elem? xs i ≡ some p)
get_elem-some [] i h = absurd (omega arith)
get_elem-some (x ∷ xs) zero h = (x, refl)
get_elem-some (x ∷ xs) (suc i) h = get_elem-some xs i (omega (arith, h))

module _ (search : List ℕ → ℕ → ℕ) (xs : List ℕ) (a b : ℕ) (finds : Finds search)
    (rising : IsRising xs) (even : length xs % 2 ≡ 0) (less : a < b) where
  -- All locations of the range are in the set.
  abbrev Covered : Type 0
  Covered = (x : ℕ) → a ≤ x → x < b → included x xs ≡ true

  -- A location with an even number of fenceposts is a gap.
  gap : (x : ℕ) → a ≤ x → x < b → below (suc x) xs % 2 ≡ 0 → (false ≡ true) ↔ Covered
  gap x lo hi h = (
    λ e. absurd (cc e),
    λ covered. absurd (ground (arith, h, sym (included-below x xs rising even) ∙ covered x lo hi)),
  )

  last_gap : below b xs % 2 ≡ 0 → (false ≡ true) ↔ Covered
  last_gap h =
      let n : ℕ = b - 1 in
      let last : suc n ≡ b = omega (arith, less) in
      gap n (omega (arith, less)) (omega (arith, less)) (ap (λ z. below z xs % 2) last ∙ h)

  far_gap : below a xs + 2 ≤ below b xs → (false ≡ true) ↔ Covered
  far_gap far = elim (dec_le 1 (below (suc a) xs % 2)) [
    | no clean ↦ gap a (omega arith) less (omega (arith, clean))
    | yes odd ↦
        let n : ℕ = b - 1 - a in
        let end_ : suc (a + n) ≡ b = omega (arith, less) in
        let (m, le, e) =
          reach a n (suc (below (suc a) xs)) xs rising (omega arith)
            (omega (arith, far, below-step a xs rising, ap (λ z. below z xs) end_)) in
        gap (a + m) (omega arith) (omega (arith, le, end_)) (omega (arith, e, odd))
  ]

  -- Where the number of fenceposts in front is the same at both ends, and odd, there is no gap.
  no_gap_between : below (suc a) xs ≡ below b xs → below b xs % 2 ≡ 1 → (true ≡ true) ↔ Covered
  no_gap_between same odd = (
    λ e x lo hi.
        included-below x xs rising even
        ∙ ground (
          arith,
          same,
          odd,
          below_mono (suc a) (suc x) xs (omega (arith, lo)),
          below_mono (suc x) b xs (omega (arith, hi)),
        ),
    λ covered. refl,
  )

  -- The range starts behind the last fencepost, or ends in front of the first.
  outside_gap : (leb (length xs) (below a xs) || below b xs == 0) ≡ true → (false ≡ true) ↔ Covered
  outside_gap h = elim (dec_le (length xs) (below a xs)) [
    | yes behind ↦ gap a (omega arith) less (
        ap (λ n. n % 2)
          (omega (arith, behind, below-length (suc a) xs, below_mono a (suc a) xs (omega arith)))
        ∙ even)
    | no front ↦
        let none_front : below b xs ≡ 0 = ground (arith, h, front) in
        last_gap (ap (λ n. n % 2) none_front)
  ]

  -- The last test, where the numbers of the two ends differ by one at most.
  near_answer :
      (p : ℕ)
      → get_elem? xs (below a xs) ≡ some p
      → below b xs < below a xs + 2
      → below b xs % 2 ≡ 1
      → (r : Bool) × ((below a xs == (if p == a then below b xs - 1 else below b xs)) ≡ r)
        × ((r ≡ true) ↔ Covered)
  near_answer p at near odd =
      let first = below-value a p xs rising at in
      let front = below_mono (suc a) b xs less in
      elim (Bool-cases (p == a)) [
        | inl own ↦
            let counted : below (suc a) xs ≡ below a xs + 1 =
              first ∙ ap (λ c. below a xs + (if c then 1 else 0)) own in
            (
              true,
              rw own (ground (arith, counted, front, near)),
              no_gap_between (omega (arith, counted, front, near)) odd,
            )
        | inr other ↦
            let counted : below (suc a) xs ≡ below a xs + 0 =
              first ∙ ap (λ c. below a xs + (if c then 1 else 0)) other in
            elim (dec_le (below b xs) (below a xs)) [
              | yes same ↦ (
                true,
                rw other (ground (arith, counted, front, same)),
                no_gap_between (omega (arith, counted, front, same)) odd,
              )
              | no differ ↦ (
                false,
                rw other (ground (arith, differ)),
                gap a (omega arith) less (omega (arith, counted, near, differ, odd)),
              )
            ]
      ]

  -- For fenceposts that rise, of an even number, `HFRangeSetContainsAllRange` returns, and says
  -- exactly whether every location of the range, which is not empty, is in the set. The search of the
  -- array finds the first fencepost that is not less than a number.
  pub hf_range_set_contains_all_range_lem :
      (r : Bool) × (hf_range_set_contains_all_range search xs a b ≡ some r)
      × ((r ≡ true) ↔ ((x : ℕ) → a ≤ x → x < b → included x xs ≡ true))
  unfolding hf_range_set_contains_all_range
  hf_range_set_contains_all_range_lem =
      let checked : (ltb a b && length xs % 2 == 0) ≡ true = ground (arith, less, even) in
      let at_a = finds xs a rising in
      let at_b = finds xs b rising in
      let inside = below-length a xs in
      elim (Bool-cases (leb (length xs) (below a xs) || below b xs == 0)) [
        | inl outside ↦ (false, rw (checked, at_a, at_b, outside) refl, outside_gap outside)
        | inr within ↦ elim (Bool-cases (leb (below a xs + 2) (below b xs))) [
          | inl far ↦
              (false, rw (checked, at_a, at_b, within, far) refl, far_gap (ground (arith, far)))
          | inr near ↦ elim (Bool-cases (below b xs % 2 == 1)) [
            | inl odd ↦
                let (p, at) = get_elem-some xs (below a xs) (ground (arith, within)) in
                let (r, e, means) = near_answer p at (ground (arith, near)) (ground (arith, odd)) in
                (r, rw (checked, at_a, at_b, within, near, odd, at) (ap (λ c. some c) e), means)
            | inr clean ↦ (
              false,
              rw (checked, at_a, at_b, within, near, clean) refl,
              last_gap (ground (arith, clean)),
            )
          ]
        ]
      ]
