-- ===== src/Framework/RangeSets/Overlap.antt =====
-- HFRangeSetOverlapsAnyRange of framework/sources/HFFunctions.m decides whether a range meets the set.
use native.Mathlib.Decide.{dec_le}
use hex_fiend.Prelude.{
  ℕ, zero, suc, ◌+◌, ◌-◌, ◌%◌, ◌≤◌, ◌<◌, Bool, true, false, ◌&&◌, ◌||◌, List, [], ◌∷◌, some, ltb,
  leb, ◌==◌, ==_iff, if◌then◌else◌, get_elem?, length, All, ◌≡◌, ◌≢◌, ◌↔◌, refl, subst, arith, ap,
  sym, ◌∙◌, Bool-cases, inl, inr,
}
use hex_fiend.Framework.Word.{◌>>=◌}
use hex_fiend.Framework.RangeSets.{hf_range_set_overlaps_any_range}
use hex_fiend.Framework.RangeSets.Contains.{
  IsRising, included, below, Finds, below-length, below_mono, below-step, below-value,
  included-below, below-zero, below-past, below-after, below-here,
}
use hex_fiend.Framework.RangeSets.Covered.{reach, get_elem-some}

All-get : (p : ℕ) (ps : List ℕ) (k q : ℕ) → All (λ r. p < r) ps → get_elem? ps k ≡ some q → p < q
All-get p [] k q h e = absurd (cc e)
All-get p (r ∷ ps) zero q h e = let same : r ≡ q = cc e in subst (λ s. p < s) same h.0
All-get p (r ∷ ps) (suc k) q h e = All-get p ps k q h.1 e

-- A fencepost has as many in front of it as its place says.
below-at :
    (ps : List ℕ) (k q : ℕ)
    → IsRising ps
    → get_elem? ps k ≡ some q
    → (below q ps ≡ k) × (below (suc q) ps ≡ suc k)
below-at [] k q h e = absurd (cc e)
below-at (p ∷ ps) zero q h e =
    let same : p ≡ q = cc e in
    subst (λ s. (below s (p ∷ ps) ≡ 0) × (below (suc s) (p ∷ ps) ≡ 1)) same
      (
        below-here p p ps (omega arith) h.0,
        below-past p p ps (omega arith) ∙ ap suc (below-zero (suc p) p ps (omega arith) h.0),
      )
below-at (p ∷ ps) (suc k) q h e =
    let above = All-get p ps k q h.0 e in
    let (front, at) = below-at ps k q h.1 e in
    (below-after q p ps above ∙ ap suc front, below-past q p ps (omega (arith, above)) ∙ ap suc at)

module _ (search : List ℕ → ℕ → ℕ) (xs : List ℕ) (a b : ℕ) (finds : Finds search)
    (rising : IsRising xs) (even : length xs % 2 ≡ 0) (less : a < b) where
  -- A location of the range is in the set.
  abbrev Met : Type 0
  Met = (x : ℕ) × (a ≤ x) × (x < b) × (included x xs ≡ true)

  met : (x : ℕ) → a ≤ x → x < b → below (suc x) xs % 2 ≡ 1 → (true ≡ true) ↔ Met
  met x lo hi odd =
      (λ e. (x, lo, hi, included-below x xs rising even ∙ ground (arith, odd)), λ m. refl)

  -- The number of fenceposts is the same and even on the way.
  not_met : (n : ℕ) → n % 2 ≡ 0 → n ≤ below (suc a) xs → below b xs ≤ n → (false ≡ true) ↔ Met
  not_met n clean lo hi = (
    λ e. absurd (cc e),
    λ (x, above, under, inside).
        let left = below_mono (suc a) (suc x) xs (omega (arith, above)) in
        let right = below_mono (suc x) b xs (omega (arith, under)) in
        let same : below (suc x) xs ≡ n = omega (arith, lo, hi, left, right) in
        absurd (ground (arith, same, clean, sym (included-below x xs rising even) ∙ inside)),
  )

  far_met : below a xs + 2 ≤ below b xs → (true ≡ true) ↔ Met
  far_met far = elim (dec_le 1 (below (suc a) xs % 2)) [
    | yes odd ↦ met a (omega arith) less (omega (arith, odd))
    | no clean ↦
        let n : ℕ = b - 1 - a in
        let end_ : suc (a + n) ≡ b = omega (arith, less) in
        let (m, le, e) =
          reach a n (suc (below (suc a) xs)) xs rising (omega arith)
            (omega (arith, far, below-step a xs rising, ap (λ z. below z xs) end_)) in
        met (a + m) (omega arith) (omega (arith, le, end_)) (omega (arith, e, clean))
  ]

  outside_not_met : (leb (length xs) (below a xs) || below b xs == 0) ≡ true → (false ≡ true) ↔ Met
  outside_not_met h = elim (dec_le (length xs) (below a xs)) [
    | yes behind ↦
        not_met (length xs) even (omega (arith, behind, below_mono a (suc a) xs (omega arith)))
          (below-length b xs)
    | no front ↦ not_met 0 refl (omega arith) (ground (arith, h, front))
  ]

  -- The range starts at a fencepost that is not the last.
  own_answer :
      (p : ℕ)
      → get_elem? xs (below a xs) ≡ some p
      → (p == a) ≡ true
      → below b xs < below a xs + 2
      → suc (below a xs) < length xs
      → (r : Bool) × ((if below a xs % 2 == 0
            then some true
            else (get_elem? xs (below a xs + 1) >>= λ next. some (ltb next b)))
          ≡ some r)
        × ((r ≡ true) ↔ Met)
  own_answer p at own near more =
      let counted : below (suc a) xs ≡ below a xs + 1 =
        below-value a p xs rising at ∙ ap (λ c. below a xs + (if c then 1 else 0)) own in
      elim (Bool-cases (below a xs % 2 == 0)) [
        | inl clean ↦
            (true, rw clean refl, met a (omega arith) less (ground (arith, counted, clean)))
        | inr odd ↦
            let (q, next) = get_elem-some xs (below a xs + 1) (omega (arith, more)) in
            let (_, past) = below-at xs (below a xs + 1) q rising next in
            let behind : ltb q b ≡ false = elim (dec_le (suc q) b) [
              | yes before ↦ absurd (omega (arith, past, near, below_mono (suc q) b xs before))
              | no after ↦ ground (arith, after)
            ] in
            (
              false,
              rw (odd, next, behind) refl,
              not_met (below a xs + 1) (ground (arith, odd)) (omega (arith, counted))
                  (omega (arith, near)),
            )
      ]

  -- The range starts between fenceposts.
  between_answer :
      (p : ℕ)
      → get_elem? xs (below a xs) ≡ some p
      → (p == a) ≡ false
      → (r : Bool) × ((if below a xs % 2 == 1 then some true else some (ltb p b)) ≡ some r)
        × ((r ≡ true) ↔ Met)
  between_answer p at other =
      let counted : below (suc a) xs ≡ below a xs + 0 =
        below-value a p xs rising at ∙ ap (λ c. below a xs + (if c then 1 else 0)) other in
      let (front, past) = below-at xs (below a xs) p rising at in
      elim (Bool-cases (below a xs % 2 == 1)) [
        | inl odd ↦ (true, rw odd refl, met a (omega arith) less (ground (arith, counted, odd)))
        | inr clean ↦ elim (Bool-cases (ltb p b)) [
          | inl before ↦
              let above : a ≤ p = elim (dec_le a p) [
                | yes le ↦ le
                | no gt ↦ absurd (omega (arith, past, below_mono (suc p) a xs (omega (arith, gt))))
              ] in
              (
                true,
                rw (clean, before) refl,
                met p above (ground (arith, before)) (ground (arith, past, clean)),
              )
          | inr after ↦ (
            false,
            rw (clean, after) refl,
            not_met (below a xs) (ground (arith, clean)) (omega (arith, counted))
                (omega (arith, front, below_mono b p xs (ground (arith, after)))),
          )
        ]
      ]

  -- Where the range starts at the last fencepost, there is none to compare its end with.
  is_last :
      (p : ℕ)
      → get_elem? xs (below a xs) ≡ some p
      → (p == a) ≡ true
      → get_elem? xs (length xs - 1) ≢ some a
      → below a xs < length xs
      → suc (below a xs) < length xs
  is_last p at own not_last inside = elim (dec_le (length xs) (suc (below a xs))) [
    | no more ↦ omega (arith, more)
    | yes end_ ↦
        let place : below a xs ≡ length xs - 1 = omega (arith, end_, inside) in
        let same : p ≡ a = (==_iff p a).0 own in
        absurd (not_last (sym (ap (λ n. get_elem? xs n) place) ∙ at ∙ ap (λ z. some z) same))
  ]

  -- For fenceposts that rise, of an even number, and a range that is not empty and does not start at
  -- the last of them, `HFRangeSetOverlapsAnyRange` returns, and says exactly whether a location of
  -- the range is in the set. The search of the array finds the first fencepost that is not less than
  -- a number.
  pub hf_range_set_overlaps_any_range_lem :
      get_elem? xs (length xs - 1) ≢ some a
      → (r : Bool) × (hf_range_set_overlaps_any_range search xs a b ≡ some r)
        × ((r ≡ true) ↔ ((x : ℕ) × (a ≤ x) × (x < b) × (included x xs ≡ true)))
  unfolding hf_range_set_overlaps_any_range
  hf_range_set_overlaps_any_range_lem not_last =
      let checked : (ltb a b && length xs % 2 == 0) ≡ true = ground (arith, less, even) in
      let at_a = finds xs a rising in
      let at_b = finds xs b rising in
      elim (Bool-cases (leb (length xs) (below a xs) || below b xs == 0)) [
        | inl outside ↦ (false, rw (checked, at_a, at_b, outside) refl, outside_not_met outside)
        | inr within ↦ elim (Bool-cases (leb (below a xs + 2) (below b xs))) [
          | inl far ↦
              (true, rw (checked, at_a, at_b, within, far) refl, far_met (ground (arith, far)))
          | inr near ↦
              let inside : below a xs < length xs = ground (arith, within) in
              let (p, at) = get_elem-some xs (below a xs) inside in
              elim (Bool-cases (p == a)) [
                | inl own ↦
                    let (r, e, means) =
                      own_answer p at own (ground (arith, near))
                        (is_last p at own not_last inside) in
                    (r, rw (checked, at_a, at_b, within, near, at, own) e, means)
                | inr other ↦
                    let (r, e, means) = between_answer p at other in
                    (r, rw (checked, at_a, at_b, within, near, at, other) e, means)
              ]
        ]
      ]
