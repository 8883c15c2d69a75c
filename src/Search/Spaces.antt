-- ===== src/Search/Spaces.antt =====
-- The regular expressions of docs/docs/search/search.js that strip spaces.
use hex_fiend.Prelude.{
  ℕ, zero, suc, ◌≡◌, refl, ap, ◌∙◌, inl, inr, false, [], ◌∷◌, ◌++◌, arith, ◌==◌, if◌then◌else◌, Str,
  Bool-cases,
}

-- `replace(/^ +/, "")`
unfoldable pub strip_leading : Str → Str
strip_leading [] = []
strip_leading (c ∷ s) = if c == b' ' then strip_leading s else c ∷ s

-- The spaces at the end go: a space stays only in front of something that stays.
abbrev pub cons_unless_last_space : ℕ → Str → Str
cons_unless_last_space c [] = if c == b' ' then [] else c ∷ []
cons_unless_last_space c (d ∷ s) = c ∷ d ∷ s

-- `replace(/ +$/, "")`
unfoldable pub strip_trailing : Str → Str
strip_trailing [] = []
strip_trailing (c ∷ s) = cons_unless_last_space c (strip_trailing s)

-- `replace(/ +/g, "")`
unfoldable pub strip_all : Str → Str
strip_all [] = []
strip_all (c ∷ s) = let rest = strip_all s in if c == b' ' then rest else c ∷ rest

abbrev pub spaces : ℕ → Str
spaces zero = []
spaces (suc n) = b' ' ∷ spaces n

-- Empty, or with a first character that is no space.
abbrev pub NoLeading : Str → Type 0
NoLeading [] = Unit
NoLeading (c ∷ s) = (c == b' ') ≡ false

pub strip_leading-NoLeading : (s : Str) → NoLeading (strip_leading s)
unfolding strip_leading
strip_leading-NoLeading [] = tt
strip_leading-NoLeading (c ∷ s) = elim (Bool-cases (c == b' ')) [
  | inl e ↦ rw e (strip_leading-NoLeading s)
  | inr e ↦ rw e e
]

-- Only spaces go, and all of those in front.
pub strip_leading_lem :
    (s : Str) → (n : ℕ) × (s ≡ spaces n ++ strip_leading s) × NoLeading (strip_leading s)
unfolding strip_leading
strip_leading_lem [] = (0, refl, tt)
strip_leading_lem (c ∷ s) = elim (Bool-cases (c == b' ')) [
  | inl e ↦ let (n, split, rest) = strip_leading_lem s in (suc n, ground arith, rw e rest)
  | inr e ↦ (0, rw e, rw e e)
]

strip_leading-of_NoLeading : (t : Str) → NoLeading t → strip_leading t ≡ t
unfolding strip_leading
strip_leading-of_NoLeading [] h = refl
strip_leading-of_NoLeading (c ∷ t) h = rw h

pub strip_leading_idem : (s : Str) → strip_leading (strip_leading s) ≡ strip_leading s
strip_leading_idem s = strip_leading-of_NoLeading (strip_leading s) (strip_leading-NoLeading s)

-- Empty, or with a last character that is no space.
abbrev pub NoTrailing : Str → Type 0
NoTrailing [] = Unit
NoTrailing (c ∷ []) = (c == b' ') ≡ false
NoTrailing (c ∷ d ∷ s) = NoTrailing (d ∷ s)

trailing_step :
    (c : ℕ) (s t : Str) (n : ℕ)
    → s ≡ t ++ spaces n
    → NoTrailing t
    → (m : ℕ) × (c ∷ s ≡ cons_unless_last_space c t ++ spaces m)
      × NoTrailing (cons_unless_last_space c t)
trailing_step c s [] n e h = elim (Bool-cases (c == b' ')) [
  | inl space ↦ (suc n, rw space (ground arith), rw space tt)
  | inr other ↦ (n, rw other (ground arith), rw other other)
]
trailing_step c s (d ∷ t) n e h = (n, ap (c ∷◌) e, h)

-- Only spaces go, and all of those at the end.
pub strip_trailing_lem :
    (s : Str) → (n : ℕ) × (s ≡ strip_trailing s ++ spaces n) × NoTrailing (strip_trailing s)
unfolding strip_trailing
strip_trailing_lem [] = (0, refl, tt)
strip_trailing_lem (c ∷ s) =
    let (n, e, h) = strip_trailing_lem s in trailing_step c s (strip_trailing s) n e h

-- A word without the spaces in front and at the end is the word with some spaces around it less, and
-- it does not end with a space.
pub strip_both :
    (s : Str)
    → (m : ℕ) × (n : ℕ) × (s ≡ spaces m ++ (strip_trailing (strip_leading s) ++ spaces n))
      × NoTrailing (strip_trailing (strip_leading s))
strip_both s =
    let (m, front, _) = strip_leading_lem s in
    let (n, back, clean) = strip_trailing_lem (strip_leading s) in
    (m, n, front ∙ ap (λ t. spaces m ++ t) back, clean)
