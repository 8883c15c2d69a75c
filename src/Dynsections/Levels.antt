-- ===== src/Dynsections/Levels.antt =====
-- `toggleLevel` of docs/docs/dynsections.js: the rows that it shows.
pub mod Icons
use hex_fiend.Prelude.{
  ℕ, ◌+◌, Bool, true, false, not, ◌&&◌, ◌||◌, List, [], ◌∷◌, ◌++◌, ltb, leb, ◌==◌, if◌then◌else◌,
  Str, codes, drop, str_eq, ◌≡◌, refl, ap, sym, ◌∙◌, Bool-cases, inl, inr, arith, ==_iff, subst,
  All,
}
use hex_fiend.Dynsections.{
  Call, JQuery, keep, calls, directory_rows, depth, level_calls, level_row, level_rows,
  toggle_level,
}
use hex_fiend.Dynsections.Laws.{IsLawful, mem, every_other, visible, has_class, visible_after}
use hex_fiend.Dynsections.Frame.{
  Same, visible_through, calls-visible, level_calls-IsPlain, level_row-Same, level_rows-Same,
}
use hex_fiend.Dynsections.Stripes.{RowsOwn, keep-agree, visible-update_stripes, update_stripes_lem}

level_calls-visible :
    (level l : ℕ) (i a : List ℕ) (row e : ℕ) (b : Bool)
    → visible_through (level_calls level l i a row) e b
      ≡ (if e == row then leb l (level + 1) else b)
unfolding level_calls visible_after mem
level_calls-visible level l i a row e b = elim (Bool-cases (ltb l (level + 1))) [
  | inl above ↦ rw above (ground (arith, above))
  | inr below ↦ elim (Bool-cases (l == level + 1)) [
    | inl at ↦ rw (below, at) (ground (arith, at))
    | inr under ↦ rw (below, under) (ground (arith, below, under))
  ]
]

same_row :
    (f : ℕ → Bool) (e row : ℕ) (m v : Bool)
    → (if m then f e else if e == row then f row else v) ≡ (if e == row || m then f e else v)
same_row f e row m v = elim (Bool-cases (e == row)) [
  | inl at ↦
      subst (λ r. (if m then f e else if e == r then f r else v) ≡ (if e == r || m then f e else v))
        ((==_iff e row).0 at) (ground arith)
  | inr other ↦ rw other refl
]

module _ {D : Type 0} (jq : JQuery D) (own : ℕ → Bool) (law : IsLawful jq own) (level : ℕ) where
  level_row-visible :
      (row : ℕ) (d : D) (e : ℕ)
      → own e ≡ true
      → visible jq e (level_row jq level row d)
        ≡ (if e == row then leb (depth (jq.id_of row d)) (level + 1) else visible jq e d)
  unfolding level_row
  level_row-visible row d e o =
      let l = depth (jq.id_of row d) in
      let i = jq.select (codes "#img" ++ drop 3 (jq.id_of row d)) d in
      let a = jq.select (codes "#arr" ++ drop 3 (jq.id_of row d)) d in
      calls-visible jq own law (level_calls level l i a row) d e
        (level_calls-IsPlain jq own law level l i a row) o
      ∙ level_calls-visible level l i a row e (visible jq e d)

  -- The loop: each of the rows is shown exactly if it is not too deep.
  level_rows-visible :
      (rows : List ℕ) (d : D) (e : ℕ)
      → own e ≡ true
      → visible jq e (level_rows jq level rows d)
        ≡ (if mem e rows then leb (depth (jq.id_of e d)) (level + 1) else visible jq e d)
  unfolding level_rows mem
  level_rows-visible [] d e o = refl
  level_rows-visible (row ∷ more) d e o =
      level_rows-visible more (level_row jq level row d) e o
      ∙ rw ((level_row-Same jq own law level row d).ids e, level_row-visible row d e o)
          (same_row (λ n. leb (depth (jq.id_of n d)) (level + 1)) e row (mem e more)
            (visible jq e d))

  pub toggle_level-visible :
      (d : D)
      → RowsOwn jq own d
      → (e : ℕ) → mem e (jq.select directory_rows d) ≡ true
      → visible jq e (toggle_level jq level d) ≡ leb (depth (jq.id_of e d)) (level + 1)
  unfolding toggle_level
  toggle_level-visible d all_own e m =
      let rows = jq.select directory_rows d in
      visible-update_stripes jq own law (level_rows jq level rows d) e (all_own e m)
      ∙ level_rows-visible rows d e (all_own e m)
      ∙ rw m refl

  -- After `toggleLevel` a row of the directory is visible exactly if it is not deeper than one more
  -- than the level, and exactly every other visible row has the class `even`.
  pub toggle_level_lem :
      (d : D)
      → RowsOwn jq own d
      → (e : ℕ) → mem e (jq.select directory_rows d) ≡ true
      → (visible jq e (toggle_level jq level d) ≡ leb (depth (jq.id_of e d)) (level + 1))
        × (has_class jq (codes "even") e (toggle_level jq level d)
            ≡ mem e (
                every_other (
                  keep (λ f. leb (depth (jq.id_of f d)) (level + 1)) (jq.select directory_rows d))))
  unfolding toggle_level
  toggle_level_lem d all_own e m =
      let rows = jq.select directory_rows d in
      let shown = level_rows jq level rows d in
      let same : jq.select directory_rows shown ≡ rows =
        (level_rows-Same jq own law level rows d).rows in
      let striped =
        update_stripes_lem jq own law shown (λ f r. all_own f (subst (λ s. mem f s ≡ true) same r))
          e (subst (λ s. mem e s ≡ true) (sym same) m) in
      (
        toggle_level-visible d all_own e m,
        striped.0
            ∙ ap (λ s. mem e (every_other (keep (λ f. visible jq f shown) s))) same
            ∙ ap (λ s. mem e (every_other s))
                (keep-agree (λ f. visible jq f shown) (λ f. leb (depth (jq.id_of f d)) (level + 1))
                  rows (λ f r. level_rows-visible rows d f (all_own f r) ∙ rw r refl)),
      )
