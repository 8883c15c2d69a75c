-- ===== src/Dynsections/Levels/Icons.antt =====
-- `toggleLevel` of docs/docs/dynsections.js: the icons of the folders that it shows.
use hex_fiend.Prelude.{
  ℕ, ◌+◌, Bool, true, false, ◌||◌, List, [], ◌∷◌, ◌++◌, ltb, leb, ◌==◌, if◌then◌else◌, Str, codes,
  drop, str_eq, ◌≡◌, refl, ap, sym, ◌∙◌, Bool-cases, inl, inr, arith, ==_iff, subst,
}
use hex_fiend.Dynsections.{
  JQuery, directory_rows, depth, level_calls, level_row, level_rows, toggle_level,
}
use hex_fiend.Dynsections.Laws.{IsLawful, mem, any, any-same, has_class, class_after, has_word}
use hex_fiend.Dynsections.Frame.{
  Same, class_through, calls-class, level_calls-IsPlain, level_row-Same,
}
use hex_fiend.Dynsections.Stripes.{mem-head, mem-tail, class-update_stripes}

-- The identifier of each row of the directory starts with `row`.
abbrev pub RowsNamed : {D : Type 0} → JQuery D → D → Type 0
RowsNamed jq d =
    (e : ℕ)
    → mem e (jq.select directory_rows d) ≡ true
    → (x : Str) × (jq.id_of e d ≡ codes "row" ++ x)

-- What the loop does to one of the classes of an icon, whose rows have some depth.
abbrev Sets : ℕ → Str → Bool → ℕ → Type 0
Sets level k t l =
    (i a : List ℕ) (row m : ℕ) (b : Bool)
    → class_through (level_calls level l i a row) k m b ≡ (if mem m i then t else b)

level_calls-iconfopen :
    (level l : ℕ) → leb l (level + 1) ≡ true → Sets level (codes "iconfopen") (ltb l (level + 1)) l
unfolding level_calls class_after has_word str_eq
level_calls-iconfopen level l h i a row m b = elim (Bool-cases (ltb l (level + 1))) [
  | inl above ↦ rw above (ground arith)
  | inr below ↦
      let at : (l == level + 1) ≡ true = ground (arith, h, below) in rw (below, at) (ground arith)
]

level_calls-iconfclosed :
    (level l : ℕ) → leb l (level + 1) ≡ true → Sets level (codes "iconfclosed") (l == level + 1) l
unfolding level_calls class_after has_word str_eq
level_calls-iconfclosed level l h i a row m b = elim (Bool-cases (ltb l (level + 1))) [
  | inl above ↦
      let other : (l == level + 1) ≡ false = ground (arith, above) in
      rw (above, other) (ground arith)
  | inr below ↦
      let at : (l == level + 1) ≡ true = ground (arith, h, below) in rw (below, at) (ground arith)
]

-- The classes of other elements stay.
level_calls-other :
    (level l : ℕ) (i a : List ℕ) (row : ℕ) (k : Str) (m : ℕ) (b : Bool)
    → mem m i ≡ false
    → class_through (level_calls level l i a row) k m b ≡ b
unfolding level_calls class_after
level_calls-other level l i a row k m b h = elim (Bool-cases (ltb l (level + 1))) [
  | inl above ↦ rw above (ground (arith, h))
  | inr below ↦ elim (Bool-cases (l == level + 1)) [
    | inl at ↦ rw (below, at) (ground (arith, h))
    | inr under ↦ rw (below, under) refl
  ]
]

any-mem : (p : ℕ → Bool) (e : ℕ) (es : List ℕ) → mem e es ≡ true → p e ≡ true → any p es ≡ true
unfolding any mem
any-mem p e [] m h = absurd (cc m)
any-mem p e (x ∷ es) m h = elim (Bool-cases (e == x)) [
  | inl at ↦ rw (← (==_iff e x).0 at, h) refl
  | inr other ↦ ground (arith, other, any-mem p e es (ground (arith, m, other)) h)
]

icon_from : (a b t v : Bool) → (if a then t else if b then t else v) ≡ (if b || a then t else v)
icon_from a b t v = ground arith

module _ {D : Type 0} (jq : JQuery D) (own : ℕ → Bool) (law : IsLawful jq own) (level : ℕ) where
  abbrev pub icon : ℕ → D → List ℕ
  icon row d = jq.select (codes "#img" ++ drop 3 (jq.id_of row d)) d

  abbrev arrow : ℕ → D → List ℕ
  arrow row d = jq.select (codes "#arr" ++ drop 3 (jq.id_of row d)) d

  icon-Same : (r : ℕ) (d d' : D) → Same jq d d' → icon r d' ≡ icon r d
  icon-Same r d d' same =
      ap (λ x. jq.select (codes "#img" ++ drop 3 x) d') (same.ids r)
      ∙ same.by_id (codes "img" ++ drop 3 (jq.id_of r d))

  row_through : ℕ → D → Str → ℕ → Bool
  row_through row d k m =
      class_through (level_calls level (depth (jq.id_of row d)) (icon row d) (arrow row d) row) k m
        (has_class jq k m d)

  touched :
      (row : ℕ) (d : D) (k : Str) (t : Bool) (l m : ℕ)
      → Sets level k t l
      → (mem m (icon row d) ≡ true → depth (jq.id_of row d) ≡ l)
      → row_through row d k m ≡ (if mem m (icon row d) then t else has_class jq k m d)
  unfolding row_through
  touched row d k t l m sets deep = elim (Bool-cases (mem m (icon row d))) [
    | inl in_ ↦
        ap
          (λ n.
            class_through (level_calls level n (icon row d) (arrow row d) row) k m
              (has_class jq k m d))
          (deep in_)
        ∙ sets (icon row d) (arrow row d) row m (has_class jq k m d)
    | inr out ↦
        level_calls-other level (depth (jq.id_of row d)) (icon row d) (arrow row d) row k m
          (has_class jq k m d) out
        ∙ rw out refl
  ]

  level_row-class :
      (row : ℕ) (d : D) (k : Str) (t : Bool) (l m : ℕ)
      → Sets level k t l
      → (mem m (icon row d) ≡ true → depth (jq.id_of row d) ≡ l)
      → has_class jq k m (level_row jq level row d)
        ≡ (if mem m (icon row d) then t else has_class jq k m d)
  unfolding level_row row_through
  level_row-class row d k t l m sets deep =
      calls-class jq own law
        (level_calls level (depth (jq.id_of row d)) (icon row d) (arrow row d) row) d k m
        (level_calls-IsPlain jq own law level (depth (jq.id_of row d)) (icon row d) (arrow row d)
          row)
      ∙ touched row d k t l m sets deep

  any-icons :
      (m : ℕ) (rows : List ℕ) (d d' : D)
      → Same jq d d'
      → any (λ r. mem m (icon r d')) rows ≡ any (λ r. mem m (icon r d)) rows
  any-icons m rows d d' same =
      any-same (λ r. mem m (icon r d')) (λ r. mem m (icon r d))
        (λ r. ap (mem m) (icon-Same r d d' same)) rows

  level_rows-class :
      (k : Str) (t : Bool) (l m : ℕ)
      → Sets level k t l
      → (rows : List ℕ) (d : D)
      → ((r : ℕ) → mem r rows ≡ true → mem m (icon r d) ≡ true → depth (jq.id_of r d) ≡ l)
      → has_class jq k m (level_rows jq level rows d)
        ≡ (if any (λ r. mem m (icon r d)) rows then t else has_class jq k m d)
  unfolding level_rows any
  level_rows-class k t l m sets [] d deep = refl
  level_rows-class k t l m sets (row ∷ more) d deep =
      let d1 = level_row jq level row d in
      let same = level_row-Same jq own law level row d in
      level_rows-class k t l m sets more d1 (λ r in_ at.
        ap depth (same.ids r)
        ∙ deep r (mem-tail r row more in_) (subst (λ s. mem m s ≡ true) (icon-Same r d d1 same) at))
      ∙ ap (λ b. if b then t else has_class jq k m d1) (any-icons m more d d1 same)
      ∙ ap (λ b. if any (λ r. mem m (icon r d)) more then t else b)
          (level_row-class row d k t l m sets (deep row (mem-head row more)))
      ∙ icon_from (any (λ r. mem m (icon r d)) more) (mem m (icon row d)) t (has_class jq k m d)

  -- Rows that share an icon have the same identifier.
  same_id :
      (d : D)
      → RowsNamed jq d
      → (r e m : ℕ) → mem r (jq.select directory_rows d) ≡ true
      → mem e (jq.select directory_rows d) ≡ true
      → mem m (icon r d) ≡ true
      → mem m (icon e d) ≡ true
      → jq.id_of r d ≡ jq.id_of e d
  same_id d named r e m r_in e_in r_at e_at =
      let (x, row_x) = named r r_in in
      let (y, row_y) = named e e_in in
      let same : drop 3 (jq.id_of r d) ≡ drop 3 (jq.id_of e d) = ap (drop 3) (
        sym (law.by_id d (codes "img" ++ drop 3 (jq.id_of r d)) m r_at)
        ∙ law.by_id d (codes "img" ++ drop 3 (jq.id_of e d)) m e_at) in
      row_x
      ∙ ap (λ s. codes "row" ++ s) (ap (drop 3) (sym row_x) ∙ same ∙ ap (drop 3) row_y)
      ∙ sym row_y

  -- The loop ends with the class as the depth of the icon's row says.
  toggle_level-class :
      (d : D)
      → RowsNamed jq d
      → (k : Str) (t : Bool) (e m : ℕ) → mem e (jq.select directory_rows d) ≡ true
      → mem m (icon e d) ≡ true
      → Sets level k t (depth (jq.id_of e d))
      → has_word k (codes "even") ≡ false
      → has_class jq k m (toggle_level jq level d) ≡ t
  unfolding toggle_level
  toggle_level-class d named k t e m in_ at sets spared =
      let rows = jq.select directory_rows d in
      class-update_stripes jq own law (level_rows jq level rows d) k m spared
      ∙ level_rows-class k t (depth (jq.id_of e d)) m sets rows d
          (λ r r_in r_at. ap depth (same_id d named r e m r_in in_ r_at at))
      ∙ rw (any-mem (λ r. mem m (icon r d)) e rows in_ at) refl

  -- After `toggleLevel` each icon of a row of the directory that is not deeper than one more than
  -- the level has the class of an open folder exactly if the row is less deep than one more than
  -- the level, and that of a closed folder exactly if it is as deep as that. The depth of a row is
  -- the number of `_` in its identifier, and the identifiers of the rows start with `row`.
  pub toggle_level-icon :
      (d : D)
      → RowsNamed jq d
      → (e m : ℕ) → mem e (jq.select directory_rows d) ≡ true
      → mem m (icon e d) ≡ true
      → leb (depth (jq.id_of e d)) (level + 1) ≡ true
      → (has_class jq (codes "iconfopen") m (toggle_level jq level d)
          ≡ ltb (depth (jq.id_of e d)) (level + 1))
        × (has_class jq (codes "iconfclosed") m (toggle_level jq level d)
            ≡ (depth (jq.id_of e d) == level + 1))
  unfolding has_word str_eq
  toggle_level-icon d named e m in_ at shown =
      let l = depth (jq.id_of e d) in
      (
        toggle_level-class d named (codes "iconfopen") (ltb l (level + 1)) e m in_ at
            (level_calls-iconfopen level l shown) refl,
        toggle_level-class d named (codes "iconfclosed") (l == level + 1) e m in_ at
            (level_calls-iconfclosed level l shown) refl,
      )
