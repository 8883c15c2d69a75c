-- ===== src/Dynsections/Frame.antt =====
-- What the handlers of docs/docs/dynsections.js leave: the rows of the directory and the identifiers.
use hex_fiend.Prelude.{
  ℕ, ◌+◌, Bool, true, List, [], ◌∷◌, ltb, ◌==◌, Str, codes, str_eq, ◌≡◌, refl, ap, ◌∙◌, All,
  Bool-cases, inl, inr,
}
use hex_fiend.Dynsections.{
  Call, JQuery, calls, directory_rows, update_stripes, level_calls, level_row, level_rows,
  toggle_level,
}
use hex_fiend.Dynsections.Laws.{
  IsLawful, IsUsual, Spares, has_word, visible, has_class, visible_after, class_after,
}

-- The two documents have the same rows and the same identifiers.
pub record Same {D : Type 0} (jq : JQuery D) (d d' : D) : Type 0 where
  pub ids : (e : ℕ) → jq.id_of e d' ≡ jq.id_of e d
  pub rows : jq.select directory_rows d' ≡ jq.select directory_rows d
  pub by_id : (x : Str) → jq.select (b'#' ∷ x) d' ≡ jq.select (b'#' ∷ x) d
  pub next : (s : Str) (es : List ℕ) → jq.next_all s es d' ≡ jq.next_all s es d

-- The calls that leave them.
abbrev pub IsPlain : Call → Type 0
IsPlain c = IsUsual c × Spares (codes "directory") c

module _ {D : Type 0} (jq : JQuery D) where
  pub Same-refl : (d : D) → Same jq d d
  Same-refl d = record { ids = λ e. refl; rows = refl; by_id = λ x. refl; next = λ s es. refl }

  pub Same-trans : (a b c : D) → Same jq a b → Same jq b c → Same jq a c
  Same-trans a b c f g = record {
    ids = λ e. g.ids e ∙ f.ids e;
    rows = g.rows ∙ f.rows;
    by_id = λ x. g.by_id x ∙ f.by_id x;
    next = λ s es. g.next s es ∙ f.next s es;
  }

module _ {D : Type 0} (jq : JQuery D) (own : ℕ → Bool) (law : IsLawful jq own) where
  call-Same : (c : Call) (d : D) → IsPlain c → Same jq d (jq.call c d)
  call-Same c d h = record {
    ids = λ e. law.id_call c d e h.0;
    rows = law.rows_call c d h.0 h.1;
    by_id = λ x. law.by_id_call c d x h.0;
    next = λ s es. law.next_all_call c d s es h.0;
  }

  pub calls-Same : (cs : List Call) (d : D) → All IsPlain cs → Same jq d (calls jq cs d)
  unfolding calls
  calls-Same [] d h = Same-refl jq d
  calls-Same (c ∷ cs) d h =
      Same-trans jq d (jq.call c d) (calls jq cs (jq.call c d)) (call-Same c d h.0)
        (calls-Same cs (jq.call c d) h.1)

  pub update_stripes-Same : (d : D) → Same jq d (update_stripes jq d)
  unfolding update_stripes calls has_word
  update_stripes-Same d =
      let rows = jq.select directory_rows d in
      let cleared = jq.call (Call.remove_class (codes "even") rows) d in
      calls-Same
        (Call.remove_class (codes "even") rows
          ∷ Call.add_class (codes "even") (jq.filter (codes ":visible:even") rows cleared)
          ∷ [])
        d ((tt, refl), ((tt, refl), tt))

  pub level_calls-IsPlain :
      (level l : ℕ) (i a : List ℕ) (row : ℕ) → All IsPlain (level_calls level l i a row)
  unfolding level_calls has_word str_eq
  level_calls-IsPlain level l i a row = elim (Bool-cases (ltb l (level + 1))) [
    | inl above ↦ rw above ((tt, refl), ((tt, refl), ((tt, tt), ((tt, tt), tt))))
    | inr below ↦ elim (Bool-cases (l == level + 1)) [
      | inl at ↦ rw (below, at) ((tt, refl), ((tt, refl), ((tt, tt), ((tt, tt), tt))))
      | inr under ↦ rw (below, under) ((tt, tt), tt)
    ]
  ]

  pub level_row-Same : (level row : ℕ) (d : D) → Same jq d (level_row jq level row d)
  unfolding level_row
  level_row-Same level row d = calls-Same _ d (level_calls-IsPlain level _ _ _ row)

  pub level_rows-Same : (level : ℕ) (rows : List ℕ) (d : D) → Same jq d (level_rows jq level rows d)
  unfolding level_rows
  level_rows-Same level [] d = Same-refl jq d
  level_rows-Same level (row ∷ more) d =
      Same-trans jq d (level_row jq level row d)
        (level_rows jq level more (level_row jq level row d)) (level_row-Same level row d)
        (level_rows-Same level more (level_row jq level row d))

  pub toggle_level-Same : (level : ℕ) (d : D) → Same jq d (toggle_level jq level d)
  unfolding toggle_level
  toggle_level-Same level d =
      let rows = jq.select directory_rows d in
      Same-trans jq d (level_rows jq level rows d) (toggle_level jq level d)
        (level_rows-Same level rows d) (update_stripes-Same (level_rows jq level rows d))

-- Whether an element is displayed, and has a class, after several calls.
abbrev pub visible_through : List Call → ℕ → Bool → Bool
visible_through [] e b = b
visible_through (c ∷ cs) e b = visible_through cs e (visible_after c e b)

abbrev pub class_through : List Call → Str → ℕ → Bool → Bool
class_through [] k e b = b
class_through (c ∷ cs) k e b = class_through cs k e (class_after c k e b)

module _ {D : Type 0} (jq : JQuery D) (own : ℕ → Bool) (law : IsLawful jq own) where
  pub calls-visible :
      (cs : List Call) (d : D) (e : ℕ)
      → All IsPlain cs
      → own e ≡ true
      → visible jq e (calls jq cs d) ≡ visible_through cs e (visible jq e d)
  unfolding calls
  calls-visible [] d e h o = refl
  calls-visible (c ∷ cs) d e h o =
      calls-visible cs (jq.call c d) e h.1 o
      ∙ ap (visible_through cs e) (law.visible_call c d e h.0.0 o)

  pub calls-class :
      (cs : List Call) (d : D) (k : Str) (e : ℕ)
      → All IsPlain cs
      → has_class jq k e (calls jq cs d) ≡ class_through cs k e (has_class jq k e d)
  unfolding calls
  calls-class [] d k e h = refl
  calls-class (c ∷ cs) d k e h =
      calls-class cs (jq.call c d) k e h.1
      ∙ ap (class_through cs k e) (law.class_call c d k e h.0.0)
