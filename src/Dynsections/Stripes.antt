-- ===== src/Dynsections/Stripes.antt =====
-- `updateStripes` of docs/docs/dynsections.js.
use hex_fiend.Prelude.{
  ℕ, Bool, true, false, ◌&&◌, ◌||◌, List, [], ◌∷◌, Str, codes, str_eq, ◌≡◌, refl, ap, ◌∙◌, arith,
}
use hex_fiend.Dynsections.{Call, JQuery, keep, directory_rows, update_stripes}
use hex_fiend.Dynsections.Laws.{
  IsLawful, mem, every_other, visible, has_class, visible_after, class_after, has_word,
}

-- Every row of the directory is displayed or not on its own.
abbrev pub RowsOwn : {D : Type 0} → JQuery D → (ℕ → Bool) → D → Type 0
RowsOwn jq own d = (e : ℕ) → mem e (jq.select directory_rows d) ≡ true → own e ≡ true

pub mem-head : (x : ℕ) (xs : List ℕ) → mem x (x ∷ xs) ≡ true
unfolding mem
mem-head x xs = ground arith

pub mem-tail : (e x : ℕ) (xs : List ℕ) → mem e xs ≡ true → mem e (x ∷ xs) ≡ true
unfolding mem
mem-tail e x xs h = ground arith

-- Tests that agree on the elements keep the same of them.
pub keep-agree :
    (p q : ℕ → Bool) (es : List ℕ) → ((e : ℕ) → mem e es ≡ true → p e ≡ q e) → keep p es ≡ keep q es
unfolding keep
keep-agree p q [] h = refl
keep-agree p q (x ∷ es) h =
    rw (h x (mem-head x es), keep-agree p q es (λ e m. h e (mem-tail e x es m))) refl

module _ {D : Type 0} (jq : JQuery D) (own : ℕ → Bool) (law : IsLawful jq own) where
  pub visible-update_stripes :
      (d : D) (e : ℕ) → own e ≡ true → visible jq e (update_stripes jq d) ≡ visible jq e d
  unfolding update_stripes visible_after
  visible-update_stripes d e o =
      let rows = jq.select directory_rows d in
      let cleared = jq.call (Call.remove_class (codes "even") rows) d in
      law.visible_call
        (Call.add_class (codes "even") (jq.filter (codes ":visible:even") rows cleared)) cleared e
        tt o
      ∙ law.visible_call (Call.remove_class (codes "even") rows) d e tt o

  -- Only the class of the stripes changes.
  pub class-update_stripes :
      (d : D) (k : Str) (e : ℕ)
      → has_word k (codes "even") ≡ false
      → has_class jq k e (update_stripes jq d) ≡ has_class jq k e d
  unfolding update_stripes class_after
  class-update_stripes d k e h =
      let rows = jq.select directory_rows d in
      let cleared = jq.call (Call.remove_class (codes "even") rows) d in
      let striped = jq.filter (codes ":visible:even") rows cleared in
      law.class_call (Call.add_class (codes "even") striped) cleared k e tt
      ∙ ap (λ b. (mem e striped && has_word k (codes "even")) || b)
          (law.class_call (Call.remove_class (codes "even") rows) d k e tt)
      ∙ ground (arith, h)

  -- After `updateStripes` exactly every other one of the visible rows of the directory has the class
  -- `even`, from the first, and what is visible is as it was.
  pub update_stripes_lem :
      (d : D)
      → RowsOwn jq own d
      → (e : ℕ) → mem e (jq.select directory_rows d) ≡ true
      → (has_class jq (codes "even") e (update_stripes jq d)
          ≡ mem e (every_other (keep (λ f. visible jq f d) (jq.select directory_rows d))))
        × (visible jq e (update_stripes jq d) ≡ visible jq e d)
  unfolding update_stripes class_after has_word str_eq visible_after
  update_stripes_lem d all_own e m =
      let rows = jq.select directory_rows d in
      let cleared = jq.call (Call.remove_class (codes "even") rows) d in
      let striped = jq.filter (codes ":visible:even") rows cleared in
      let same : striped ≡ every_other (keep (λ f. visible jq f d) rows) =
        law.filter_striped cleared rows
        ∙ ap every_other (
            keep-agree (λ f. visible jq f cleared) (λ f. visible jq f d) rows
              (λ f r.
                law.visible_call (Call.remove_class (codes "even") rows) d f tt (all_own f r))) in
      (
        law.class_call (Call.add_class (codes "even") striped) cleared (codes "even") e tt
            ∙ ap (λ b. (mem e striped && true) || b)
                (law.class_call (Call.remove_class (codes "even") rows) d (codes "even") e tt)
            ∙ ground (arith, m)
            ∙ ap (mem e) same,
        visible-update_stripes d e (all_own e m),
      )
