-- ===== src/Dynsections/Inherited.antt =====
-- `toggleInherit` of docs/docs/dynsections.js: the rows of inherited members.
use hex_fiend.Prelude.{
  ℕ, Bool, true, false, not, List, ◌∷◌, ◌++◌, some, if◌then◌else◌, Str, codes, str_eq, ◌≡◌, refl,
  ◌∙◌, subst,
}
use hex_fiend.Prelude.Outcome.{returns}
use hex_fiend.Dynsections.{Call, JQuery, set_src, toggle_inherit}
use hex_fiend.Dynsections.Laws.{IsLawful, mem, visible, visible_after}
use hex_fiend.Dynsections.Details.{new_end_lem}

abbrev pub inherited : {D : Type 0} → JQuery D → Str → D → List ℕ
inherited jq id d = jq.select (codes "tr.inherit." ++ id) d

abbrev pub header_image : {D : Type 0} → JQuery D → Str → D → List ℕ
header_image jq id d = jq.select (codes "tr.inherit_header." ++ id ++ codes " img") d

shown_as : Bool → Str
shown_as b = if b then codes "table-row" else codes "none"

image_of : Bool → Str
image_of b = if b then codes "open.png" else codes "closed.png"

shown_as-none : (b : Bool) → not (str_eq (shown_as b) (codes "none")) ≡ b
unfolding shown_as str_eq
shown_as-none true = refl
shown_as-none false = refl

module _ {D : Type 0} (jq : JQuery D) (own : ℕ → Bool) (law : IsLawful jq own) where
  switched : Str → Str → Bool → List ℕ → D → D
  switched id image b es d =
      jq.call (Call.attr (codes "src") (image ++ image_of (not b)) (header_image jq id d))
        (jq.call (Call.css (codes "display") (shown_as (not b)) es) d)

  toggle_inherit-switched :
      (id image : Str) (b : Bool) (r : ℕ) (more : List ℕ) (d : D)
      → inherited jq id d ≡ r ∷ more
      → visible jq r d ≡ b
      → jq.attr_of (codes "src") (header_image jq id d) d ≡ some (image ++ image_of b)
      → toggle_inherit jq id d ≡ returns (switched id image b (r ∷ more) d)
  unfolding toggle_inherit set_src switched image_of shown_as
  toggle_inherit-switched id image true r more d rows shown src =
      rw
        (
          law.filter_first d (inherited jq id d),
          rows,
          shown,
          src,
          new_end_lem 8 (codes "closed.png") image (codes "open.png") refl,
        )
        refl
  toggle_inherit-switched id image false r more d rows shown src =
      rw
        (
          law.filter_first d (inherited jq id d),
          rows,
          shown,
          src,
          new_end_lem 10 (codes "open.png") image (codes "closed.png") refl,
        )
        refl

  switched-visible :
      (id image : Str) (b : Bool) (es : List ℕ) (e : ℕ) (d : D)
      → mem e es ≡ true
      → own e ≡ true
      → visible jq e (switched id image b es d) ≡ not b
  unfolding switched visible_after
  switched-visible id image b es e d m o =
      law.visible_call (Call.attr (codes "src") (image ++ image_of (not b)) (header_image jq id d))
        (jq.call (Call.css (codes "display") (shown_as (not b)) es) d) e refl o
      ∙ law.visible_call (Call.css (codes "display") (shown_as (not b)) es) d e tt o
      ∙ rw m (shown_as-none (not b))

  switched-source :
      (id image src : Str) (b : Bool) (es : List ℕ) (d : D)
      → jq.attr_of (codes "src") (header_image jq id d) d ≡ some src
      → jq.attr_of (codes "src") (header_image jq id d) (switched id image b es d)
        ≡ some (image ++ image_of (not b))
  unfolding switched
  switched-source id image src b es d h =
      law.src_set (jq.call (Call.css (codes "display") (shown_as (not b)) es) d)
        (header_image jq id d) src (image ++ image_of (not b))
        (law.src_call (Call.css (codes "display") (shown_as (not b)) es) d (header_image jq id d) tt
          ∙ h)

  -- Where the first of the rows of inherited members is shown exactly if the image says so,
  -- `toggleInherit` returns, and shows or hides every one of the rows, as the first was not, and the
  -- image says so.
  pub toggle_inherit_lem :
      (id image : Str) (b : Bool) (r : ℕ) (more : List ℕ) (d : D) (e : ℕ)
      → inherited jq id d ≡ r ∷ more
      → visible jq r d ≡ b
      → jq.attr_of (codes "src") (header_image jq id d) d
        ≡ some (image ++ (if b then codes "open.png" else codes "closed.png"))
      → mem e (inherited jq id d) ≡ true
      → own e ≡ true
      → (d' : D) × (toggle_inherit jq id d ≡ returns d')
        × (visible jq e d' ≡ not b)
        × (jq.attr_of (codes "src") (header_image jq id d) d'
            ≡ some (image ++ (if not b then codes "open.png" else codes "closed.png")))
  unfolding image_of
  toggle_inherit_lem id image b r more d e rows shown src m o = (
    switched id image b (r ∷ more) d,
    toggle_inherit-switched id image b r more d rows shown src,
    switched-visible id image b (r ∷ more) e d (subst (λ es. mem e es ≡ true) rows m) o,
    switched-source id image _ b (r ∷ more) d src,
  )
