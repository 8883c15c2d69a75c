-- ===== src/Dynsections/Details.antt =====
-- `toggleVisibility` of docs/docs/dynsections.js: a section with a summary and a content.
use hex_fiend.Prelude.{
  ℕ, ◌-◌, Bool, true, false, not, List, [], ◌∷◌, ◌++◌, some, ◌==◌, if◌then◌else◌, Str, codes,
  str_eq, length, take, ◌≡◌, refl, ap, sym, ◌∙◌, arith, All, length-append, subst,
}
use hex_fiend.Prelude.Outcome.{returns}
use hex_fiend.Dynsections.{Call, JQuery, calls, new_end, set_src, toggle_visibility}
use hex_fiend.Dynsections.Laws.{
  IsLawful, mem, visible, has_class, visible_after, class_after, has_word,
}
use hex_fiend.Dynsections.Frame.{
  IsPlain, calls-visible, calls-class, calls-Same, Same, visible_through, class_through,
}

take-append : (x y : Str) → take (length x) (x ++ y) ≡ x
take-append [] y = refl
take-append (c ∷ x) y = ap (c ∷◌) (take-append x y)

pub new_end_lem : (n : ℕ) (end_ x y : Str) → length y ≡ n → new_end n end_ (x ++ y) ≡ x ++ end_
new_end_lem n end_ x y h =
    let shorter : length (x ++ y) - n ≡ length x = omega (arith, h, length-append {0} x y) in
    ap (λ k. take k (x ++ y) ++ end_) shorter ∙ ap (λ z. z ++ end_) (take-append x y)

-- A section: its content and its summary are one element each, displayed each on its own.
pub record IsSection {D : Type 0} (jq : JQuery D) (own : ℕ → Bool) (link content summary : ℕ)
    (d : D) : Type 0 where
  pub content_is : jq.select (b'#' ∷ jq.id_of link d ++ codes "-content") d ≡ content ∷ []
  pub summary_is : jq.select (b'#' ∷ jq.id_of link d ++ codes "-summary") d ≡ summary ∷ []
  pub differ : (content == summary) ≡ false
  pub content_own : own content ≡ true
  pub summary_own : own summary ≡ true

abbrev pub trigger : {D : Type 0} → JQuery D → ℕ → D → List ℕ
trigger jq link d = jq.select (b'#' ∷ jq.id_of link d ++ codes "-trigger") d

-- Either the content is shown, with the image and the class of an open section, or the summary, with
-- those of a closed one.
pub record IsShowing {D : Type 0} (jq : JQuery D) (link content summary : ℕ) (image : Str)
    (b : Bool) (d : D) : Type 0 where
  pub content_shown : visible jq content d ≡ b
  pub summary_shown : visible jq summary d ≡ not b
  pub source :
      jq.attr_of (codes "src") (trigger jq link d) d
      ≡ some (image ++ (if b then codes "open.png" else codes "closed.png"))
  pub opened_class : has_class jq (codes "opened") link d ≡ b
  pub closed_class : has_class jq (codes "closed") link d ≡ not b

-- The calls of a click on a section that is shown, or not.
switch : Bool → ℕ → ℕ → ℕ → List ℕ → Str → List Call
switch true link content summary es image =
    Call.hide (content ∷ [])
    ∷ Call.show (summary ∷ [])
    ∷ Call.add_class (codes "closed") (link ∷ [])
    ∷ Call.remove_class (codes "opened") (link ∷ [])
    ∷ Call.attr (codes "src") (image ++ codes "closed.png") es
    ∷ []
switch false link content summary es image =
    Call.show (content ∷ [])
    ∷ Call.hide (summary ∷ [])
    ∷ Call.remove_class (codes "closed") (link ∷ [])
    ∷ Call.add_class (codes "opened") (link ∷ [])
    ∷ Call.attr (codes "src") (image ++ codes "open.png") es
    ∷ []

switch-IsPlain :
    (b : Bool) (link content summary : ℕ) (es : List ℕ) (image : Str)
    → All IsPlain (switch b link content summary es image)
unfolding switch has_word str_eq
switch-IsPlain true link content summary es image =
    ((tt, tt), ((tt, tt), ((tt, refl), ((tt, refl), ((refl, tt), tt)))))
switch-IsPlain false link content summary es image =
    ((tt, tt), ((tt, tt), ((tt, refl), ((tt, refl), ((refl, tt), tt)))))

switch-visible :
    (b v w : Bool) (link content summary : ℕ) (es : List ℕ) (image : Str)
    → (content == summary) ≡ false
    → (visible_through (switch b link content summary es image) content v ≡ not b)
      × (visible_through (switch b link content summary es image) summary w ≡ b)
unfolding switch visible_after mem
switch-visible true v w link content summary es image h = (ground (arith, h), ground (arith, h))
switch-visible false v w link content summary es image h = (ground (arith, h), ground (arith, h))

switch-class :
    (b v w : Bool) (link content summary : ℕ) (es : List ℕ) (image : Str)
    → (class_through (switch b link content summary es image) (codes "opened") link v ≡ not b)
      × (class_through (switch b link content summary es image) (codes "closed") link w ≡ b)
unfolding switch class_after mem has_word str_eq
switch-class true v w link content summary es image = (ground arith, ground arith)
switch-class false v w link content summary es image = (ground arith, ground arith)

not-not : (b : Bool) → not (not b) ≡ b
not-not true = refl
not-not false = refl

part-Same :
    {D : Type 0} (jq : JQuery D) (d d' : D) (link : ℕ) (part : Str)
    → Same jq d d'
    → jq.select (b'#' ∷ jq.id_of link d' ++ part) d' ≡ jq.select (b'#' ∷ jq.id_of link d ++ part) d
part-Same jq d d' link part same =
    ap (λ x. jq.select (b'#' ∷ x ++ part) d') (same.ids link) ∙ same.by_id (jq.id_of link d ++ part)

module _ {D : Type 0} (jq : JQuery D) (own : ℕ → Bool) (law : IsLawful jq own) where
  switch-source :
      (b : Bool) (link content summary : ℕ) (es : List ℕ) (image src : Str) (d : D)
      → jq.attr_of (codes "src") es d ≡ some src
      → jq.attr_of (codes "src") es (calls jq (switch b link content summary es image) d)
        ≡ some (image ++ (if not b then codes "open.png" else codes "closed.png"))
  unfolding switch calls
  switch-source true link content summary es image src d h =
      let d1 = jq.call (Call.hide (content ∷ [])) d in
      let d2 = jq.call (Call.show (summary ∷ [])) d1 in
      let d3 = jq.call (Call.add_class (codes "closed") (link ∷ [])) d2 in
      law.src_set (jq.call (Call.remove_class (codes "opened") (link ∷ [])) d3) es src _ (
        law.src_call (Call.remove_class (codes "opened") (link ∷ [])) d3 es tt
        ∙ law.src_call (Call.add_class (codes "closed") (link ∷ [])) d2 es tt
        ∙ law.src_call (Call.show (summary ∷ [])) d1 es tt
        ∙ law.src_call (Call.hide (content ∷ [])) d es tt
        ∙ h)
  switch-source false link content summary es image src d h =
      let d1 = jq.call (Call.show (content ∷ [])) d in
      let d2 = jq.call (Call.hide (summary ∷ [])) d1 in
      let d3 = jq.call (Call.remove_class (codes "closed") (link ∷ [])) d2 in
      law.src_set (jq.call (Call.add_class (codes "opened") (link ∷ [])) d3) es src _ (
        law.src_call (Call.add_class (codes "opened") (link ∷ [])) d3 es tt
        ∙ law.src_call (Call.remove_class (codes "closed") (link ∷ [])) d2 es tt
        ∙ law.src_call (Call.hide (summary ∷ [])) d1 es tt
        ∙ law.src_call (Call.show (content ∷ [])) d es tt
        ∙ h)

  toggle_visibility-switch :
      (b : Bool) (link content summary : ℕ) (image : Str) (d : D)
      → IsSection jq own link content summary d
      → IsShowing jq link content summary image b d
      → toggle_visibility jq link d
        ≡ returns (calls jq (switch b link content summary (trigger jq link d) image) d)
  unfolding toggle_visibility calls set_src switch
  toggle_visibility-switch true link content summary image d sec shows =
      rw
        (
          law.attr_id d link,
          sec.content_is,
          sec.summary_is,
          shows.content_shown,
          shows.source,
          new_end_lem 8 (codes "closed.png") image (codes "open.png") refl,
        )
        refl
  toggle_visibility-switch false link content summary image d sec shows =
      rw
        (
          law.attr_id d link,
          sec.content_is,
          sec.summary_is,
          shows.content_shown,
          shows.source,
          new_end_lem 10 (codes "open.png") image (codes "closed.png") refl,
        )
        refl

  switch-IsSection :
      (b : Bool) (link content summary : ℕ) (image : Str) (d : D)
      → IsSection jq own link content summary d
      → IsSection jq own link content summary
          (calls jq (switch b link content summary (trigger jq link d) image) d)
  switch-IsSection b link content summary image d sec =
      let cs = switch b link content summary (trigger jq link d) image in
      let same =
        calls-Same jq own law cs d
          (switch-IsPlain b link content summary (trigger jq link d) image) in
      record {
        content_is = part-Same jq d (calls jq cs d) link (codes "-content") same ∙ sec.content_is;
        summary_is = part-Same jq d (calls jq cs d) link (codes "-summary") same ∙ sec.summary_is;
        differ = sec.differ;
        content_own = sec.content_own;
        summary_own = sec.summary_own;
      }

  switch-IsShowing :
      (b : Bool) (link content summary : ℕ) (image : Str) (d : D)
      → IsSection jq own link content summary d
      → IsShowing jq link content summary image b d
      → IsShowing jq link content summary image
          (not b)
          (calls jq (switch b link content summary (trigger jq link d) image) d)
  switch-IsShowing b link content summary image d sec shows =
      let es = trigger jq link d in
      let cs = switch b link content summary es image in
      let plain = switch-IsPlain b link content summary es image in
      let same = calls-Same jq own law cs d plain in
      let seen =
        switch-visible b (visible jq content d) (visible jq summary d) link content summary es image
          sec.differ in
      let classes =
        switch-class b (has_class jq (codes "opened") link d) (has_class jq (codes "closed") link d)
          link content summary es image in
      record {
        content_shown = calls-visible jq own law cs d content plain sec.content_own ∙ seen.0;
        summary_shown =
            calls-visible jq own law cs d summary plain sec.summary_own ∙ seen.1 ∙ sym (not-not b);
        source =
            ap (λ z. jq.attr_of (codes "src") z (calls jq cs d))
              (part-Same jq d (calls jq cs d) link (codes "-trigger") same)
            ∙ switch-source b link content summary es image _ d shows.source;
        opened_class = calls-class jq own law cs d (codes "opened") link plain ∙ classes.0;
        closed_class =
            calls-class jq own law cs d (codes "closed") link plain ∙ classes.1 ∙ sym (not-not b);
      }

  -- A click on a section whose content is shown, with its summary hidden and the image and the class
  -- of an open section, returns, hides the content and shows the summary, with those of a closed
  -- section, and the other way round.
  pub toggle_visibility_lem :
      (b : Bool) (link content summary : ℕ) (image : Str) (d : D)
      → IsSection jq own link content summary d
      → IsShowing jq link content summary image b d
      → (d' : D) × (toggle_visibility jq link d ≡ returns d')
        × IsSection jq own link content summary d'
        × IsShowing jq link content summary image (not b) d'
  toggle_visibility_lem b link content summary image d sec shows = (
    calls jq (switch b link content summary (trigger jq link d) image) d,
    toggle_visibility-switch b link content summary image d sec shows,
    switch-IsSection b link content summary image d sec,
    switch-IsShowing b link content summary image d sec shows,
  )

  -- Let a section have one element as its content and another as its summary, each displayed or not
  -- on its own, and let it either show the content and hide the summary, with the image and the
  -- class of an open section, or the other way round, with those of a closed one. Then a click
  -- returns with the section in the other of these two states, and a second click returns with it
  -- in the first again.
  pub toggle_visibility_twice :
      (b : Bool) (link content summary : ℕ) (image : Str) (d : D)
      → IsSection jq own link content summary d
      → IsShowing jq link content summary image b d
      → (d' : D) × (d'' : D) × (toggle_visibility jq link d ≡ returns d')
        × IsSection jq own link content summary d'
        × IsShowing jq link content summary image (not b) d'
        × (toggle_visibility jq link d' ≡ returns d'')
        × IsSection jq own link content summary d''
        × IsShowing jq link content summary image b d''
  toggle_visibility_twice b link content summary image d sec shows =
      let (d', once, sec', shows') =
        toggle_visibility_lem b link content summary image d sec shows in
      let (d'', again, sec'', back) =
        toggle_visibility_lem (not b) link content summary image d' sec' shows' in
      (
        d',
        d'',
        once,
        sec',
        shows',
        again,
        sec'',
        subst (λ a. IsShowing jq link content summary image a d'') (not-not b) back,
      )
