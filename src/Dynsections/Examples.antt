-- ===== src/Dynsections/Examples.antt =====
-- A page on which the sections of docs/docs/dynsections.js run, with jQuery on it.
mod Clicks
use hex_fiend.Prelude.{
  ℕ, zero, suc, Bool, true, false, not, ◌&&◌, ◌||◌, List, [], ◌∷◌, ◌++◌, Option, none, some, ◌==◌,
  ==_iff, if◌then◌else◌, Str, codes, str_eq, str_eq_iff, take, drop, get_elem?, ◌≡◌, refl, arith,
  All, Bool-cases, inl, inr, ap, ◌∙◌, sym, subst,
}
use hex_fiend.Dynsections.{Call, JQuery, keep, directory_rows}
use hex_fiend.Dynsections.Laws.{
  mem, any, any-same, every_other, starts_with, visible_after, class_after, SetsNone, IsLawful,
}
use hex_fiend.Dynsections.Stripes.{keep-agree}

-- What changes on the page.
pub record Doc : Type 0 where
  pub shown : ℕ → Bool
  pub classes : Str → ℕ → Bool
  pub source : ℕ → Option Str
  pub inner : ℕ → Str

after : List ℕ → List ℕ → List ℕ
unfolding mem
after es [] = []
after es (x ∷ xs) = let rest = after es xs in if mem x es then xs else rest

without_last : Str → Str
without_last [] = []
without_last (c ∷ []) = []
without_last (c ∷ d ∷ s) = c ∷ without_last (d ∷ s)

-- What each selector but those of one element selects, and the numbers and identifiers of elements.
module _ (selections : List (Str × List ℕ)) (elements : List (ℕ × Str)) where
  selected : Str → List (Str × List ℕ) → List ℕ
  unfolding str_eq
  selected s [] = []
  selected s ((x, es) ∷ more) = let rest = selected s more in if str_eq s x then es else rest

  name_in : List (ℕ × Str) → ℕ → Str
  name_in [] e = []
  name_in ((n, x) ∷ more) e = let rest = name_in more e in if n == e then x else rest

  numbers : List (ℕ × Str) → List ℕ
  numbers [] = []
  numbers ((n, x) ∷ more) = n ∷ numbers more

  id_in : ℕ → Str
  unfolding name_in
  id_in e = name_in elements e

  select_in : Str → List ℕ
  unfolding keep str_eq id_in numbers selected
  select_in [] = []
  select_in (c ∷ x) =
      if c == b'#'
      then take 1 (keep (λ e. str_eq (id_in e) x) (numbers elements))
      else selected (c ∷ x) selections

  filter_in : Str → List ℕ → Doc → List ℕ
  unfolding keep str_eq every_other starts_with without_last id_in
  filter_in [] es d = es
  filter_in (c ∷ k) es d =
      if c == b'.'
      then keep (d.classes k) es
      else if c == b'['
      then keep (λ e. starts_with (without_last (drop 4 k)) (id_in e)) es
      else if str_eq (c ∷ k) (codes ":first")
      then take 1 es
      else every_other (keep d.shown es)

  is_in : Str → List ℕ → Doc → Bool
  unfolding any
  is_in [] es d = false
  is_in (c ∷ k) es d = if c == b'.' then any (d.classes k) es else any d.shown es

  source_of : List ℕ → Doc → Option Str
  source_of [] d = none
  source_of (e ∷ es) d = d.source e

  attr_in : Str → List ℕ → Doc → Option Str
  unfolding str_eq id_in source_of
  attr_in k [] d = none
  attr_in k (e ∷ es) d = if str_eq k (codes "id") then some (id_in e) else source_of (e ∷ es) d

  call_in : Call → Doc → Doc
  unfolding visible_after class_after mem str_eq
  call_in (Call.html h es) d = record d { inner = λ e. if mem e es then h else d.inner e }
  call_in (Call.attr k v es) d = record d {
    source = λ e. if str_eq k (codes "src") && mem e es then some v else d.source e;
  }
  call_in c d = record d {
    shown = λ e. visible_after c e (d.shown e);
    classes = λ k e. class_after c k e (d.classes k e);
  }

  unfoldable pub page : JQuery Doc
  unfolding select_in filter_in is_in attr_in call_in after
  page = record {
    select = λ s d. select_in s;
    filter = filter_in;
    find = λ s es d. [];
    next_all = λ s es d. after es (select_in directory_rows);
    is = is_in;
    attr_of = attr_in;
    call = call_in;
    id_of = λ e d. id_in e;
  }

  -- What is found first has the property.
  first-mem :
      (p : ℕ → Bool) (e x : ℕ) (more : List ℕ) (b : Bool)
      → p x ≡ b
      → (mem e (take 1 more) ≡ true → p e ≡ true)
      → mem e (take 1 (if b then x ∷ more else more)) ≡ true
      → p e ≡ true
  unfolding mem
  first-mem p e x more true y later h =
      subst (λ z. p z ≡ true) (sym ((==_iff e x).0 (ground arith))) y
  first-mem p e x more false n later h = later h

  keep-mem : (p : ℕ → Bool) (es : List ℕ) (e : ℕ) → mem e (take 1 (keep p es)) ≡ true → p e ≡ true
  unfolding keep mem
  keep-mem p [] e h = absurd (cc h)
  keep-mem p (x ∷ es) e h = first-mem p e x (keep p es) (p x) refl (keep-mem p es e) h

  without_last-append : (x : Str) → without_last (x ++ codes "]") ≡ x
  unfolding without_last
  without_last-append [] = refl
  without_last-append (c ∷ []) = refl
  without_last-append (c ∷ d ∷ x) = ap (c ∷◌) (without_last-append (d ∷ x))

  any-one : (p : ℕ → Bool) (e : ℕ) → any p (e ∷ []) ≡ p e
  unfolding any
  any-one p e = ground arith

  call_in-shown :
      (c : Call) (d : Doc) (e : ℕ) → (call_in c d).shown e ≡ visible_after c e (d.shown e)
  unfolding call_in visible_after
  call_in-shown (Call.show es) d e = refl
  call_in-shown (Call.hide es) d e = refl
  call_in-shown (Call.add_class c es) d e = refl
  call_in-shown (Call.remove_class c es) d e = refl
  call_in-shown (Call.html h es) d e = refl
  call_in-shown (Call.attr k v es) d e = refl
  call_in-shown (Call.css k v es) d e = refl

  call_in-classes :
      (c : Call) (d : Doc) (k : Str) (e : ℕ)
      → (call_in c d).classes k e ≡ class_after c k e (d.classes k e)
  unfolding call_in class_after
  call_in-classes (Call.show es) d k e = refl
  call_in-classes (Call.hide es) d k e = refl
  call_in-classes (Call.add_class c es) d k e = refl
  call_in-classes (Call.remove_class c es) d k e = refl
  call_in-classes (Call.html h es) d k e = refl
  call_in-classes (Call.attr a v es) d k e = refl
  call_in-classes (Call.css a v es) d k e = refl

  call_in-source : (c : Call) (d : Doc) (e : ℕ) → SetsNone c → (call_in c d).source e ≡ d.source e
  unfolding call_in
  call_in-source (Call.show es) d e h = refl
  call_in-source (Call.hide es) d e h = refl
  call_in-source (Call.add_class c es) d e h = refl
  call_in-source (Call.remove_class c es) d e h = refl
  call_in-source (Call.html h es) d e i = refl
  call_in-source (Call.attr a v es) d e h = absurd h
  call_in-source (Call.css a v es) d e h = refl

  page-src_call :
      (c : Call) (d : Doc) (es : List ℕ)
      → SetsNone c
      → attr_in (codes "src") es (call_in c d) ≡ attr_in (codes "src") es d
  unfolding attr_in source_of str_eq
  page-src_call c d [] h = refl
  page-src_call c d (e ∷ es) h = call_in-source c d e h

  page-src_set :
      (d : Doc) (es : List ℕ) (s v : Str)
      → attr_in (codes "src") es d ≡ some s
      → attr_in (codes "src") es (call_in (Call.attr (codes "src") v es) d) ≡ some v
  unfolding attr_in source_of str_eq call_in mem
  page-src_set d [] s v h = absurd (cc h)
  page-src_set d (e ∷ es) s v h = ground arith

  page-filter_prefix :
      (d : Doc) (x : Str) (es : List ℕ)
      → filter_in (codes "[id^=" ++ x ++ codes "]") es d ≡ keep (λ e. starts_with x (id_in e)) es
  unfolding filter_in
  page-filter_prefix d x es =
      ap (λ y. keep (λ e. starts_with y (id_in e)) es) (without_last-append x)

  page-by_id : (x : Str) (e : ℕ) → mem e (select_in (b'#' ∷ x)) ≡ true → id_in e ≡ x
  unfolding select_in
  page-by_id x e h =
      (str_eq_iff (id_in e) x).0 (keep-mem (λ n. str_eq (id_in n) x) (numbers elements) e h)

  pub page-IsLawful : IsLawful page (λ e. true)
  unfolding page is_in filter_in select_in attr_in str_eq
  page-IsLawful = record {
    visible_call = λ c d e u o.
        any-one (call_in c d).shown e
        ∙ call_in-shown c d e
        ∙ ap (visible_after c e) (sym (any-one d.shown e));
    class_call = λ c d k e u.
        any-one ((call_in c d).classes k) e
        ∙ call_in-classes c d k e
        ∙ ap (class_after c k e) (sym (any-one (d.classes k) e));
    id_call = λ c d e u. refl;
    rows_call = λ c d u s. refl;
    by_id_call = λ c d x u. refl;
    by_id = λ d x e h. page-by_id x e h;
    next_all_call = λ c d s es u. refl;
    attr_id = λ d e. refl;
    is_visible =
        λ d es. any-same d.shown (λ e. any d.shown (e ∷ [])) (λ e. sym (any-one d.shown e)) es;
    filter_first = λ d es. refl;
    filter_class = λ d k es.
        keep-agree (d.classes k) (λ e. any (d.classes k) (e ∷ [])) es
          (λ e m. sym (any-one (d.classes k) e));
    filter_striped = λ d es.
        ap every_other
          (keep-agree d.shown (λ e. any d.shown (e ∷ [])) es (λ e m. sym (any-one d.shown e)));
    filter_prefix = λ d x es n. page-filter_prefix d x es;
    src_call = page-src_call;
    src_set = page-src_set;
  }
