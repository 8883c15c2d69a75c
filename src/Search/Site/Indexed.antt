-- ===== src/Search/Site/Indexed.antt =====
-- What the tests on a section's pages decide, and where a word's first character leads.
use hex_fiend.Prelude.{
  ℕ, suc, true, false, List, [], ◌∷◌, ◌++◌, Option, none, some, ◌==◌, if◌then◌else◌, Str,
  str_eq_iff, ==_iff, append-nil, subst, get_elem?, ◌≡◌, refl, arith, ap, ap₂, sym, ◌∙◌, All,
  IsAscii, Bool-cases, inl, inr,
}
use hex_fiend.Search.Ident.{convert_to_id, is_prefix}
use hex_fiend.Search.Ident.Matching.{is_prefix-cons, is_prefix-nil}
use hex_fiend.Search.Sections.{index_of}
use hex_fiend.Search.Results.{Entry}
use hex_fiend.Search.Site.{
  lower_name, matching, concat, is_ascii, starts_with, is_named, all_named, none_of, is_indexed,
}
use mathlib.Core.Option

-- The entry's identifier is that of its name in lower case, which is ASCII and starts with the
-- character.
pub record IsNamed (c : ℕ) (x : Entry) : Type 0 where
  pub coded : x.id ≡ convert_to_id (lower_name x)
  pub ascii : IsAscii (lower_name x)
  pub first : (rest : Str) × (lower_name x ≡ c ∷ rest)

is_ascii-IsAscii : (s : Str) → is_ascii s ≡ true → IsAscii s
unfolding is_ascii
is_ascii-IsAscii [] h = tt
is_ascii-IsAscii (c ∷ s) h = (ground arith, is_ascii-IsAscii s (ground arith))

starts_with-cons : (c : ℕ) (s : Str) → starts_with c s ≡ true → (rest : Str) × (s ≡ c ∷ rest)
unfolding starts_with
starts_with-cons c [] h = absurd (cc h)
starts_with-cons c (d ∷ s) h = (s, ap (λ e. e ∷ s) (ground arith))

is_named-IsNamed : (c : ℕ) (x : Entry) → is_named c x ≡ true → IsNamed c x
unfolding is_named
is_named-IsNamed c x h = record {
  coded = (str_eq_iff x.id (convert_to_id (lower_name x))).0 (ground arith);
  ascii = is_ascii-IsAscii (lower_name x) (ground arith);
  first = starts_with-cons c (lower_name x) (ground arith);
}

pub all_named-All : (c : ℕ) (es : List Entry) → all_named c es ≡ true → All (IsNamed c) es
unfolding all_named
all_named-All c [] h = tt
all_named-All c (x ∷ es) h =
    (is_named-IsNamed c x (ground arith), all_named-All c es (ground arith))

matching-append :
    (w : Str) (xs ys : List Entry) → matching w (xs ++ ys) ≡ matching w xs ++ matching w ys
unfolding matching
matching-append w [] ys = refl
matching-append w (x ∷ xs) ys = ground (arith, matching-append w xs ys)

module _ (d : ℕ) (w : Str) where
  is_prefix-other :
      (c : ℕ) (x : Entry)
      → IsNamed c x
      → (c == d) ≡ false
      → is_prefix (d ∷ w) (lower_name x) ≡ false
  is_prefix-other c x named e =
      let (rest, first) = named.first in
      ap (is_prefix (d ∷ w)) first ∙ is_prefix-cons d c w rest ∙ rw e refl

  -- No entry of a page for another character starts with the word.
  matching-other :
      (c : ℕ) (es : List Entry) → All (IsNamed c) es → (c == d) ≡ false → matching (d ∷ w) es ≡ []
  unfolding matching
  matching-other c [] named e = refl
  matching-other c (x ∷ es) named e =
      rw (is_prefix-other c x named.0 e) (matching-other c es named.1 e)

index_of-nil : (d : ℕ) → index_of (d ∷ []) [] ≡ none
unfolding index_of is_prefix
index_of-nil d = refl

index_of-cons :
    (d c : ℕ) (s : Str)
    → index_of (d ∷ []) (c ∷ s) ≡ (if c == d then some 0 else Option.map suc (index_of (d ∷ []) s))
unfolding index_of
index_of-cons d c s =
    ap (λ b. if b then some 0 else Option.map suc (index_of (d ∷ []) s))
      (is_prefix-cons d c [] s ∙ rw (is_prefix-nil s) (ground arith))

pub index_of-same : (d c : ℕ) (s : Str) → (c == d) ≡ true → index_of (d ∷ []) (c ∷ s) ≡ some 0
index_of-same d c s e = index_of-cons d c s ∙ rw e refl

pub index_of-other :
    (d c : ℕ) (s : Str)
    → (c == d) ≡ false
    → index_of (d ∷ []) (c ∷ s) ≡ Option.map suc (index_of (d ∷ []) s)
index_of-other d c s e = index_of-cons d c s ∙ rw e refl

index_of-none : (d : ℕ) (chars : Str) → none_of d chars ≡ true → index_of (d ∷ []) chars ≡ none
unfolding none_of
index_of-none d [] h = index_of-nil d
index_of-none d (c ∷ chars) h =
    let differs : (c == d) ≡ false = ground arith in
    index_of-cons d c chars ∙ rw (differs, index_of-none d chars (ground arith)) refl

pub is_indexed-cons :
    (c : ℕ) (chars : Str) (page : List Entry) (pages : List (List Entry))
    → is_indexed (c ∷ chars) (page ∷ pages) ≡ true
    → (all_named c page ≡ true) × (none_of c chars ≡ true) × (is_indexed chars pages ≡ true)
unfolding is_indexed
is_indexed-cons c chars page pages h = (ground arith, ground arith, ground arith)

map-suc-none : (o : Option ℕ) → Option.map suc o ≡ none → o ≡ none
map-suc-none none h = refl
map-suc-none (some k) h = absurd (cc h)

map-suc-some :
    (o : Option ℕ) (k : ℕ) → Option.map suc o ≡ some k → (j : ℕ) × (o ≡ some j) × (k ≡ suc j)
map-suc-some none k h = absurd (cc h)
map-suc-some (some j) k h = (j, refl, cc h)

-- If no character of the table is the first of the word, no entry of the section starts with it.
pub matching-not_found :
    (d : ℕ) (w chars : Str) (pages : List (List Entry))
    → is_indexed chars pages ≡ true
    → index_of (d ∷ []) chars ≡ none
    → matching (d ∷ w) (concat pages) ≡ []
unfolding matching is_indexed
matching-not_found d w [] [] h i = refl
matching-not_found d w [] (page ∷ pages) h i = absurd (cc h)
matching-not_found d w (c ∷ chars) [] h i = absurd (cc h)
matching-not_found d w (c ∷ chars) (page ∷ pages) h i =
    let (named, _, more) = is_indexed-cons c chars page pages h in
    elim (Bool-cases (c == d)) [
      | inl e ↦ absurd (cc (i, index_of-same d c chars e))
      | inr e ↦
          matching-append (d ∷ w) page (concat pages)
          ∙ ap₂ ◌++◌ (matching-other d w c page (all_named-All c page named) e) (
              matching-not_found d w chars pages more
                (map-suc-none (index_of (d ∷ []) chars) (sym (index_of-other d c chars e) ∙ i)))
    ]

-- The page that is found holds every entry of the section that starts with the word.
pub matching-found :
    (d : ℕ) (w chars : Str) (pages : List (List Entry)) (k : ℕ)
    → is_indexed chars pages ≡ true
    → index_of (d ∷ []) chars ≡ some k
    → (es : List Entry) × (get_elem? pages k ≡ some es)
      × All (IsNamed d) es
      × (matching (d ∷ w) (concat pages) ≡ matching (d ∷ w) es)
unfolding is_indexed
matching-found d w [] pages k h i = absurd (cc (i, index_of-nil d))
matching-found d w (c ∷ chars) [] k h i = absurd (cc h)
matching-found d w (c ∷ chars) (page ∷ pages) k h i =
    let (named, differs, more) = is_indexed-cons c chars page pages h in
    elim (Bool-cases (c == d)) [
      | inl e ↦
          let start : 0 ≡ k = cc (i, index_of-same d c chars e) in
          (
            page,
            subst (λ j. get_elem? (page ∷ pages) j ≡ some page) start refl,
            subst (λ b. All (IsNamed b) page) ((==_iff c d).0 e) (all_named-All c page named),
            matching-append (d ∷ w) page (concat pages)
                ∙ ap (λ r. matching (d ∷ w) page ++ r)
                    (matching-not_found d w chars pages more (
                      subst (λ b. index_of (b ∷ []) chars ≡ none) ((==_iff c d).0 e)
                        (index_of-none c chars differs)))
                ∙ append-nil (matching (d ∷ w) page),
          )
      | inr e ↦
          let (j, later, at) =
            map-suc-some (index_of (d ∷ []) chars) k (sym (index_of-other d c chars e) ∙ i) in
          let (es, has, all, same) = matching-found d w chars pages j more later in
          (
            es,
            subst (λ n. get_elem? (page ∷ pages) n ≡ some es) (sym at) has,
            all,
            matching-append (d ∷ w) page (concat pages)
                ∙ ap₂ ◌++◌ (matching-other d w c page (all_named-All c page named) e) same,
          )
    ]
