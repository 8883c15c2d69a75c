-- ===== src/Search/Site/Tables.antt =====
-- What the test on a table of docs/docs/search/searchdata.js and its pages decides.
use hex_fiend.Prelude.{
  ℕ, suc, true, false, List, [], ◌∷◌, some, ◌==◌, Str, get_elem?, length, zero, ◌≡◌, refl, arith,
  ap, subst, ◌∙◌, All,
}
use hex_fiend.Search.Sections.{index_of}
use hex_fiend.Search.Results.{Entry}
use hex_fiend.Search.Site.{none_of, is_indexed}
use hex_fiend.Search.Site.Indexed.{
  IsNamed, all_named-All, is_indexed-cons, index_of-same, index_of-other,
}
use mathlib.Core.Option

-- There are as many pages as characters, each page has the entries whose name starts with its
-- character, and each character of the table leads to its own page.
pub record IsIndexed (chars : Str) (pages : List (List Entry)) : Type 0 where
  pub lengths : length pages ≡ length chars
  pub named :
      (k c : ℕ)
      → get_elem? chars k ≡ some c
      → (es : List Entry) × (get_elem? pages k ≡ some es) × All (IsNamed c) es
  pub leads : (k c : ℕ) → get_elem? chars k ≡ some c → index_of (c ∷ []) chars ≡ some k

is_indexed-lengths :
    (chars : Str) (pages : List (List Entry))
    → is_indexed chars pages ≡ true
    → length pages ≡ length chars
unfolding is_indexed
is_indexed-lengths [] [] h = refl
is_indexed-lengths [] (page ∷ pages) h = absurd (cc h)
is_indexed-lengths (c ∷ chars) [] h = absurd (cc h)
is_indexed-lengths (c ∷ chars) (page ∷ pages) h =
    ap suc (is_indexed-lengths chars pages (is_indexed-cons c chars page pages h).2)

is_indexed-named :
    (chars : Str) (pages : List (List Entry)) (k c : ℕ)
    → is_indexed chars pages ≡ true
    → get_elem? chars k ≡ some c
    → (es : List Entry) × (get_elem? pages k ≡ some es) × All (IsNamed c) es
unfolding is_indexed
is_indexed-named [] pages k c h at = absurd (cc at)
is_indexed-named (d ∷ chars) [] k c h at = absurd (cc h)
is_indexed-named (d ∷ chars) (page ∷ pages) zero c h at =
    let same : d ≡ c = cc at in
    (
      page,
      refl,
      subst (λ b. All (IsNamed b) page) same
          (all_named-All d page (is_indexed-cons d chars page pages h).0),
    )
is_indexed-named (d ∷ chars) (page ∷ pages) (suc k) c h at =
    is_indexed-named chars pages k c (is_indexed-cons d chars page pages h).2 at

none_of-get :
    (d : ℕ) (chars : Str) (k c : ℕ)
    → none_of d chars ≡ true
    → get_elem? chars k ≡ some c
    → (d == c) ≡ false
unfolding none_of
none_of-get d [] k c h at = absurd (cc at)
none_of-get d (b ∷ chars) zero c h at = let same : b ≡ c = cc at in ground (arith, same)
none_of-get d (b ∷ chars) (suc k) c h at = none_of-get d chars k c (ground arith) at

is_indexed-leads :
    (chars : Str) (pages : List (List Entry)) (k c : ℕ)
    → is_indexed chars pages ≡ true
    → get_elem? chars k ≡ some c
    → index_of (c ∷ []) chars ≡ some k
unfolding is_indexed
is_indexed-leads [] pages k c h at = absurd (cc at)
is_indexed-leads (d ∷ chars) [] k c h at = absurd (cc h)
is_indexed-leads (d ∷ chars) (page ∷ pages) zero c h at =
    let same : d ≡ c = cc at in index_of-same c d chars (ground (arith, same))
is_indexed-leads (d ∷ chars) (page ∷ pages) (suc k) c h at =
    let (_, differs, more) = is_indexed-cons d chars page pages h in
    index_of-other c d chars (none_of-get d chars k c differs at)
    ∙ ap (Option.map suc) (is_indexed-leads chars pages k c more at)

pub is_indexed-IsIndexed :
    (chars : Str) (pages : List (List Entry))
    → is_indexed chars pages ≡ true
    → IsIndexed chars pages
is_indexed-IsIndexed chars pages h = record {
  lengths = is_indexed-lengths chars pages h;
  named = λ k c. is_indexed-named chars pages k c h;
  leads = λ k c. is_indexed-leads chars pages k c h;
}
