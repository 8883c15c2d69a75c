-- ===== src/Menu/Links.antt =====
-- The links of a menu, read back from its text (docs/docs/menu.js).
use hex_fiend.Prelude.{
  Bool, true, false, not, ◌&&◌, List, [], ◌∷◌, ◌++◌, Option, none, some, ◌==◌, Str, codes, ◌≡◌,
  refl, arith, ap, ◌∙◌, sym, append_assoc, append-nil, All, if◌then◌else◌,
}
use hex_fiend.Menu.{Entries, nil, entry, with_list, make_items, make_tree}
use hex_fiend.Menu.Data.{site_menu}
use hex_fiend.Menu.Nested.{IsPlainText, IsPlainMenu, in_text, read, read-make_tree}
use hex_fiend.Menu.Init.{NavCall, init_menu}

-- The strings between quotes, where the reader is outside of quotes or has read a part of one.
unfoldable pub quoted : Option Str → Str → List Str
quoted part [] = []
quoted none (c ∷ s) = elim (c == b'"') [ true ↦ quoted (some []) s | false ↦ quoted none s ]
quoted (some part) (c ∷ s) = elim (c == b'"') [
  | true ↦ part ∷ quoted none s
  | false ↦ quoted (some (part ++ c ∷ [])) s
]

-- The address of each entry, in front of those of its children.
abbrev pub links : Str → Entries → List Str
links rel nil = []
links rel (entry text url has children rest) =
    (rel ++ url) ∷ (if has then links rel children else []) ++ links rel rest

abbrev pub HasNoQuotes : Str → Type 0
HasNoQuotes = All (λ c. (c == b'"') ≡ false)

abbrev pub MenuHasNoQuotes : Entries → Type 0
MenuHasNoQuotes nil = Unit
MenuHasNoQuotes (entry text url has children rest) =
    HasNoQuotes text × HasNoQuotes url × MenuHasNoQuotes children × MenuHasNoQuotes rest

quoted-outside : (t s : Str) → HasNoQuotes t → quoted none (t ++ s) ≡ quoted none s
unfolding quoted
quoted-outside [] s h = refl
quoted-outside (c ∷ t) s (h, more) = rw (h, quoted) (quoted-outside t s more)

quoted-inside :
    (t part s : Str) → HasNoQuotes t → quoted (some part) (t ++ s) ≡ quoted (some (part ++ t)) s
unfolding quoted
quoted-inside [] part s h = ap (λ p. quoted (some p) s) (sym (append-nil part))
quoted-inside (c ∷ t) part s (h, more) =
    rw (h, quoted)
      (quoted-inside t (part ++ c ∷ []) s more
        ∙ ap (λ p. quoted (some p) s) (append_assoc part (c ∷ []) t))

module _ (rel : Str) (plain : HasNoQuotes rel) where
  quoted-item :
      (text url s : Str)
      → HasNoQuotes text
      → HasNoQuotes url
      → quoted none (
          codes "<li><a href=\""
          ++ (rel ++ (url ++ (codes "\">" ++ (text ++ (codes "</a>" ++ s))))))
        ≡ (rel ++ url) ∷ quoted none s
  unfolding quoted
  quoted-item text url s ht hu =
      quoted-inside rel [] _ plain
      ∙ quoted-inside url rel _ hu
      ∙ ap ((rel ++ url) ∷◌) (quoted-outside text _ ht)

  quoted-with_list :
      (has : Bool) (inner s : Str) (out : List Str)
      → ((s' : Str) → quoted none (inner ++ s') ≡ out ++ quoted none s')
      → quoted none (with_list has inner ++ s) ≡ (if has then out else []) ++ quoted none s
  unfolding quoted
  quoted-with_list true inner s out hi =
      ap (quoted none) (append_assoc inner (codes "</ul>") s) ∙ hi (codes "</ul>" ++ s)
  quoted-with_list false inner s out hi = refl

  quoted-make_items :
      (es : Entries) (s : Str)
      → MenuHasNoQuotes es
      → quoted none (make_items rel es ++ s) ≡ links rel es ++ quoted none s
  unfolding make_items
  quoted-make_items nil s h = refl
  quoted-make_items (entry text url has children rest) s (ht, hu, hc, hr) =
      let inner = with_list has (make_items rel children) in
      let below = if has then links rel children else [] in
      simp append_assoc (
        quoted-item text url (inner ++ (codes "</li>" ++ (make_items rel rest ++ s))) ht hu
        ∙ ap ((rel ++ url) ∷◌) (
            quoted-with_list has (make_items rel children)
              (codes "</li>" ++ (make_items rel rest ++ s)) (links rel children)
              (λ s'. quoted-make_items children s' hc)
            ∙ ap (λ q. below ++ q)
                (quoted-outside (codes "</li>") (make_items rel rest ++ s)
                    (refl, (refl, (refl, (refl, (refl, tt)))))
                  ∙ quoted-make_items rest s hr)))

-- If no text, URL or path has a quote, then the quoted strings in the text of the menu are the
-- addresses of its entries, each in front of those below it, and no other.
pub quoted-make_tree :
    (rel : Str) (es : Entries)
    → HasNoQuotes rel
    → MenuHasNoQuotes es
    → quoted none (make_tree rel true es) ≡ links rel es
unfolding make_tree quoted
quoted-make_tree rel es plain h =
    ap (quoted none) (sym (append-nil (with_list true (make_items rel es))))
    ∙ quoted-with_list rel plain true (make_items rel es) [] (links rel es)
        (λ s. quoted-make_items rel plain es s h)
    ∙ append-nil (links rel es)

-- The tests on the menu of the site.
is_clean : Str → Bool
is_clean [] = true
is_clean (c ∷ s) = not (c == b'<') && not (c == b'>') && not (c == b'"') && is_clean s

clean_menu : Entries → Bool
unfolding is_clean
clean_menu nil = true
clean_menu (entry text url has children rest) =
    is_clean text && is_clean url && clean_menu children && clean_menu rest

is_clean-both : (s : Str) → is_clean s ≡ true → IsPlainText s × HasNoQuotes s
unfolding is_clean
is_clean-both [] h = (tt, tt)
is_clean-both (c ∷ s) h =
    let rest = is_clean-both s (ground arith) in
    (((ground arith, ground arith), rest.0), (ground arith, rest.1))

clean_menu-both : (es : Entries) → clean_menu es ≡ true → IsPlainMenu es × MenuHasNoQuotes es
unfolding clean_menu
clean_menu-both nil h = (tt, tt)
clean_menu-both (entry text url has children rest) h =
    let t = is_clean-both text (ground arith) in
    let u = is_clean-both url (ground arith) in
    let c = clean_menu-both children (ground arith) in
    let r = clean_menu-both rest (ground arith) in ((t.0, u.0, c.0, r.0), (t.1, u.1, c.1, r.1))

site_menu_clean : clean_menu site_menu ≡ true
unfolding clean_menu is_clean
site_menu_clean = refl

-- `initMenu` first appends to the navigation a text with the site's menu, where every closing tag has
-- the name of the last one that is open, and none is open at the end, and where the quoted strings
-- are the addresses of the entries of `menudata`. The path has no quote, `<` or `>`.
pub init_menu_lem :
    (rel_path : Str) (search_enabled server_side : Bool) (search_page search : Str)
    → IsPlainText rel_path
    → HasNoQuotes rel_path
    → (text : Str) × (more : List NavCall) × (init_menu rel_path search_enabled server_side
          search_page search
        ≡ NavCall.append (codes "#main-nav") text ∷ more)
      × (read text in_text [] ≡ some [])
      × (quoted none text ≡ links rel_path site_menu)
unfolding init_menu
init_menu_lem rel_path search_enabled server_side search_page search plain unquoted =
    let both = clean_menu-both site_menu site_menu_clean in
    (
      make_tree rel_path true site_menu,
      _,
      refl,
      read-make_tree rel_path true site_menu plain both.0,
      quoted-make_tree rel_path site_menu unquoted both.1,
    )
