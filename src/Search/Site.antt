-- ===== src/Search/Site.antt =====
-- The pages of results of a section beside its table: which entries a search can find.
pub mod Indexed
pub mod Tables
pub mod Ascii
pub mod Found
pub mod Pages
pub mod Checked
use hex_fiend.Prelude.{
  ℕ, Bool, true, false, not, ◌&&◌, List, [], ◌∷◌, ◌++◌, ◌==◌, leb, ltb, if◌then◌else◌, Str, str_eq,
  map, lower_char,
}
use hex_fiend.Search.Ident.{convert_to_id, is_prefix}
use hex_fiend.Search.Results.{Entry}

-- The name of an entry in lower case, which its identifier is made of.
abbrev pub lower_name : Entry → Str
lower_name x = map lower_char x.name

-- The entries whose name starts with a word.
unfoldable pub matching : Str → List Entry → List Entry
matching w [] = []
matching w (x ∷ more) =
    let rest = matching w more in if is_prefix w (lower_name x) then x ∷ rest else rest

-- All entries of a section, page by page.
abbrev pub concat {ℓ} : {A : Type ℓ} → List (List A) → List A
concat [] = []
concat (p ∷ ps) = p ++ concat ps

is_ascii : Str → Bool
is_ascii [] = true
is_ascii (c ∷ s) = ltb c 128 && is_ascii s

starts_with : ℕ → Str → Bool
starts_with c [] = false
starts_with c (d ∷ s) = d == c

-- The name is ASCII, starts with the character, and gives the identifier.
unfoldable pub is_named : ℕ → Entry → Bool
unfolding convert_to_id str_eq is_ascii starts_with lower_char
is_named c x =
    let name = lower_name x in
    str_eq x.id (convert_to_id name) && is_ascii name && starts_with c name

unfoldable pub all_named : ℕ → List Entry → Bool
unfolding is_named
all_named c [] = true
all_named c (x ∷ more) = is_named c x && all_named c more

unfoldable pub none_of : ℕ → Str → Bool
none_of c [] = true
none_of c (d ∷ s) = not (d == c) && none_of c s

-- There is a page for each character of the table, the characters differ, and the entries of a page
-- are named and start with its character.
unfoldable pub is_indexed : Str → List (List Entry) → Bool
unfolding all_named none_of
is_indexed [] [] = true
is_indexed (c ∷ chars) (page ∷ pages) =
    all_named c page && none_of c chars && is_indexed chars pages
is_indexed _ _ = false
