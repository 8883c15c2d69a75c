-- ===== src/Menu/Nested.antt =====
-- The tags of a menu are nested.
use hex_fiend.Prelude.{
  Bool, true, false, List, [], ◌∷◌, ◌++◌, Option, none, some, ◌==◌, Str, codes, str_eq, ◌≡◌, refl,
  ap, ◌∙◌, sym, append_assoc, append-nil, All,
}
use hex_fiend.Menu.{Entries, nil, entry, with_list, make_items, make_tree}

-- A reader of HTML is in the text, in the name of a tag, or in the attributes of the tag of a name.
pub data Mode : Type 0 where
  in_text : Mode
  in_name : Str → Mode
  in_attributes : Str → Mode

-- What a tag does to the names of the open ones: it opens, or closes the last one opened.
close_tag : Str → List Str → Option (List Str)
unfolding str_eq
close_tag name [] = none
close_tag name (top ∷ tags) = elim (str_eq top name) [ true ↦ some tags | false ↦ none ]

after_tag : Str → List Str → Option (List Str)
unfolding close_tag
after_tag (c ∷ name) tags = elim (c == b'/') [
  | true ↦ close_tag name tags
  | false ↦ some ((c ∷ name) ∷ tags)
]
after_tag [] tags = none

-- The names of the tags that are open at the end; `none` where a tag closes another than the last.
unfoldable pub read : Str → Mode → List Str → Option (List Str)
unfolding after_tag
read [] in_text tags = some tags
read [] (in_name name) tags = none
read [] (in_attributes name) tags = none
read (c ∷ s) in_text tags = elim (c == b'<') [
  | true ↦ read s (in_name []) tags
  | false ↦ read s in_text tags
]
read (c ∷ s) (in_name name) tags = elim (c == b'>') [
  | true ↦ elim (after_tag name tags) [ none ↦ none | some tags' ↦ read s in_text tags' ]
  | false ↦ elim (c == b' ') [
    | true ↦ read s (in_attributes name) tags
    | false ↦ read s (in_name (name ++ c ∷ [])) tags
  ]
]
read (c ∷ s) (in_attributes name) tags = elim (c == b'>') [
  | true ↦ elim (after_tag name tags) [ none ↦ none | some tags' ↦ read s in_text tags' ]
  | false ↦ read s (in_attributes name) tags
]

-- Neither `<` nor `>` is in the string.
abbrev pub IsPlainText : Str → Type 0
IsPlainText = All (λ c. ((c == b'<') ≡ false) × ((c == b'>') ≡ false))

read-text :
    (t s : Str) (tags : List Str) → IsPlainText t → read (t ++ s) in_text tags ≡ read s in_text tags
unfolding read
read-text [] s tags h = refl
read-text (c ∷ t) s tags (h, more) = rw (h.0, read) (read-text t s tags more)

read-attributes :
    (t s name : Str) (tags : List Str)
    → IsPlainText t
    → read (t ++ s) (in_attributes name) tags ≡ read s (in_attributes name) tags
unfolding read
read-attributes [] s name tags h = refl
read-attributes (c ∷ t) s name tags (h, more) = rw (h.1, read) (read-attributes t s name tags more)

-- The texts and the URLs of the entries have neither `<` nor `>`.
abbrev pub IsPlainMenu : Entries → Type 0
IsPlainMenu nil = Unit
IsPlainMenu (entry text url has children rest) =
    IsPlainText text × IsPlainText url × IsPlainMenu children × IsPlainMenu rest

module _ (rel : Str) (plain : IsPlainText rel) where
  read-item :
      (text url inner s : Str) (tags : List Str)
      → IsPlainText text
      → IsPlainText url
      → ((s' : Str) (tags' : List Str) → read (inner ++ s') in_text tags' ≡ read s' in_text tags')
      → read
          (codes "<li><a href=\""
            ++ (rel
                ++ (url
                    ++ (codes "\">"
                        ++ (text ++ (codes "</a>" ++ (inner ++ (codes "</li>" ++ s))))))))
          in_text
          tags
        ≡ read s in_text tags
  unfolding read
  read-item text url inner s tags ht hu hi =
      read-attributes rel _ (codes "a") (codes "li" ∷ tags) plain
      ∙ read-attributes url _ (codes "a") (codes "li" ∷ tags) hu
      ∙ read-text text _ (codes "a" ∷ codes "li" ∷ tags) ht
      ∙ hi _ (codes "li" ∷ tags)

  read-with_list :
      (has : Bool) (inner s : Str) (tags : List Str)
      → ((s' : Str) (tags' : List Str) → read (inner ++ s') in_text tags' ≡ read s' in_text tags')
      → read (with_list has inner ++ s) in_text tags ≡ read s in_text tags
  unfolding read
  read-with_list true inner s tags hi =
      ap (λ t. read t in_text (codes "ul" ∷ tags)) (append_assoc inner (codes "</ul>") s)
      ∙ hi _ (codes "ul" ∷ tags)
  read-with_list false inner s tags hi = refl

  read-make_items :
      (es : Entries) (s : Str) (tags : List Str)
      → IsPlainMenu es
      → read (make_items rel es ++ s) in_text tags ≡ read s in_text tags
  unfolding make_items
  read-make_items nil s tags h = refl
  read-make_items (entry text url has children rest) s tags (ht, hu, hc, hr) = simp append_assoc (
      read-item text url (with_list has (make_items rel children)) (make_items rel rest ++ s) tags
        ht hu
        (λ s' tags'.
          read-with_list has (make_items rel children) s' tags'
            (λ s'' tags''. read-make_items children s'' tags'' hc))
      ∙ read-make_items rest s tags hr)

-- If no text, URL or path has `<` or `>`, then in the text of the menu every closing tag has the name
-- of the last one that is open, and none is open at the end.
pub read-make_tree :
    (rel : Str) (has : Bool) (es : Entries)
    → IsPlainText rel
    → IsPlainMenu es
    → read (make_tree rel has es) in_text [] ≡ some []
unfolding read make_tree
read-make_tree rel has es plain h =
    ap (λ t. read t in_text []) (sym (append-nil (with_list has (make_items rel es))))
    ∙ read-with_list rel plain has (make_items rel es) [] []
        (λ s tags. read-make_items rel plain es s tags h)
