-- ===== src/Dynsections/Laws.antt =====
-- What docs/docs/dynsections.js relies on in jQuery and in the pages that it is loaded by.
use hex_fiend.Prelude.{
  ℕ, Bool, true, false, not, ◌&&◌, ◌||◌, List, [], ◌∷◌, ◌++◌, some, leb, ◌==◌, if◌then◌else◌, Str,
  codes, str_eq, take, ◌≡◌, refl, All, lower_char,
}
use hex_fiend.Dynsections.{Call, JQuery, keep, directory_rows}

unfoldable pub mem : ℕ → List ℕ → Bool
mem e [] = false
mem e (x ∷ xs) = e == x || mem e xs

unfoldable pub any : (ℕ → Bool) → List ℕ → Bool
any p [] = false
any p (e ∷ es) = p e || any p es

pub any-same : (p q : ℕ → Bool) → ((e : ℕ) → p e ≡ q e) → (es : List ℕ) → any p es ≡ any q es
unfolding any
any-same p q h [] = refl
any-same p q h (e ∷ es) = rw (h e, any-same p q h es) refl

-- The first, the third, and so on.
unfoldable pub every_other : List ℕ → List ℕ
every_other [] = []
every_other (e ∷ []) = e ∷ []
every_other (e ∷ f ∷ es) = e ∷ every_other es

unfoldable pub starts_with : Str → Str → Bool
starts_with [] s = true
starts_with (p ∷ ps) [] = false
starts_with (p ∷ ps) (c ∷ s) = c == p && starts_with ps s

onto_first : ℕ → List Str → List Str
onto_first c [] = (c ∷ []) ∷ []
onto_first c (w ∷ ws) = (c ∷ w) ∷ ws

-- The text between the spaces.
words : Str → List Str
unfolding onto_first
words [] = [] ∷ []
words (c ∷ s) = if c == b' ' then [] ∷ words s else onto_first c (words s)

is_one_of : Str → List Str → Bool
is_one_of k [] = false
is_one_of k (w ∷ ws) = str_eq k w || is_one_of k ws

-- The class is among those that a call names.
unfoldable pub has_word : Str → Str → Bool
unfolding words is_one_of str_eq
has_word k s = is_one_of k (words s)

-- Letters, digits and `_`, which stand for themselves in a selector and in a regular expression.
unfoldable pub is_name_char : ℕ → Bool
unfolding lower_char
is_name_char c =
    (leb b'a' (lower_char c) && leb (lower_char c) b'z') || (leb b'0' c && leb c b'9') || c == b'_'

abbrev pub IsName : Str → Type 0
IsName = All (λ c. is_name_char c ≡ true)

-- Of attributes only `src` is set.
abbrev pub IsUsual : Call → Type 0
IsUsual (Call.attr k v es) = k ≡ codes "src"
IsUsual _ = Unit

-- No attribute is set.
abbrev pub SetsNone : Call → Type 0
SetsNone (Call.attr k v es) = ⊥
SetsNone _ = Unit

-- The call does not change who has the class.
abbrev pub Spares : Str → Call → Type 0
Spares k (Call.add_class c es) = has_word k c ≡ false
Spares k (Call.remove_class c es) = has_word k c ≡ false
Spares k _ = Unit

-- Whether an element is displayed after a call.
unfoldable pub visible_after : Call → ℕ → Bool → Bool
unfolding mem str_eq
visible_after (Call.show es) e b = mem e es || b
visible_after (Call.hide es) e b = not (mem e es) && b
visible_after (Call.css k v es) e b =
    if str_eq k (codes "display") && mem e es then not (str_eq v (codes "none")) else b
visible_after _ e b = b

-- Whether an element has a class after a call.
unfoldable pub class_after : Call → Str → ℕ → Bool → Bool
unfolding mem has_word
class_after (Call.add_class c es) k e b = (mem e es && has_word k c) || b
class_after (Call.remove_class c es) k e b = not (mem e es && has_word k c) && b
class_after _ k e b = b

module _ {D : Type 0} (jq : JQuery D) where
  abbrev pub visible : ℕ → D → Bool
  visible e d = jq.is (codes ":visible") (e ∷ []) d

  abbrev pub has_class : Str → ℕ → D → Bool
  has_class k e d = jq.is (b'.' ∷ k) (e ∷ []) d

-- jQuery does what its documentation says. An element that is `own` is displayed or not on its own:
-- what is around it is displayed, and it is in no other element of which that is said. The text that
-- `html` sets holds no elements.
pub record IsLawful {D : Type 0} (jq : JQuery D) (own : ℕ → Bool) : Type 0 where
  pub visible_call :
      (c : Call) (d : D) (e : ℕ)
      → IsUsual c
      → own e ≡ true
      → visible jq e (jq.call c d) ≡ visible_after c e (visible jq e d)
  pub class_call :
      (c : Call) (d : D) (k : Str) (e : ℕ)
      → IsUsual c
      → has_class jq k e (jq.call c d) ≡ class_after c k e (has_class jq k e d)
  pub id_call : (c : Call) (d : D) (e : ℕ) → IsUsual c → jq.id_of e (jq.call c d) ≡ jq.id_of e d
  pub rows_call :
      (c : Call) (d : D)
      → IsUsual c
      → Spares (codes "directory") c
      → jq.select directory_rows (jq.call c d) ≡ jq.select directory_rows d
  pub by_id_call :
      (c : Call) (d : D) (x : Str)
      → IsUsual c
      → jq.select (b'#' ∷ x) (jq.call c d) ≡ jq.select (b'#' ∷ x) d
  pub by_id : (d : D) (x : Str) (e : ℕ) → mem e (jq.select (b'#' ∷ x) d) ≡ true → jq.id_of e d ≡ x
  pub next_all_call :
      (c : Call) (d : D) (s : Str) (es : List ℕ)
      → IsUsual c
      → jq.next_all s es (jq.call c d) ≡ jq.next_all s es d
  pub attr_id : (d : D) (e : ℕ) → jq.attr_of (codes "id") (e ∷ []) d ≡ some (jq.id_of e d)
  pub is_visible :
      (d : D) (es : List ℕ) → jq.is (codes ":visible") es d ≡ any (λ e. visible jq e d) es
  pub filter_first : (d : D) (es : List ℕ) → jq.filter (codes ":first") es d ≡ take 1 es
  pub filter_class :
      (d : D) (k : Str) (es : List ℕ)
      → jq.filter (b'.' ∷ k) es d ≡ keep (λ e. has_class jq k e d) es
  pub filter_striped :
      (d : D) (es : List ℕ)
      → jq.filter (codes ":visible:even") es d ≡ every_other (keep (λ e. visible jq e d) es)
  pub filter_prefix :
      (d : D) (x : Str) (es : List ℕ)
      → IsName x
      → jq.filter (codes "[id^=" ++ x ++ codes "]") es d
        ≡ keep (λ e. starts_with x (jq.id_of e d)) es
  pub src_call :
      (c : Call) (d : D) (es : List ℕ)
      → SetsNone c
      → jq.attr_of (codes "src") es (jq.call c d) ≡ jq.attr_of (codes "src") es d
  pub src_set :
      (d : D) (es : List ℕ) (s v : Str)
      → jq.attr_of (codes "src") es d ≡ some s
      → jq.attr_of (codes "src") es (jq.call (Call.attr (codes "src") v es) d) ≡ some v
