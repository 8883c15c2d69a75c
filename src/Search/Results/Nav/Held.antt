-- ===== src/Search/Results/Nav/Held.antt =====
-- The events of a key that is held.
use hex_fiend.Prelude.{
  ℕ, zero, suc, Bool, true, false, List, [], ◌∷◌, ◌==◌, ◌≡◌, ◌≢◌, refl, arith, ap,
}
use hex_fiend.Search.Results.{Page}
use hex_fiend.Search.Results.Nav.{Event, Kind, keydown, keypress, keyup, process_keys}

abbrev pub event : Kind → ℕ → Event
event kind key = record { kind = kind; key_code = key }

-- What `ProcessKeys` says of so many `keypress` events in a row.
unfoldable pub presses : ℕ → ℕ → Page → List Bool
presses zero code page = []
presses (suc n) code page =
    let (page', go_on) = process_keys (event keypress code) page in go_on ∷ presses n code page'

abbrev pub trues : ℕ → List Bool
trues zero = []
trues (suc n) = true ∷ trues n

keypress-repeat :
    (code : ℕ) (page : Page)
    → page.repeat_on ≡ true
    → (page.last_key == 0) ≡ false
    → process_keys (event keypress code) page ≡ (page, true)
unfolding process_keys
keypress-repeat code page r k = ground (arith, r, k)

presses-repeat :
    (n code : ℕ) (page : Page)
    → page.repeat_on ≡ true
    → (page.last_key == 0) ≡ false
    → presses n code page ≡ trues n
unfolding presses
presses-repeat zero code page r k = refl
presses-repeat (suc n) code page r k =
    rw (keypress-repeat code page r k) (ap (true ∷◌) (presses-repeat n code page r k))

-- A key whose code is not 0 is acted on when it goes down. The first `keypress` that comes with it
-- is not, and every further one is. The event of the key going up is not acted on.
pub key_held :
    (key code n : ℕ) (page : Page)
    → key ≢ 0
    → let down = process_keys (event keydown key) page in
      (down.1 ≡ true)
      × (presses (suc n) code down.0 ≡ false ∷ trues n)
      × ((process_keys (event keyup key) down.0).1 ≡ false)
unfolding presses process_keys
key_held key code n page h =
    let live : (key == 0) ≡ false = ground arith in
    (rw live refl, ap (false ∷◌) (presses-repeat n code _ (rw live refl) live), refl)
