-- ===== src/Settings/Sections.antt =====
-- main.js: sections of a page that a user opens and closes.
use rocketmq.Shared.{
  ℕ, zero, suc, Bool, true, false, Option, none, some, List, [], ◌∷◌, Text, codes, text_eq,
  if◌then◌else◌,
}
use rocketmq.Requests.Query.{◌>>=◌}
use rocketmq.Prefs.Store.{Browser, get_pref, store_pref, clear_pref, section_pref}

-- A section: the text of its heading; its classes `section`, `section-hidden`, `disable-pref`,
-- `section-visible` and `section-invisible`; and whether its body has the style `display:block`.
pub record Section : Type 0 where
  pub heading : Text
  pub is_section : Bool
  pub is_hidden : Bool
  pub disable_pref : Bool
  pub visible : Bool
  pub invisible : Bool
  pub block : Bool

-- Whether a section is shown, by its preference and its class.
unfoldable pub is_shown : Option Text → Bool → Bool
is_shown none is_section = is_section
is_shown (some t) is_section = text_eq t (codes "t")

-- One round of the loop of `setup_visibility`.
unfoldable pub setup_section : Text → Section → Browser → Option Section
unfolding is_shown
setup_section template s b =
    if s.disable_pref
    then some s
    else (get_pref (section_pref template s.heading) none b >>= λ p. some (
        if is_shown p s.is_section
        then record s { visible = true; block = true }
        else record s { invisible = true }))

-- `setup_visibility()`
unfoldable pub setup_visibility : Text → List Section → Browser → Option (List Section)
setup_visibility template [] b = some []
setup_visibility template (s ∷ sections) b = setup_section template s b >>= λ r.
    setup_visibility template sections b >>= λ rest. some (r ∷ rest)

-- The preference that `toggle_visibility` writes.
unfoldable pub write_toggle : Text → Section → Browser → Option Browser
write_toggle template s b =
    let pref = section_pref template s.heading in
    if s.visible
    then (if s.is_section then store_pref pref (codes "f") b else clear_pref pref b)
    else if s.is_hidden
    then store_pref pref (codes "t") b
    else clear_pref pref b

-- The section after `toggle_visibility`, whose body slides in or out.
unfoldable pub toggled : Section → Section
toggled s =
    if s.visible
    then record s { visible = false; invisible = true; block = false }
    else record s { visible = true; invisible = false; block = true }

-- `toggle_visibility(item)`, with the heading of the section
unfoldable pub toggle_visibility : Text → Section → Browser → Option (Section × Browser)
unfolding write_toggle
toggle_visibility template s b = write_toggle template s b >>= λ c. some (toggled s, c)

-- A click on the heading of the n-th section of a page.
unfoldable pub click_at : Text → ℕ → List Section → Browser → Option (List Section × Browser)
click_at template n [] b = some ([], b)
click_at template zero (s ∷ sections) b =
    toggle_visibility template s b >>= λ r. some (r.0 ∷ sections, r.1)
click_at template (suc n) (s ∷ sections) b =
    click_at template n sections b >>= λ r. some (s ∷ r.0, r.1)

unfoldable pub run_toggles :
    Text → List ℕ → List Section → Browser → Option (List Section × Browser)
run_toggles template [] sections b = some (sections, b)
run_toggles template (n ∷ clicks) sections b =
    click_at template n sections b >>= λ r. run_toggles template clicks r.0 r.1

-- A section as its template writes it.
abbrev pub written : Section → Section
written s = record s { visible = false; invisible = false; block = false }
