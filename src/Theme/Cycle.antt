-- ===== src/Theme/Cycle.antt =====
-- theme-switcher.js: the order in which clicks show the schemes.
use rocketmq.Shared.{
  ℕ, suc, Bool, true, false, Option, none, some, [], ◌∷◌, ◌≡◌, ◌⊎◌, inl, inr, refl, arith, Text,
  codes, text_eq, ap, ◌∙◌, if◌then◌else◌,
}
use rocketmq.Theme.{
  Button, Theme, click, next_scheme, current_scheme, set_scheme, switch_media_scheme, labelled,
  put_button, run_clicks, media_for,
}

-- A page with one button.
abbrev pub with_button : Button → Theme → Theme
with_button b theme = record theme { buttons = b ∷ [] }

-- The three schemes.
abbrev IsScheme : Text → Type 0
IsScheme s = (s ≡ codes "auto") ⊎ ((s ≡ codes "light") ⊎ (s ≡ codes "dark"))

next_scheme-IsScheme : (current : Option Text) (dark : Bool) → IsScheme (next_scheme current dark)
unfolding next_scheme
next_scheme-IsScheme none dark = ground arith
next_scheme-IsScheme (some current) dark = ground arith

-- The page after a click that chose a scheme.
abbrev shown : Text → Theme → Theme
shown scheme theme = record (set_scheme scheme theme) { buttons = labelled scheme ∷ [] }

-- Sheets that are written twice hold what was written last.
if-if : (b : Bool) (x y z : Text) → (if b then x else if b then y else z) ≡ (if b then x else z)
if-if true x y z = refl
if-if false x y z = refl

click-shown :
    (scheme : Text) (theme : Theme)
    → click 0 (shown scheme theme) ≡ shown (next_scheme (some scheme) theme.system_dark) theme
unfolding click set_scheme switch_media_scheme labelled current_scheme put_button
click-shown scheme theme =
    let next = next_scheme (some scheme) theme.system_dark in
    let light =
      if-if theme.light_found (media_for (codes "light") next) (media_for (codes "light") scheme)
        theme.light_media in
    let dark =
      if-if theme.dark_found (media_for (codes "dark") next) (media_for (codes "dark") scheme)
        theme.dark_media in
    let kept = (click 0 (shown scheme theme)).dark_media in
    ap (λ m. record (shown next theme) { light_media = m; dark_media = kept }) light
    ∙ ap (λ m. record (shown next theme) { dark_media = m }) dark

-- Three clicks of a shown scheme lead back to it.
next_scheme-cycle :
    (scheme : Text) (dark : Bool)
    → IsScheme scheme
    → next_scheme (some (next_scheme (some (next_scheme (some scheme) dark)) dark)) dark ≡ scheme
unfolding next_scheme text_eq
next_scheme-cycle scheme true (inl e) = rw (e) refl
next_scheme-cycle scheme false (inl e) = rw (e) refl
next_scheme-cycle scheme true (inr (inl e)) = rw (e) refl
next_scheme-cycle scheme false (inr (inl e)) = rw (e) refl
next_scheme-cycle scheme true (inr (inr e)) = rw (e) refl
next_scheme-cycle scheme false (inr (inr e)) = rw (e) refl

first_click :
    (b : Button) (theme : Theme)
    → click 0 (with_button b theme) ≡ shown (next_scheme b.scheme theme.system_dark) theme
unfolding click set_scheme switch_media_scheme labelled current_scheme put_button
first_click b theme = refl

-- On a page with one button, after a first click, three more clicks change nothing, whatever the
-- button and the storage held before: the three schemes follow one another in a cycle.
pub run_clicks-cycle :
    (n : ℕ) (b : Button) (theme : Theme)
    → run_clicks (suc (suc (suc n))) 0 (click 0 (with_button b theme))
      ≡ run_clicks n 0 (click 0 (with_button b theme))
unfolding run_clicks
run_clicks-cycle n b theme =
    let first = next_scheme b.scheme theme.system_dark in
    let second = next_scheme (some first) theme.system_dark in
    rw
      (
        first_click b theme,
        click-shown first theme,
        click-shown second theme,
        click-shown (next_scheme (some second) theme.system_dark) theme,
        next_scheme-cycle first theme.system_dark (next_scheme-IsScheme b.scheme theme.system_dark),
      )
      refl
