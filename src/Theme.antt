-- ===== src/Theme.antt =====
-- theme-switcher.js: the switch between the light and the dark scheme.
use rocketmq.Shared.{
  ℕ, zero, suc, Bool, true, false, not, ◌||◌, Option, none, some, List, [], ◌∷◌, ◌++◌, Text, codes,
  text_eq, starts_with, ◌&&◌, if◌then◌else◌,
}
pub mod Cycle

-- The attributes of a button that the source writes.
pub record Button : Type 0 where
  pub scheme : Option Text
  pub title : Option Text
  pub aria_label : Option Text

-- `saved` is the entry `color-scheme` of the local storage; `light_media` and `dark_media` are the media
-- of all style sheets of a scheme; `light_found` and `dark_found` are whether `lightStyles` and `darkStyles`
-- hold these sheets, or are empty; `system_dark` is whether the system prefers the dark scheme;
-- `listeners` is how many handlers of a click each button has.
pub record Theme : Type 0 where
  pub saved : Option Text
  pub buttons : List Button
  pub light_media : Text
  pub dark_media : Text
  pub light_found : Bool
  pub dark_found : Bool
  pub system_dark : Bool
  pub listeners : ℕ

-- `getSystemScheme`
unfoldable pub system_scheme : Theme → Text
system_scheme theme = if theme.system_dark then codes "dark" else codes "light"

-- The media that `switchMediaScheme` writes to the sheets of a scheme, with the words of the source.
unfoldable pub media_for : Text → Text → Text
media_for own scheme =
    if text_eq scheme (codes "auto")
    then codes "(prefers-color-scheme: " ++ (own ++ codes ")")
    else if text_eq scheme own
    then codes "all"
    else codes "bot all"

-- `switchMediaScheme`: only the sheets that the last query found are changed.
unfoldable pub switch_media_scheme : Text → Theme → Theme
unfolding media_for
switch_media_scheme scheme theme = record theme {
  light_media = if theme.light_found then media_for (codes "light") scheme else theme.light_media;
  dark_media = if theme.dark_found then media_for (codes "dark") scheme else theme.dark_media;
}

-- `setScheme`, with `clearScheme` and `saveScheme`
unfoldable pub set_scheme : Text → Theme → Theme
unfolding switch_media_scheme
set_scheme scheme theme = record (switch_media_scheme scheme theme) {
  saved = if text_eq scheme (codes "auto") then none else some scheme;
}

-- The scheme after a click, from the current one and whether the system is dark.
unfoldable pub next_scheme : Option Text → Bool → Text
next_scheme none system_dark = if system_dark then codes "light" else codes "dark"
next_scheme (some current) system_dark =
    if text_eq current (codes "dark")
    then (if system_dark then codes "auto" else codes "light")
    else if text_eq current (codes "light")
    then (if system_dark then codes "dark" else codes "auto")
    else if system_dark
    then codes "light"
    else codes "dark"

-- The attribute of the first button.
unfoldable pub current_scheme : List Button → Option Text
current_scheme [] = none
current_scheme (b ∷ buttons) = b.scheme

unfoldable pub labelled : Text → Button
labelled scheme =
    let label =
      codes "Switch between dark and light mode (currently " ++ (scheme ++ codes " mode)") in
    record { scheme = some scheme; title = some label; aria_label = some label }

unfoldable pub put_button : ℕ → Button → List Button → List Button
put_button i button [] = []
put_button zero button (b ∷ buttons) = button ∷ buttons
put_button (suc i) button (b ∷ buttons) = b ∷ put_button i button buttons

-- The handler of a click on the button `i`.
unfoldable pub click : ℕ → Theme → Theme
unfolding set_scheme next_scheme current_scheme labelled put_button
click i theme =
    let scheme = next_scheme (current_scheme theme.buttons) theme.system_dark in
    record (set_scheme scheme theme) { buttons = put_button i (labelled scheme) theme.buttons }

unfoldable pub run_clicks : ℕ → ℕ → Theme → Theme
run_clicks zero i theme = theme
run_clicks (suc n) i theme = run_clicks n i (click i theme)

-- A click: every listener runs.
unfoldable pub press : ℕ → Theme → Theme
unfolding run_clicks
press i theme = run_clicks theme.listeners i theme

abbrev mark : Option Text → List Button → List Button
mark saved [] = []
mark none (b ∷ buttons) = b ∷ buttons
mark (some scheme) (b ∷ buttons) = record b { scheme = some scheme } ∷ buttons

-- Whether a text holds another one.
unfoldable pub holds : Text → Text → Bool
holds part [] = text_eq part []
holds part (c ∷ s) = starts_with part (c ∷ s) || holds part s

-- `[media*=prefers-color-scheme][media*=light]`, and the same for dark.
unfoldable pub is_selected : Text → Text → Bool
unfolding holds
is_selected own media = holds (codes "prefers-color-scheme") media && holds own media

-- `initializeSwitcher`, which looks for the style sheets again and adds a listener to each button whenever it
-- runs: it finds none whose media were changed to "all" or "bot all".
unfoldable pub initialize_switcher : Theme → Theme
unfolding is_selected
initialize_switcher theme = record theme {
  light_found = is_selected (codes "light") theme.light_media;
  dark_found = is_selected (codes "dark") theme.dark_media;
  buttons = mark theme.saved theme.buttons;
  listeners = suc theme.listeners;
}

-- `initializeScheme`
unfoldable pub initialize_scheme : Theme → Theme
unfolding set_scheme system_scheme
initialize_scheme theme = elim theme.saved [
  | none ↦ theme
  | some scheme ↦ if text_eq scheme (system_scheme theme) then theme else set_scheme scheme theme
]

-- The handlers of `ready` and `popstate`.
unfoldable pub initialize : Theme → Theme
unfolding initialize_switcher initialize_scheme
initialize theme = initialize_scheme (initialize_switcher theme)
