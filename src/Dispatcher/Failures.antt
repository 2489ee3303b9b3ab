-- ===== src/Dispatcher/Failures.antt =====
-- dispatcher.js: what the handlers do where the calls of the API fail.
use rocketmq.Shared.{
  Bool, true, false, none, List, [], ◌∷◌, ◌≡◌, Text, codes, Dict, All, includes, ◌⊎◌,
}
use rocketmq.Requests.Cast.{Value}
use rocketmq.Dispatcher.Defs.{
  Verb, initiate_logout, go_to_home, Act, go_to, update, partial_update, update_vhosts,
  setup_global_vars, grey_button, Env, Route, update_rate_options, update_column_options,
}

-- What a handler does only after a call that succeeded: it shows the page again, leaves it, ends the session,
-- reads the virtual hosts or the overview again, or greys the button.
unfoldable pub is_progress : Act → Bool
is_progress update = true
is_progress partial_update = true
is_progress (go_to url) = true
is_progress go_to_home = true
is_progress initiate_logout = true
is_progress update_vhosts = true
is_progress setup_global_vars = true
is_progress grey_button = true
is_progress update_rate_options = true
is_progress update_column_options = true
is_progress _ = false

abbrev pub IsCalm : List Act → Type 0
IsCalm = All (λ act. is_progress act ≡ false)

-- Every synchronous call of the API returns false.
abbrev pub Fails : Env → Type 0
Fails env =
    ((verb : Verb) (template : Text) (params : Dict Text) → env.sync verb template params ≡ none)
    × ((template : Text) (params : Dict Value) → env.sync_cast template params ≡ none)

-- The handler of a route is calm.
abbrev pub HasCalm : Env → Route → Type 0
HasCalm env r = (params : Dict Text) → IsCalm (r.handler env params)

-- The routes that ask the API for nothing: the logout, and the two that store preferences and show the page.
abbrev pub offline : List Text
offline = codes "#/logout" ∷ codes "#/rate-options" ∷ codes "#/column-options" ∷ []

abbrev pub IsGuarded : Env → Route → Type 0
IsGuarded env r = (includes r.pattern offline ≡ true) ⊎ HasCalm env r
