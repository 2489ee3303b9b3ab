-- ===== src/Prefs/Session.antt =====
-- prefs.js: the credentials of a session, and its marker in the cookie.
use rocketmq.Shared.{
  ℕ, Bool, true, false, not, ◌&&◌, ◌||◌, Option, none, some, ◌∷◌, ◌++◌, is_some, ℤ, int_text, Text,
  codes, text_eq, if◌then◌else◌,
}
use rocketmq.Base64
use rocketmq.Uri.{b64_encode_utf8}
use rocketmq.Requests.Query.{◌>>=◌}
use rocketmq.Prefs.Store.{
  Browser, default_hard_session_timeout, minutes_later, login_session_timeout, store_cookie_value,
  store_cookie_value_with_expiration, clear_cookie_value, store_local_pref, clear_local_pref,
  get_local_pref, get_cookie_value,
}

abbrev pub credentials : Text
credentials = codes "credentials"

abbrev pub auth_scheme : Text
auth_scheme = codes "auth-scheme"

abbrev pub logged_in : Text
logged_in = codes "loggedIn"

abbrev pub auth_resource : Text
auth_resource = codes "auth_resource"

-- `set_auth_resource(resource)`
unfoldable pub set_auth_resource : Text → Browser → Option Browser
set_auth_resource resource b = store_local_pref auth_resource resource b

-- `get_auth_resource()`, whose result `none` is `null`
unfoldable pub get_auth_resource : Browser → Option (Option Text)
get_auth_resource b = get_local_pref auth_resource b

-- `has_auth_resource()`
unfoldable pub has_auth_resource : Browser → Option Bool
has_auth_resource b = get_local_pref auth_resource b >>= λ r. some (is_some r)

-- `scheme == get_auth_scheme()`, for a scheme that is asked for
abbrev is_scheme : Option Text → Option Text → Bool
is_scheme none actual = true
is_scheme (some scheme) none = false
is_scheme (some scheme) (some actual) = text_eq scheme actual

-- `has_auth_credentials(auth_scheme)`
unfoldable pub has_auth_credentials : Option Text → Browser → Option Bool
has_auth_credentials asked b = get_local_pref credentials b >>= λ c. elim c [
  | none ↦ some false
  | some _ ↦ get_local_pref auth_scheme b >>= λ s. elim s [
    | none ↦ some false
    | some scheme ↦
        get_cookie_value logged_in b >>= λ m. some (is_some m && is_scheme asked (some scheme))
  ]
]

-- `'' + x` of a text or `null`
abbrev text_or_null : Option Text → Text
text_or_null none = codes "null"
text_or_null (some s) = s

-- `authorization_header()`, whose result `none` is `null`
unfoldable pub authorization_header : Browser → Option (Option Text)
authorization_header b = has_auth_credentials none b >>= λ has.
    if has
    then (get_local_pref auth_scheme b >>= λ s.
        get_local_pref credentials b >>= λ c. some (some (text_or_null s ++ (32 ∷ text_or_null c))))
    else some none

-- `clear_auth()`
unfoldable pub clear_auth : Browser → Option Browser
clear_auth b =
    clear_cookie_value login_session_timeout
      (clear_local_pref auth_scheme (clear_local_pref credentials b))
    >>= λ b1. clear_cookie_value logged_in b1 >>= λ b2. some (clear_local_pref auth_resource b2)

-- `set_auth(auth_scheme, credentials, validUntil)`
unfoldable pub set_auth : Text → Text → Option ℕ → Browser → Option Browser
set_auth scheme secret valid_until b =
    store_local_pref credentials secret
      (clear_local_pref auth_scheme (clear_local_pref credentials b))
    >>= λ b1. store_local_pref auth_scheme scheme b1 >>= λ b2.
        store_cookie_value_with_expiration logged_in (codes "true") valid_until b2

abbrev given_bytes : Base64.Result → Option Text
given_bytes (Base64.ok t) = some t
given_bytes (Base64.err e) = none

-- `set_basic_auth(username, password)`
unfoldable pub set_basic_auth : Text → Text → Browser → Option Browser
unfolding set_auth
set_basic_auth username password b = b64_encode_utf8 (username ++ (b':' ∷ password)) >>= λ r.
    given_bytes r >>= λ secret. set_auth (codes "Basic") secret (default_hard_session_timeout b) b

-- `set_token_auth(token)`
unfoldable pub set_token_auth : Text → Browser → Option Browser
unfolding set_auth
set_token_auth token b = set_auth (codes "Bearer") token (default_hard_session_timeout b) b

-- `update_login_session_timeout(login_session_timeout)`, in minutes
unfoldable pub update_login_session_timeout : ℤ → Browser → Option Browser
update_login_session_timeout minutes b = get_cookie_value login_session_timeout b >>= λ set.
    has_auth_credentials none b >>= λ has.
    if is_some set || not has
    then some b
    else (store_cookie_value login_session_timeout (int_text minutes) b >>= λ b1.
        store_cookie_value_with_expiration logged_in (codes "true")
          (minutes_later (some minutes) b.now) b1)
