-- ===== src/Prefs/Store.antt =====
-- prefs.js: preferences, in the local storage or, where there is none, in the cookie. An exception is
-- `none`. The clock is in milliseconds; eight hours on the clock are taken for eight hours of time.
use rocketmq.Shared.{
  ℕ, ◌+◌, ◌-◌, ◌*◌, ◌/◌, Bool, true, false, Option, none, some, List, [], ◌∷◌, ◌++◌, ltb, ℤ, pos,
  negsuc, Text, codes, text_eq, starts_with, drop, take, Dict, lookup, insert, remove,
  parse_int_decimal, if◌then◌else◌,
}
use rocketmq.Requests.Query.{◌>>=◌, index_of}
use rocketmq.Prefs.Hash.{short_key}
use rocketmq.Prefs.Cookie.{get_cookie, parse_text, encode_dict}

-- A column of `COLUMNS`: its key, and whether it is shown by default.
abbrev pub Columns : Type 0
Columns = Dict (Dict (List (Text × Bool)))

-- What the functions read and write: `window.localStorage`, `none` where there is none; the cookie `m`
-- with the time at which it expires, `none` for the end of the browser's session; the clock; `COLUMNS`.
pub record Browser : Type 0 where
  pub storage : Option (Dict Text)
  pub cookie : Option (Text × Option ℕ)
  pub now : ℕ
  pub columns : Columns

-- Whether a cookie that expires at this time is still there.
unfoldable pub is_alive : ℕ → Option ℕ → Bool
is_alive now none = true
is_alive now (some t) = ltb now t

-- `document.cookie`, in which the console has the one cookie
unfoldable pub document_cookie : Browser → Text
unfolding is_alive
document_cookie b = elim b.cookie [
  | none ↦ []
  | some (value, expires) ↦ if is_alive b.now expires then codes "m=" ++ value else []
]

-- `parse_cookie()`; the length of `undefined` is an exception
unfoldable pub parse_cookie : Browser → Option (Dict Text)
unfolding document_cookie
parse_cookie b = elim (get_cookie (codes "m") (document_cookie b)) [
  | none ↦ none
  | some c ↦ some (parse_text c)
]

-- The whole seconds that `toUTCString` writes; of an invalid date, with which the browser keeps the
-- cookie to the end of its session, `none`.
unfoldable pub whole_seconds : Option ℕ → Option ℕ
whole_seconds none = none
whole_seconds (some t) = some (t / 1000 * 1000)

-- `store_cookie_with_expiration(dict, expiration_date)`
unfoldable pub store_cookie_with_expiration : Dict Text → Option ℕ → Browser → Browser
unfolding whole_seconds
store_cookie_with_expiration dict expires b = record b {
  cookie = some (encode_dict dict, whole_seconds expires);
}

unfoldable pub default_hard_session_timeout : Browser → Option ℕ
default_hard_session_timeout b = some (b.now + 8 * 3600000)

-- `date.setMinutes(date.getMinutes() + n)`, for NaN an invalid date
unfoldable pub minutes_later : Option ℤ → ℕ → Option ℕ
minutes_later none now = none
minutes_later (some (pos n)) now = some (now + n * 60000)
minutes_later (some (negsuc n)) now = some (now - (n + 1) * 60000)

abbrev pub login_session_timeout : Text
login_session_timeout = codes "login_session_timeout"

-- The expiry date in `store_cookie`, from the entry for the timeout.
unfoldable pub session_expiry : Option Text → Browser → Option ℕ
unfolding default_hard_session_timeout minutes_later
session_expiry none b = default_hard_session_timeout b
session_expiry (some t) b = minutes_later (parse_int_decimal t) b.now

-- `store_cookie(dict)`
unfoldable pub store_cookie : Dict Text → Browser → Option Browser
unfolding store_cookie_with_expiration session_expiry
store_cookie dict b = short_key login_session_timeout >>= λ key.
    some (store_cookie_with_expiration dict (session_expiry (lookup key dict) b) b)

-- `store_cookie_value(k, v)`
unfoldable pub store_cookie_value : Text → Text → Browser → Option Browser
unfolding parse_cookie store_cookie
store_cookie_value k v b =
    parse_cookie b >>= λ d. short_key k >>= λ key. store_cookie (insert key v d) b

-- `store_cookie_value_with_expiration(k, v, expiration_date)`
unfoldable pub store_cookie_value_with_expiration :
    Text → Text → Option ℕ → Browser → Option Browser
unfolding parse_cookie store_cookie_with_expiration
store_cookie_value_with_expiration k v expires b = parse_cookie b >>= λ d.
    short_key k >>= λ key. some (store_cookie_with_expiration (insert key v d) expires b)

-- `clear_cookie_value(k)`
unfoldable pub clear_cookie_value : Text → Browser → Option Browser
unfolding parse_cookie store_cookie
clear_cookie_value k b =
    parse_cookie b >>= λ d. short_key k >>= λ key. store_cookie (remove key d) b

abbrev pub storage_key : Text → Text
storage_key k = codes "rabbitmq." ++ k

-- `store_local_pref(k, v)`, which throws where there is no local storage
unfoldable pub store_local_pref : Text → Text → Browser → Option Browser
store_local_pref k v b = elim b.storage [
  | none ↦ none
  | some items ↦ some (record b { storage = some (insert (storage_key k) v items) })
]

-- `clear_local_pref(k)`
unfoldable pub clear_local_pref : Text → Browser → Browser
clear_local_pref k b = elim b.storage [
  | none ↦ b
  | some items ↦ record b { storage = some (remove (storage_key k) items) }
]

-- `get_local_pref(k)`: the result `none` is `null`
unfoldable pub get_local_pref : Text → Browser → Option (Option Text)
get_local_pref k b = elim b.storage [
  | none ↦ none
  | some items ↦ some (lookup (storage_key k) items)
]

-- `store_pref(k, v)`
unfoldable pub store_pref : Text → Text → Browser → Option Browser
unfolding store_cookie_value
store_pref k v b = elim b.storage [
  | none ↦ store_cookie_value k v b
  | some items ↦ some (record b { storage = some (insert (storage_key k) v items) })
]

-- `clear_pref(k)`
unfoldable pub clear_pref : Text → Browser → Option Browser
unfolding clear_cookie_value
clear_pref k b = elim b.storage [
  | none ↦ clear_cookie_value k b
  | some items ↦ some (record b { storage = some (remove (storage_key k) items) })
]

-- The value of a column in the groups of a mode: the loops of `default_column_pref`.
unfoldable pub in_options : Text → List (Text × Bool) → Option Text
in_options key [] = none
in_options key ((k, shown) ∷ options) =
    if text_eq k key
    then some (if shown then codes "true" else codes "false")
    else in_options key options

unfoldable pub in_groups : Text → Dict (List (Text × Bool)) → Text
unfolding in_options
in_groups key [] = codes "false"
in_groups key ((group, options) ∷ groups) =
    let later = in_groups key groups in elim (in_options key options) [ none ↦ later | some v ↦ v ]

-- `default_column_pref(key0)`
unfoldable pub default_column_pref : Columns → Text → Text
unfolding in_groups
default_column_pref columns key0 =
    let (mode, key) : Text × Text = elim (index_of (codes "-") key0) [
      | none ↦ ([], key0)
      | some ix ↦ (take ix key0, drop (ix + 1) key0)
    ] in
    elim (lookup mode columns) [ none ↦ codes "false" | some groups ↦ in_groups key groups ]

-- `default_pref(k)`, `none` for `null`
unfoldable pub default_pref : Columns → Text → Option Text
unfolding default_column_pref
default_pref columns k =
    if starts_with (codes "chart-size-") k
    then some (codes "small")
    else if starts_with (codes "rate-mode-") k
    then some (codes "chart")
    else if starts_with (codes "chart-line-") k
    then some (codes "true")
    else if text_eq k (codes "truncate")
    then some (codes "100")
    else if text_eq k (codes "chart-range")
    then some (codes "60|5")
    else if text_eq k (codes "oauth-return-to")
    then some []
    else if starts_with (codes "column-") k
    then some (default_column_pref columns (drop 7 k))
    else none

abbrev pub or_else : Option Text → Option Text → Option Text
or_else none other = other
or_else (some v) other = some v

-- `get_cookie_value(k)`
unfoldable pub get_cookie_value : Text → Browser → Option (Option Text)
unfolding parse_cookie default_pref
get_cookie_value k b = parse_cookie b >>= λ d.
    short_key k >>= λ key. some (or_else (lookup key d) (default_pref b.columns k))

-- `get_pref(k, defaultValue)`
unfoldable pub get_pref : Text → Option Text → Browser → Option (Option Text)
unfolding parse_cookie default_pref
get_pref k default_value b =
    let default = or_else default_value (default_pref b.columns k) in
    elim b.storage [
      | none ↦ parse_cookie b >>= λ d. short_key k >>= λ key. some (or_else (lookup key d) default)
      | some items ↦ some (or_else (lookup (storage_key k) items) default)
    ]

abbrev pub section_pref : Text → Text → Text
section_pref template name = codes "visible|" ++ (template ++ (codes "|" ++ name))

-- `show_column(mode, column)`
unfoldable pub show_column : Text → Text → Browser → Option Bool
unfolding get_pref
show_column mode column b =
    get_pref (codes "column-" ++ (mode ++ (codes "-" ++ column))) none b >>= λ v.
    some (elim v [ none ↦ false | some t ↦ text_eq t (codes "true") ])
