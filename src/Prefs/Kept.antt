-- ===== src/Prefs/Kept.antt =====
-- prefs.js: what is read from a browser that keeps an account.
use rocketmq.Shared.{
  ℕ, ◌≡◌, refl, ap, ◌∙◌, subst, Option-cases, Bool-cases, inl, inr, Bool, true, false, ◌&&◌, Option,
  none, some, is_some, Text, text_eq, starts_with, Dict, lookup, if◌then◌else◌,
}
use rocketmq.Prefs.Store.{
  Browser, login_session_timeout, get_local_pref, get_cookie_value, default_pref, storage_key,
  or_else,
}
use rocketmq.Prefs.Session.{
  credentials, auth_scheme, logged_in, has_auth_credentials, authorization_header,
}
use rocketmq.Prefs.Marks.{
  short_key-logged_in, short_key-limit, Marks, flag, IsCookie, live_marks, Reading, reading,
}
use rocketmq.Prefs.Account.{Account, live, header}

abbrev pub scheme_of : Option (Text × Text) → Option Text
scheme_of none = none
scheme_of (some (scheme, secret)) = some scheme

abbrev pub secret_of : Option (Text × Text) → Option Text
secret_of none = none
secret_of (some (scheme, secret)) = some secret

-- A browser that keeps an account.
pub record Keeps (b : Browser) (a : Account) : Type 0 where
  pub now : b.now ≡ a.now
  pub items : Dict Text
  pub stored : b.storage ≡ some items
  pub scheme : lookup (storage_key auth_scheme) items ≡ scheme_of a.auth
  pub secret : lookup (storage_key credentials) items ≡ secret_of a.auth
  pub cookie : IsCookie b.cookie a.marks

pub read_at :
    {b : Browser} {t : ℕ} (m : Option (Marks × Option ℕ))
    → b.now ≡ t
    → IsCookie b.cookie m
    → Reading b (live_marks t m)
read_at {b} m e h = subst (λ t. Reading b (live_marks t m)) e (reading b b.cookie m refl h)

pub read_marks : {b : Browser} {a : Account} → Keeps b a → Reading b (live a)
read_marks {b} {a} k = read_at a.marks k.now k.cookie

read_local :
    (b : Browser) (items : Dict Text) (k : Text)
    → b.storage ≡ some items
    → get_local_pref k b ≡ some (lookup (storage_key k) items)
unfolding get_local_pref
read_local b items k e = rw (e) refl

default_pref-logged_in : (b : Browser) → default_pref b.columns logged_in ≡ none
unfolding default_pref starts_with text_eq
default_pref-logged_in b = refl

default_pref-limit : (b : Browser) → default_pref b.columns login_session_timeout ≡ none
unfolding default_pref starts_with text_eq
default_pref-limit b = refl

or_else-none : (o : Option Text) → or_else o none ≡ o
or_else-none none = refl
or_else-none (some t) = refl

read_marker :
    {b : Browser} {k : Marks} → Reading b k → get_cookie_value logged_in b ≡ some (flag k.marked)
unfolding get_cookie_value
read_marker {b} {k} r =
    rw (r.parsed, short_key-logged_in, r.marks.0, default_pref-logged_in b)
      (ap some (or_else-none (flag k.marked)))

pub read_limit :
    {b : Browser} {k : Marks}
    → Reading b k
    → get_cookie_value login_session_timeout b ≡ some k.limit
unfolding get_cookie_value
read_limit {b} {k} r =
    rw (r.parsed, short_key-limit, r.marks.1, default_pref-limit b) (ap some (or_else-none k.limit))

flag_header :
    (m : Bool) (t : Text) → (is_some (flag m) && true) ≡ is_some (if m then some t else none)
flag_header true t = refl
flag_header false t = refl

read_scheme :
    {b : Browser} {a : Account} → Keeps b a → get_local_pref auth_scheme b ≡ some (scheme_of a.auth)
read_scheme {b} {a} k = read_local b k.items auth_scheme k.stored ∙ ap some k.scheme

read_secret :
    {b : Browser} {a : Account} → Keeps b a → get_local_pref credentials b ≡ some (secret_of a.auth)
read_secret {b} {a} k = read_local b k.items credentials k.stored ∙ ap some k.secret

pub has_auth_lem :
    {b : Browser} {a : Account}
    → Keeps b a
    → has_auth_credentials none b ≡ some (is_some (header a))
unfolding has_auth_credentials header
has_auth_lem {b} {a} k = elim (Option-cases a.auth) [
  | inl absent ↦ rw (read_secret k, absent) refl
  | inr ((s, c), given) ↦
      let secret : get_local_pref credentials b ≡ some (some c) =
        read_secret k ∙ ap (λ o. some (secret_of o)) given in
      let scheme : get_local_pref auth_scheme b ≡ some (some s) =
        read_scheme k ∙ ap (λ o. some (scheme_of o)) given in
      rw (secret, scheme, read_marker (read_marks k), given)
        (ap some (flag_header (live a).marked _))
]

-- The header that is read is that of the account.
pub header_lem : {b : Browser} {a : Account} → Keeps b a → authorization_header b ≡ some (header a)
unfolding authorization_header header
header_lem {b} {a} k = elim (Option-cases a.auth) [
  | inl absent ↦ rw (has_auth_lem k, read_scheme k, read_secret k, absent) refl
  | inr ((s, c), given) ↦ elim (Bool-cases (live a).marked) [
    | inl on ↦ rw (has_auth_lem k, read_scheme k, read_secret k, given, on) refl
    | inr off ↦ rw (has_auth_lem k, read_scheme k, read_secret k, given, off) refl
  ]
]
