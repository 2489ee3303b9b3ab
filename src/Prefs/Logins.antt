-- ===== src/Prefs/Logins.antt =====
-- prefs.js: a browser keeps an account over a login and over time that passes.
use rocketmq.Shared.{
  ℕ, ◌+◌, ◌*◌, ◌≡◌, ◌≤◌, refl, ap, ◌∙◌, subst, true, Option, some, Text, codes, text_eq, Dict,
  insert, remove, lookup-insert, arith,
}
use rocketmq.Prefs.Store.{
  Browser, is_alive, whole_seconds, default_hard_session_timeout,
  store_cookie_value_with_expiration, store_local_pref, clear_local_pref, storage_key,
}
use rocketmq.Prefs.Session.{credentials, auth_scheme, logged_in, set_auth}
use rocketmq.Prefs.Marks.{IsCookie, Reading}
use rocketmq.Prefs.Account.{Account, login, wait, live, replay_op, run_op}
use rocketmq.Prefs.Kept.{Keeps, read_at}
use rocketmq.Prefs.Writes.{store_marker}

-- What an operation leaves.
abbrev pub Ends : Option Browser → Account → Type 0
Ends done a = (b : Browser) × (done ≡ some b) × Keeps b a

-- A cookie that ends later than this second is alive.
pub later_is_alive : (now t : ℕ) → now + 1000 ≤ t → is_alive now (whole_seconds (some t)) ≡ true
unfolding is_alive whole_seconds
later_is_alive now t h = ground arith

pub wait_lem :
    (ms : ℕ) {b : Browser} {a : Account}
    → Keeps b a
    → Ends (run_op (wait ms) b) (replay_op (wait ms) a)
unfolding run_op replay_op
wait_lem ms {b} {a} k = (
  record b { now = b.now + ms },
  refl,
  record {
    now = ap (λ t. t + ms) k.now;
    items = k.items;
    stored = k.stored;
    scheme = k.scheme;
    secret = k.secret;
    cookie = k.cookie;
  },
)

-- The storage after the credentials are set.
abbrev pub set_items : Text → Text → Dict Text → Dict Text
set_items scheme secret items = insert (storage_key auth_scheme) scheme (
    insert (storage_key credentials) secret
      (remove (storage_key auth_scheme) (remove (storage_key credentials) items)))

set_auth_lem :
    (scheme secret : Text) (expires : Option ℕ) (b : Browser) (items : Dict Text)
    → b.storage ≡ some items
    → set_auth scheme secret expires b
      ≡ store_cookie_value_with_expiration logged_in
          (codes "true")
          expires
          (record b { storage = some (set_items scheme secret items) })
unfolding set_auth clear_local_pref store_local_pref
set_auth_lem scheme secret expires b items e = rw (e) refl

-- A login returns, keeps the account, and adds only the credentials to the storage.
pub login_stores :
    (scheme secret : Text) {b : Browser} {a : Account} (k : Keeps b a)
    → (d : Browser) × (run_op (login scheme secret) b ≡ some d)
      × (kept : Keeps d (replay_op (login scheme secret) a)) × (kept.items
          ≡ set_items scheme secret k.items)
unfolding run_op replay_op default_hard_session_timeout text_eq
login_stores scheme secret {b} {a} k =
    let items = set_items scheme secret k.items in
    let b1 = record b { storage = some items } in
    let expires = some (b.now + 8 * 3600000) in
    let here : Reading b1 (live a) = read_at a.marks k.now k.cookie in
    let (d, done, end) = store_marker expires here in
    (
      d,
      set_auth_lem scheme secret expires b k.items k.stored ∙ done,
      record {
        now = ap (λ x. x.now) end.same ∙ k.now;
        items = items;
        stored = ap (λ x. x.storage) end.same;
        scheme = lookup-insert (storage_key auth_scheme) (storage_key auth_scheme) scheme _;
        secret =
            lookup-insert (storage_key auth_scheme) (storage_key credentials) scheme _
            ∙ lookup-insert (storage_key credentials) (storage_key credentials) secret _;
        cookie =
            subst
              (λ t. IsCookie d.cookie (
                some (
                  record { marked = true; limit = (live a).limit },
                  whole_seconds (some (t + 8 * 3600000)),
                )))
              k.now end.cookie;
      },
      refl,
    )

pub login_lem :
    (scheme secret : Text) {b : Browser} {a : Account}
    → Keeps b a
    → Ends (run_op (login scheme secret) b) (replay_op (login scheme secret) a)
login_lem scheme secret k = let (d, done, kept, _) = login_stores scheme secret k in (d, done, kept)
