-- ===== src/Prefs/Refinement.antt =====
-- prefs.js: a browser keeps an account over any sequence of the operations.
use rocketmq.Shared.{
  ℕ, suc, ◌+◌, ◌*◌, ◌≡◌, refl, ap, sym, ◌∙◌, subst, Bool-cases, inl, inr, true, false, not, ◌||◌,
  Option, some, List, [], ◌∷◌, is_some, int_text, to_text, Text, text_eq, Dict, remove,
  lookup-remove, arith,
}
use rocketmq.Prefs.Store.{
  Browser, is_alive, whole_seconds, login_session_timeout, minutes_later, clear_cookie_value,
  clear_local_pref, storage_key,
}
use rocketmq.Prefs.Session.{
  credentials, auth_scheme, auth_resource, logged_in, authorization_header, clear_auth,
  update_login_session_timeout,
}
use rocketmq.Prefs.Marks.{Marks, IsCookie, no_marks, live_marks, Reading}
use rocketmq.Prefs.Account.{
  Account, Op, login, logout, limit_session, wait, live, header, replay_op, run_op, run, replay,
}
use rocketmq.Prefs.Kept.{Keeps, read_at, read_marks, has_auth_lem, read_limit, header_lem}
use rocketmq.Prefs.Writes.{Stored, store_marker, store_limit, remove_limit, remove_marker}
use rocketmq.Prefs.Logins.{Ends, later_is_alive, wait_lem, login_lem}

-- What was stored is read, while it is alive.
read_after :
    {b d : Browser} {k : Marks} {e : Option ℕ}
    → Stored b d k e
    → is_alive b.now (whole_seconds e) ≡ true
    → Reading d k
unfolding live_marks
read_after {b} {d} {k} {e} s alive =
    subst (Reading d) (rw (alive) refl)
      (read_at (some (k, whole_seconds e)) (ap (λ x. x.now) s.same) s.cookie)

-- The storage after the credentials are cleared.
abbrev cleared : Dict Text → Dict Text
cleared items = remove (storage_key auth_scheme) (remove (storage_key credentials) items)

clear_auth_lem :
    (b d1 d2 : Browser) (items : Dict Text)
    → b.storage ≡ some items
    → clear_cookie_value login_session_timeout (record b { storage = some (cleared items) })
      ≡ some d1
    → clear_cookie_value logged_in d1 ≡ some d2
    → d2.storage ≡ some (cleared items)
    → clear_auth b
      ≡ some (record d2 { storage = some (remove (storage_key auth_resource) (cleared items)) })
unfolding clear_auth clear_local_pref
clear_auth_lem b d1 d2 items e one two rest = rw (e, one, two, rest) refl

logout_lem : {b : Browser} {a : Account} → Keeps b a → Ends (run_op logout b) (replay_op logout a)
unfolding run_op replay_op text_eq
logout_lem {b} {a} k =
    let b1 = record b { storage = some (cleared k.items) } in
    let here : Reading b1 (live a) = read_at a.marks k.now k.cookie in
    let (d1, done1, end1) = remove_limit here in
    let (d2, done2, end2) =
      remove_marker (read_after end1 (later_is_alive b.now _ (omega arith))) refl in
    let kept : d2.storage ≡ some (cleared k.items) =
      ap (λ x. x.storage) end2.same ∙ ap (λ x. x.storage) end1.same in
    let now : d1.now ≡ a.now = ap (λ x. x.now) end1.same ∙ k.now in
    (
      record d2 { storage = some (remove (storage_key auth_resource) (cleared k.items)) },
      clear_auth_lem b d1 d2 k.items k.stored done1 done2 kept,
      record {
        now = ap (λ x. x.now) end2.same ∙ now;
        items = remove (storage_key auth_resource) (cleared k.items);
        stored = refl;
        scheme =
            lookup-remove (storage_key auth_resource) (storage_key auth_scheme) (cleared k.items)
            ∙ lookup-remove (storage_key auth_scheme) (storage_key auth_scheme) _;
        secret =
            lookup-remove (storage_key auth_resource) (storage_key credentials) (cleared k.items)
            ∙ (lookup-remove (storage_key auth_scheme) (storage_key credentials) _
                ∙ lookup-remove (storage_key credentials) (storage_key credentials) k.items);
        cookie =
            subst
              (λ t. IsCookie d2.cookie (some (no_marks, whole_seconds (some (t + 8 * 3600000)))))
              now end2.cookie;
      },
    )

-- The limit of a session that has one, or of none.
unlimited_lem :
    (n : ℕ) {b : Browser} {a : Account}
    → Keeps b a
    → (is_some (live a).limit || not (is_some (header a))) ≡ true
    → Ends (run_op (limit_session n) b) (replay_op (limit_session n) a)
unfolding run_op replay_op update_login_session_timeout
unlimited_lem n {b} {a} k idle = (
  b,
  rw (read_limit (read_marks k), has_auth_lem k, idle) refl,
  subst (Keeps b) (sym (rw (idle) refl)) k,
)

-- The account after a limit is set.
abbrev limited_account : ℕ → Account → Account
limited_account n a = record a {
  marks = some (
    record { marked = true; limit = some (to_text (suc n)) },
    whole_seconds (some (a.now + suc n * 60000)),
  );
}

limited_account_lem :
    (n : ℕ) (a : Account)
    → (is_some (live a).limit || not (is_some (header a))) ≡ false
    → limited_account n a ≡ replay_op (limit_session n) a
unfolding replay_op
limited_account_lem n a due = rw (due) refl

limited_lem :
    (n : ℕ) {b : Browser} {a : Account}
    → Keeps b a
    → (is_some (live a).limit || not (is_some (header a))) ≡ false
    → Ends (run_op (limit_session n) b) (replay_op (limit_session n) a)
unfolding run_op replay_op update_login_session_timeout int_text minutes_later
limited_lem n {b} {a} k due =
    let (d1, done1, end1) = store_limit (suc n) (read_marks k) in
    let after = some (b.now + suc n * 60000) in
    let (d2, done2, end2) =
      store_marker after (read_after end1 (later_is_alive b.now _ (omega arith))) in
    (
      d2,
      rw (read_limit (read_marks k), has_auth_lem k, due, done1) done2,
      subst (Keeps d2) (limited_account_lem n a due) (record {
        now = ap (λ x. x.now) end2.same ∙ (ap (λ x. x.now) end1.same ∙ k.now);
        items = k.items;
        stored = ap (λ x. x.storage) end2.same ∙ (ap (λ x. x.storage) end1.same ∙ k.stored);
        scheme = k.scheme;
        secret = k.secret;
        cookie =
            subst
              (λ t. IsCookie d2.cookie (
                some (
                  record { marked = true; limit = some (to_text (suc n)) },
                  whole_seconds (some (t + suc n * 60000)),
                )))
              k.now end2.cookie;
      }),
    )

-- Each operation returns, and keeps the account.
pub run_op-Keeps :
    (op : Op) {b : Browser} {a : Account} → Keeps b a → Ends (run_op op b) (replay_op op a)
run_op-Keeps (login scheme secret) k = login_lem scheme secret k
run_op-Keeps logout k = logout_lem k
run_op-Keeps (wait ms) k = wait_lem ms k
run_op-Keeps (limit_session n) {b} {a} k =
    elim (Bool-cases (is_some (live a).limit || not (is_some (header a)))) [
      | inl idle ↦ unlimited_lem n k idle
      | inr due ↦ limited_lem n k due
    ]

run-Keeps :
    (ops : List Op) {b : Browser} {a : Account} → Keeps b a → Ends (run ops b) (replay ops a)
unfolding run replay
run-Keeps [] {b} k = (b, refl, k)
run-Keeps (op ∷ ops) {b} {a} k =
    let (d, done, kept) = run_op-Keeps op k in
    let (e, finished, keeps) = run-Keeps ops kept in (e, rw (done) finished, keeps)

-- From a browser that keeps an account, any sequence of logins, logouts, limits and waits returns, and
-- the authorization header is then that of the account that the sequence describes.
pub run_refines :
    (ops : List Op) (b : Browser) (a : Account)
    → Keeps b a
    → (d : Browser) × (run ops b ≡ some d) × (authorization_header d ≡ some (header (replay ops a)))
run_refines ops b a k = let (d, done, kept) = run-Keeps ops k in (d, done, header_lem kept)
