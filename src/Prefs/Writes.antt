-- ===== src/Prefs/Writes.antt =====
-- prefs.js: what the functions that write the cookie leave in it.
use rocketmq.Shared.{
  ℕ, ◌+◌, ◌*◌, ◌≡◌, refl, ◌∙◌, true, false, Option, none, some, to_text, parse_int_decimal-to_text,
  to_text-IsDigit, Text, codes, text_eq, Dict, insert, remove, lookup-insert, lookup-remove, All,
  All-weaken, arith,
}
use rocketmq.Prefs.Hash.{IsLowHex}
use rocketmq.Prefs.CookieText.{IsCookieDict}
use rocketmq.Prefs.Store.{
  Browser, whole_seconds, login_session_timeout, store_cookie_with_expiration, store_cookie,
  session_expiry, minutes_later, default_hard_session_timeout, store_cookie_value,
  store_cookie_value_with_expiration, clear_cookie_value,
}
use rocketmq.Prefs.Session.{logged_in}
use rocketmq.Prefs.Marks.{
  marker_key, limit_key, short_key-logged_in, short_key-limit, Marks, HasMarks, IsCookie, Reading,
  insert-IsCookieDict, remove-IsCookieDict,
}

-- The page after a cookie with these marks is stored.
pub record Stored (b d : Browser) (k : Marks) (expires : Option ℕ) : Type 0 where
  pub same : d ≡ record b { cookie = d.cookie }
  pub cookie : IsCookie d.cookie (some (k, whole_seconds expires))

stored :
    (b : Browser) (dict : Dict Text) (k : Marks) (expires : Option ℕ)
    → IsCookieDict dict
    → HasMarks dict k
    → Stored b (store_cookie_with_expiration dict expires b) k expires
unfolding store_cookie_with_expiration
stored b dict k expires valid marks = record {
  same = refl;
  cookie = (dict, refl, valid, marks, refl);
}

abbrev marked : Marks → Marks
marked k = record k { marked = true }

abbrev limited : Text → Marks → Marks
limited t k = record k { limit = some t }

insert-marker-HasMarks :
    (d : Dict Text) (k : Marks)
    → HasMarks d k
    → HasMarks (insert marker_key (codes "true") d) (marked k)
unfolding text_eq
insert-marker-HasMarks d k (m, l) = (
  lookup-insert marker_key marker_key (codes "true") d,
  lookup-insert marker_key limit_key (codes "true") d ∙ l,
)

insert-limit-HasMarks :
    (t : Text) (d : Dict Text) (k : Marks)
    → HasMarks d k
    → HasMarks (insert limit_key t d) (limited t k)
unfolding text_eq
insert-limit-HasMarks t d k (m, l) =
    (lookup-insert limit_key marker_key t d ∙ m, lookup-insert limit_key limit_key t d)

remove-marker-HasMarks :
    (d : Dict Text) (k : Marks)
    → HasMarks d k
    → HasMarks (remove marker_key d) (record k { marked = false })
unfolding text_eq
remove-marker-HasMarks d k (m, l) =
    (lookup-remove marker_key marker_key d, lookup-remove marker_key limit_key d ∙ l)

remove-limit-HasMarks :
    (d : Dict Text) (k : Marks)
    → HasMarks d k
    → HasMarks (remove limit_key d) (record k { limit = none })
unfolding text_eq
remove-limit-HasMarks d k (m, l) =
    (lookup-remove limit_key marker_key d ∙ m, lookup-remove limit_key limit_key d)

marker-IsLowHex : All IsLowHex marker_key
marker-IsLowHex = ground arith

limit-IsLowHex : All IsLowHex limit_key
limit-IsLowHex = ground arith

-- The marker of a session is stored with its expiry.
pub store_marker :
    {b : Browser} {k : Marks} (expires : Option ℕ)
    → Reading b k
    → (d : Browser) × (store_cookie_value_with_expiration logged_in (codes "true") expires b
        ≡ some d)
      × Stored b d (marked k) expires
unfolding store_cookie_value_with_expiration
store_marker {b} {k} expires r = (
  store_cookie_with_expiration (insert marker_key (codes "true") r.dict) expires b,
  rw (r.parsed, short_key-logged_in) refl,
  stored b (insert marker_key (codes "true") r.dict) (marked k) expires
      (insert-IsCookieDict marker_key (codes "true") r.dict marker-IsLowHex (ground arith) r.valid)
      (insert-marker-HasMarks r.dict k r.marks),
)

-- A limit in minutes is stored, and sets the expiry.
pub store_limit :
    {b : Browser} {k : Marks} (n : ℕ)
    → Reading b k
    → (d : Browser) × (store_cookie_value login_session_timeout (to_text n) b ≡ some d)
      × Stored b d (limited (to_text n) k) (some (b.now + n * 60000))
unfolding store_cookie_value store_cookie session_expiry minutes_later
store_limit {b} {k} n r =
    let dict = insert limit_key (to_text n) r.dict in
    let marks = insert-limit-HasMarks (to_text n) r.dict k r.marks in
    (
      store_cookie_with_expiration dict (some (b.now + n * 60000)) b,
      rw (r.parsed, short_key-limit, marks.1, parse_int_decimal-to_text n) refl,
      stored b dict (limited (to_text n) k) (some (b.now + n * 60000))
          (insert-IsCookieDict limit_key (to_text n) r.dict limit-IsLowHex
            (All-weaken (λ c h. omega arith) (to_text n) (to_text-IsDigit n)) r.valid)
          marks,
    )

abbrev eight_hours : Browser → Option ℕ
eight_hours b = some (b.now + 8 * 3600000)

pub remove_limit :
    {b : Browser} {k : Marks}
    → Reading b k
    → (d : Browser) × (clear_cookie_value login_session_timeout b ≡ some d)
      × Stored b d (record k { limit = none }) (eight_hours b)
unfolding clear_cookie_value store_cookie session_expiry default_hard_session_timeout
remove_limit {b} {k} r =
    let dict = remove limit_key r.dict in
    let marks = remove-limit-HasMarks r.dict k r.marks in
    (
      store_cookie_with_expiration dict (eight_hours b) b,
      rw (r.parsed, short_key-limit, marks.1) refl,
      stored b dict (record k { limit = none }) (eight_hours b)
          (remove-IsCookieDict limit_key r.dict r.valid) marks,
    )

pub remove_marker :
    {b : Browser} {k : Marks}
    → Reading b k
    → k.limit ≡ none
    → (d : Browser) × (clear_cookie_value logged_in b ≡ some d)
      × Stored b d (record k { marked = false }) (eight_hours b)
unfolding clear_cookie_value store_cookie session_expiry default_hard_session_timeout
remove_marker {b} {k} r unlimited =
    let dict = remove marker_key r.dict in
    let marks = remove-marker-HasMarks r.dict k r.marks in
    (
      store_cookie_with_expiration dict (eight_hours b) b,
      rw (r.parsed, short_key-logged_in, short_key-limit, marks.1, unlimited) refl,
      stored b dict (record k { marked = false }) (eight_hours b)
          (remove-IsCookieDict marker_key r.dict r.valid) marks,
    )
