-- ===== src/Prefs/Marks.antt =====
-- prefs.js: the two entries that a session has in the cookie, and what the cookie says of them.
use rocketmq.Shared.{
  ℕ, ◌≡◌, refl, ap, sym, Bool, true, false, Option, none, some, [], ◌∷◌, ◌++◌, Text, codes, text_eq,
  text_eq_iff, text_eq_refl, subst, Dict, lookup, insert, remove, split, split_from, trim, trim_end,
  skip_spaces, All, arith, Bool-cases, inl, inr, if◌then◌else◌,
}
use rocketmq.Uri.Encoded.{IsUnit}
use rocketmq.Prefs.Hash.{short_key, IsLowHex, hash_code, hash_from, low_half, to_hex, hex_from}
use rocketmq.Prefs.Cookie.{get_cookie, parse_text, encode_dict, find_cookie}
use rocketmq.Prefs.CookieText.{
  IsEntry, IsDistinct, IsCookieDict, parse_text-encode_dict, get_cookie-of-dict,
}
use rocketmq.Prefs.Store.{Browser, parse_cookie, document_cookie, is_alive, login_session_timeout}
use rocketmq.Prefs.Session.{logged_in}

-- The short keys of the two entries.
abbrev pub marker_key : Text
marker_key = codes "59b9"

abbrev pub limit_key : Text
limit_key = codes "2c1e"

pub short_key-logged_in : short_key logged_in ≡ some marker_key
unfolding short_key hash_code hash_from low_half to_hex hex_from
short_key-logged_in = refl

pub short_key-limit : short_key login_session_timeout ≡ some limit_key
unfolding short_key hash_code hash_from low_half to_hex hex_from
short_key-limit = refl

-- What an entry says: whether a session runs, and the limit of it in minutes.
pub record Marks : Type 0 where
  pub marked : Bool
  pub limit : Option Text

abbrev pub flag : Bool → Option Text
flag true = some (codes "true")
flag false = none

abbrev pub HasMarks : Dict Text → Marks → Type 0
HasMarks d k = (lookup marker_key d ≡ flag k.marked) × (lookup limit_key d ≡ k.limit)

-- A cookie as the two entries, with its expiry.
abbrev pub IsCookie : Option (Text × Option ℕ) → Option (Marks × Option ℕ) → Type 0
IsCookie none none = Unit
IsCookie (some (value, e)) (some (k, f)) =
    (d : Dict Text) × (value ≡ encode_dict d) × IsCookieDict d × HasMarks d k × (e ≡ f)
IsCookie none (some m) = true ≡ false
IsCookie (some c) none = true ≡ false

abbrev pub no_marks : Marks
no_marks = record { marked = false; limit = none }

-- What a cookie still says at a time.
unfoldable pub live_marks : ℕ → Option (Marks × Option ℕ) → Marks
unfolding is_alive
live_marks now none = no_marks
live_marks now (some (k, expires)) = if is_alive now expires then k else no_marks

-- What `parse_cookie` gives for a cookie.
pub record Reading (b : Browser) (k : Marks) : Type 0 where
  pub dict : Dict Text
  pub parsed : parse_cookie b ≡ some dict
  pub valid : IsCookieDict dict
  pub marks : HasMarks dict k

parsed-none : (b : Browser) → document_cookie b ≡ [] → parse_cookie b ≡ some []
unfolding parse_cookie get_cookie find_cookie parse_text split split_from trim trim_end skip_spaces
    text_eq
parsed-none b e = rw (e, parse_cookie) refl

parsed-dict :
    (b : Browser) (d : Dict Text)
    → IsCookieDict d
    → document_cookie b ≡ codes "m=" ++ encode_dict d
    → parse_cookie b ≡ some d
unfolding parse_cookie
parsed-dict b d h e =
    rw (e, get_cookie-of-dict d h.0, parse_cookie) (ap some (parse_text-encode_dict d h))

no_cookie_lem : (b : Browser) → document_cookie b ≡ [] → Reading b no_marks
unfolding lookup
no_cookie_lem b e = record {
  dict = [];
  parsed = parsed-none b e;
  valid = (tt, tt);
  marks = (refl, refl);
}

-- A cookie is read as what it still says.
pub reading :
    (b : Browser) (c : Option (Text × Option ℕ)) (m : Option (Marks × Option ℕ))
    → b.cookie ≡ c
    → IsCookie c m
    → Reading b (live_marks b.now m)
unfolding live_marks document_cookie
reading b none none e h = no_cookie_lem b (rw (e) refl)
reading b none (some m) e h = absurd (ground arith)
reading b (some c) none e h = absurd (ground arith)
reading b (some (value, expires)) (some (k, f)) e (d, written, valid, marks, same) =
    elim (Bool-cases (is_alive b.now f)) [
      | inl alive ↦
          let shown : document_cookie b ≡ codes "m=" ++ encode_dict d =
            rw (e, same, alive, written) refl in
          rw (alive) (record {
            dict = d;
            parsed = parsed-dict b d valid shown;
            valid = valid;
            marks = marks;
          })
      | inr gone ↦
          let shown : document_cookie b ≡ [] = rw (e, same, gone) refl in
          rw (gone) (no_cookie_lem b shown)
    ]

-- Entries of a dictionary that is changed.
insert-All :
    (P : Text × Text → Type 0) (k v : Text) (d : Dict Text)
    → ((j : Text) → text_eq j k ≡ true → P (j, v))
    → All P d
    → All P (insert k v d)
unfolding insert
insert-All P k v [] q h = (q k (text_eq_refl k), tt)
insert-All P k v ((j, w) ∷ d) q (p, h) = elim (Bool-cases (text_eq j k)) [
  | inl same ↦ rw (same) (q j same, h)
  | inr other ↦ rw (other) (p, insert-All P k v d q h)
]

remove-All : (P : Text × Text → Type 0) (k : Text) (d : Dict Text) → All P d → All P (remove k d)
unfolding remove
remove-All P k [] h = tt
remove-All P k ((j, w) ∷ d) (p, h) = elim (Bool-cases (text_eq j k)) [
  | inl same ↦ rw (same) (remove-All P k d h)
  | inr other ↦ rw (other) (p, remove-All P k d h)
]

insert-IsDistinct : (k v : Text) (d : Dict Text) → IsDistinct d → IsDistinct (insert k v d)
unfolding insert
insert-IsDistinct k v [] h = (tt, tt)
insert-IsDistinct k v ((j, w) ∷ d) (p, h) = elim (Bool-cases (text_eq j k)) [
  | inl same ↦ rw (same) (p, h)
  | inr other ↦ rw (other) (
    insert-All (λ e. text_eq j e.0 ≡ false) k v d
        (λ i eq. ground (arith, text_eq_iff j i, text_eq_iff i k, text_eq_iff j k)) p,
    insert-IsDistinct k v d h,
  )
]

remove-IsDistinct : (k : Text) (d : Dict Text) → IsDistinct d → IsDistinct (remove k d)
unfolding remove
remove-IsDistinct k [] h = tt
remove-IsDistinct k ((j, w) ∷ d) (p, h) = elim (Bool-cases (text_eq j k)) [
  | inl same ↦ rw (same) (remove-IsDistinct k d h)
  | inr other ↦ rw (other) (remove-All (λ e. text_eq j e.0 ≡ false) k d p, remove-IsDistinct k d h)
]

pub insert-IsCookieDict :
    (k v : Text) (d : Dict Text)
    → All IsLowHex k
    → All IsUnit v
    → IsCookieDict d
    → IsCookieDict (insert k v d)
insert-IsCookieDict k v d hk hv (h, g) = (
  insert-All IsEntry k v d (λ j eq. (subst (All IsLowHex) (sym ((text_eq_iff j k).0 eq)) hk, hv)) h,
  insert-IsDistinct k v d g,
)

pub remove-IsCookieDict : (k : Text) (d : Dict Text) → IsCookieDict d → IsCookieDict (remove k d)
remove-IsCookieDict k d (h, g) = (remove-All IsEntry k d h, remove-IsDistinct k d g)
