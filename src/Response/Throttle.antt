-- ===== src/Response/Throttle.antt =====
-- main.js: when `check_bad_response` may end the session or turn the page.
use rocketmq.Shared.{
  ℕ, ◌+◌, ◌≤◌, ◌<◌, ◌≡◌, ◌≢◌, ◌↔◌, ◌⊎◌, inl, inr, refl, Bool, true, false, Option, none, some, List,
  [], ◌∷◌, Text, codes, text_eq, arith, Option-cases, Bool-cases, if◌then◌else◌,
}
use rocketmq.Response.{
  Reply, Situation, logout, throws, update_status, is_good, is_known_error, is_late, client_error,
  bad_response, check_bad_response, is_update, page_error_after,
}

client_error-logout :
    (s : Situation) (has_404 : Bool) (r : Reply) (error reason why : Text)
    → client_error s has_404 r error reason ≡ logout why
    → ((r.status ≡ 401) ⊎ (r.status ≡ 403))
      × (s.oauth_enabled ≡ true)
      × (is_known_error error reason ≡ true)
unfolding client_error
client_error-logout s has_404 r error reason why h = ground arith

-- The reply that may end the session.
pub record EndsSession (s : Situation) (r : Reply) : Type 0 where
  pub refused : (r.status ≡ 401) ⊎ (r.status ≡ 403)
  pub with_oauth : s.oauth_enabled ≡ true
  pub no_change : s.password_change ≡ false
  pub error : Text
  pub reason : Text
  pub body : r.body ≡ some (error, reason)
  pub known : is_known_error error reason ≡ true

update_status-ne-logout : (s : Situation) (t why : Text) → update_status s t ≢ logout why
unfolding update_status
update_status-ne-logout s t why h = ground arith

bad_response-logout :
    (s : Situation) (full_page_404 has_404 : Bool) (r : Reply) (why : Text)
    → bad_response s full_page_404 has_404 r ≡ logout why
    → EndsSession s r
unfolding bad_response
bad_response-logout s full_page_404 has_404 r why h = elim (Option-cases r.body) [
  | inl missing ↦ absurd (
      ground (
        arith,
        update_status-ne-logout s (codes "timeout") why,
        update_status-ne-logout s (codes "error") why,
      ))
  | inr (b, given) ↦
      let client : client_error s has_404 r b.0 b.1 ≡ logout why = ground (
        arith,
        update_status-ne-logout s (codes "timeout") why,
        update_status-ne-logout s (codes "error") why,
      ) in
      let (refused, with_oauth, known) = client_error-logout s has_404 r b.0 b.1 why client in
      record {
        refused = refused;
        with_oauth = with_oauth;
        no_change = ground arith;
        error = b.0;
        reason = b.1;
        body = given;
        known = known;
      }
]

-- The session ends only on a reply 401 or 403 that names a known error, where OAuth is enabled and
-- no password change is going on.
pub check_bad_response-logout :
    (s : Situation) (full_page_404 has_404 : Bool) (r : Reply) (why : Text)
    → (check_bad_response s full_page_404 has_404 r).1 ≡ logout why
    → EndsSession s r
unfolding check_bad_response
check_bad_response-logout s full_page_404 has_404 r why h =
    bad_response-logout s full_page_404 has_404 r why (ground arith)

-- The statuses of a server that cannot be reached.
abbrev pub IsUnreachable : ℕ → Type 0
IsUnreachable n = (n ≡ 0) ⊎ ((n ≡ 503) ⊎ (12000 < n))

-- When the function throws: a timeout, a server that cannot be reached while no request has succeeded, or
-- a client error whose text is null or no JSON.
pub record Throws (s : Situation) (full_page_404 : Bool) (r : Reply) : Type 0 where
  pub no_change : s.password_change ≡ false
  pub cause :
      (r.status ≡ 408)
      ⊎ ((IsUnreachable r.status × (s.connected ≡ false))
          ⊎ ((400 ≤ r.status)
              × (r.status ≤ 404)
              × (r.body ≡ none)
              × ((r.status ≢ 404) ⊎ (full_page_404 ≡ false))))

client_error-ne-throws :
    (s : Situation) (has_404 : Bool) (r : Reply) (error reason : Text)
    → client_error s has_404 r error reason ≢ throws
unfolding client_error
client_error-ne-throws s has_404 r error reason h = ground arith

error-throws : (s : Situation) → s.connected ≡ false → update_status s (codes "error") ≡ throws
unfolding update_status text_eq
error-throws s h = ground arith

error-ne-throws : (s : Situation) → update_status s (codes "error") ≡ throws → s.connected ≡ false
unfolding update_status text_eq
error-ne-throws s h = ground arith

timeout-throws : (s : Situation) → update_status s (codes "timeout") ≡ throws
unfolding update_status text_eq
timeout-throws s = refl

-- Where the functions that it calls for its effects return, but for update_status: while no password is
-- being changed, and only then, the function throws exactly on the status 408, on the statuses 0, 503 and
-- those above 12000 while no request has succeeded, and on a client error (400 to 404) whose text is null
-- or no JSON, but for a 404 that is shown as a page.
pub check_bad_response-throws_iff :
    (s : Situation) (full_page_404 has_404 : Bool) (r : Reply)
    → ((check_bad_response s full_page_404 has_404 r).1 ≡ throws) ↔ Throws s full_page_404 r
unfolding check_bad_response bad_response is_good
check_bad_response-throws_iff s full_page_404 has_404 r = elim (Option-cases r.body) [
  | inl missing ↦ (
    λ h. record {
      no_change = ground (arith, error-ne-throws s);
      cause = ground (arith, error-ne-throws s);
    },
    λ t. ground (arith, timeout-throws s, error-throws s, t.no_change, t.cause),
  )
  | inr (b, given) ↦ (
    λ h. record {
      no_change = ground (arith, error-ne-throws s, client_error-ne-throws s has_404 r b.0 b.1);
      cause = ground (arith, error-ne-throws s, client_error-ne-throws s has_404 r b.0 b.1);
    },
    λ t. ground (arith, timeout-throws s, error-throws s, t.no_change, t.cause),
  )
]

client_error-is_late :
    (s : Situation) (has_404 : Bool) (r : Reply) (error reason : Text)
    → is_update (client_error s has_404 r error reason) ≡ true
    → is_late s ≡ true
unfolding client_error
client_error-is_late s has_404 r error reason h = ground arith

update_status-is_update : (s : Situation) (t : Text) → is_update (update_status s t) ≡ false
unfolding update_status
update_status-is_update s t = ground arith

check_bad_response-is_late :
    (s : Situation) (full_page_404 has_404 : Bool) (r : Reply)
    → is_update (check_bad_response s full_page_404 has_404 r).1 ≡ true
    → is_late s ≡ true
unfolding check_bad_response bad_response is_good
check_bad_response-is_late s full_page_404 has_404 r h = elim (Option-cases r.body) [
  | inl missing ↦ ground (
    arith,
    update_status-is_update s (codes "timeout"),
    update_status-is_update s (codes "error"),
  )
  | inr (b, given) ↦ ground (
    arith,
    update_status-is_update s (codes "timeout"),
    update_status-is_update s (codes "error"),
    client_error-is_late s has_404 r b.0 b.1,
  )
]

-- The times at which a sequence of replies, each with the time of its arrival, turns the page.
pub page_turns : Situation → List (ℕ × Reply) → List ℕ
page_turns s [] = []
page_turns s ((t, r) ∷ replies) =
    let here = record s { now = t } in
    let a = (check_bad_response here false false r).1 in
    let rest = page_turns (record s { last_page_error = page_error_after here a }) replies in
    if is_update a then t ∷ rest else rest

-- More than three seconds lie between two times that follow one another.
abbrev pub Spaced : Option ℕ → List ℕ → Type 0
Spaced last [] = Unit
Spaced none (t ∷ ts) = Spaced (some t) ts
Spaced (some u) (t ∷ ts) = (u + 3000 < t) × Spaced (some t) ts

Spaced-cons :
    (s : Situation) (t : ℕ) (ts : List ℕ)
    → is_late (record s { now = t }) ≡ true
    → Spaced (some t) ts
    → Spaced s.last_page_error (t ∷ ts)
unfolding is_late
Spaced-cons s t ts late h = elim (Option-cases s.last_page_error) [
  | inl first ↦ rw first h
  | inr (u, before) ↦ rw before (ground arith, h)
]

-- However many replies say that a page is out of range, the page is turned at most once in three
-- seconds.
pub page_turns-Spaced :
    (s : Situation) (replies : List (ℕ × Reply)) → Spaced s.last_page_error (page_turns s replies)
unfolding page_turns page_error_after
page_turns-Spaced s [] = tt
page_turns-Spaced s ((t, r) ∷ replies) =
    let here = record s { now = t } in
    elim (Bool-cases (is_update (check_bad_response here false false r).1)) [
      | inl turned ↦ rw turned (
          Spaced-cons s t _ (check_bad_response-is_late here false false r turned)
            (page_turns-Spaced (record s { last_page_error = some t }) replies))
      | inr kept ↦ rw kept (page_turns-Spaced s replies)
    ]
