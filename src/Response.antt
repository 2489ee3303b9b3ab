-- ===== src/Response.antt =====
-- main.js: `check_bad_response`, which sorts the replies of the HTTP API, and `update_status`.
pub mod Throttle
use rocketmq.Shared.{
  ℕ, ◌-◌, Bool, true, false, not, ◌&&◌, ◌||◌, Option, none, some, List, [], ◌∷◌, Text, codes,
  text_eq, starts_with, filter, includes, is_some, ltb, leb, ◌==◌, if◌then◌else◌,
}

-- A finished request. `body` holds the fields `error` and `reason` of the parsed response, as strings, a
-- missing one as the empty text, which the code treats alike; `none` means that the text is null, which has
-- no fields, or no JSON, at which `JSON.parse` throws. `matched` is the group of `/api\/(.*)\?/` in the URL.
pub record Reply : Type 0 where
  pub status : ℕ
  pub body : Option (Text × Text)
  pub matched : Option Text

-- The variables that the function reads: `password_change_in_progress`, `oauth.enabled`, whether
-- `last_successful_connect` is set, the time in milliseconds, `last_page_out_of_range_error`, and
-- `current_template`.
pub record Situation : Type 0 where
  pub password_change : Bool
  pub oauth_enabled : Bool
  pub connected : Bool
  pub now : ℕ
  pub last_page_error : Option ℕ
  pub template : Text

-- What the function does, besides its result. The functions that it calls for this, but for `update_status`,
-- are taken to return.
pub data Action : Type 0 where
  nothing : Action
  show_404 : Action
  logout popup call_404 : Text → Action
  update_pages : List Text → Action
  show_error : Action
  stop_timer : Action
  throws : Action

-- `update_status(status)` throws on a status that it does not know; the message of an error gives
-- `fmt_date(last_successful_connect)`, which throws while no request has succeeded.
unfoldable pub update_status : Situation → Text → Action
update_status s status =
    if text_eq status (codes "ok")
    then nothing
    else if text_eq status (codes "error")
    then (if s.connected then show_error else throws)
    else throws

unfoldable pub is_good : ℕ → Bool
is_good status = (leb 200 status && ltb status 300) || status == 1223

-- The errors whose reason is shown.
unfoldable pub is_known_error : Text → Text → Bool
is_known_error error reason =
    text_eq error (codes "bad_request")
    || (text_eq error (codes "not_found")
        || (text_eq reason (codes "Not Found")
            || (text_eq error (codes "not_authorised") || text_eq error (codes "not_authorized"))))

abbrev pub contexts : List Text
contexts = codes "queues" ∷ codes "exchanges" ∷ codes "connections" ∷ codes "channels" ∷ []

-- The pages that go back to page 1.
unfoldable pub pages_of : Situation → Option Text → List Text
pages_of s none = s.template ∷ []
pages_of s (some url) = filter (λ item. starts_with item url) contexts

-- `seconds > 3`
unfoldable pub is_late : Situation → Bool
is_late s = elim s.last_page_error [ none ↦ true | some t ↦ ltb 3000 (s.now - t) ]

-- The branch for the statuses 400 to 404; `has_404` says whether `on404fun` is a function.
unfoldable pub client_error : Situation → Bool → Reply → Text → Text → Action
client_error s has_404 r error reason =
    if is_known_error error reason
    then (if (r.status == 401 || r.status == 403) && s.oauth_enabled
        then logout reason
        else if has_404 && r.status == 404
        then call_404 reason
        else popup reason)
    else if text_eq error (codes "page_out_of_range") && is_late s
    then update_pages (pages_of s r.matched)
    else nothing

unfoldable pub bad_response : Situation → Bool → Bool → Reply → Action
bad_response s full_page_404 has_404 r =
    if s.password_change
    then nothing
    else if r.status == 404 && full_page_404
    then show_404
    else if leb 400 r.status && leb r.status 404
    then elim r.body [
      | none ↦ throws
      | some (error, reason) ↦ client_error s has_404 r error reason
    ]
    else if r.status == 408
    then update_status s (codes "timeout")
    else if r.status == 0
    then update_status s (codes "error")
    else if ltb 12000 r.status
    then update_status s (codes "error")
    else if r.status == 503
    then update_status s (codes "error")
    else stop_timer

-- `check_bad_response(req, full_page_404, on404fun)`
unfoldable pub check_bad_response : Situation → Bool → Bool → Reply → Bool × Action
check_bad_response s full_page_404 has_404 r =
    if is_good r.status then (true, nothing) else (false, bad_response s full_page_404 has_404 r)

abbrev pub is_update : Action → Bool
is_update (update_pages items) = true
is_update _ = false

-- `last_page_out_of_range_error` after the call.
unfoldable pub page_error_after : Situation → Action → Option ℕ
page_error_after s a = if is_update a then some s.now else s.last_page_error
