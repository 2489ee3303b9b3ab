-- ===== src/Console/Password.antt =====
-- main.js: `change_own_password`. Its request is none of `outstanding_reqs`; either its reply or a
-- timeout after 30 seconds ends the change. Messages and links are not modelled.
use rocketmq.Shared.{
  Text, Option, none, some, is_some, ◌⊎◌, inl, inr, ap, Bool-cases, ◌-◌, ◌≡◌, refl, ◌∙◌, Bool, true,
  false, ◌&&◌, leb, ltb, [], if◌then◌else◌, if_false, if_true, arith,
}
use rocketmq.Prefs.Store.{Browser}
use rocketmq.Prefs.Session.{set_basic_auth}
use rocketmq.Response.{Reply, Situation, Action, check_bad_response}
use rocketmq.Console.{
  situation, react, Console, clear_interval, set_interval, reset_timer, pause_auto_refresh,
  resume_auto_refresh, abort_all,
}
use rocketmq.Console.Timer.{Step}

-- The page, what the browser keeps, and the closure's variables: the name and the password, `done`, and
-- whether the timeout is still set.
pub record Change : Type 0 where
  pub page : Console
  pub browser : Browser
  pub username : Text
  pub new_password : Text
  pub done : Bool
  pub armed : Bool

-- The function up to the sending of its request.
unfoldable pub change_own_password : Text → Text → Browser → Console → Change
change_own_password username new_password b c =
    let aborted =
      abort_all (pause_auto_refresh (record c { password_change_in_progress = true })) in
    record {
      page = record aborted { outstanding_reqs = [] };
      browser = b;
      username = username;
      new_password = new_password;
      done = false;
      armed = true;
    }

-- `finish()`
unfoldable pub finish_change : Change → Change
finish_change s = if s.done then s else (record s {
  page = resume_auto_refresh (record s.page { password_change_in_progress = false });
  done = true;
})

-- The callback of the timeout.
unfoldable pub on_timeout : Change → Change
on_timeout s = record (finish_change s) { armed = false }

-- What follows `set_basic_auth(username, new_password)`: an exception leaves the handler before `finish`.
-- What the call stored before it threw is not kept here.
unfoldable pub after_login : Option Browser → Change → Change
after_login none s = s
after_login (some b) s =
    finish_change (record s { browser = b; page = record s.page { credentials = true } })

-- Whether the status is that of a change that was accepted.
abbrev pub is_accepted : Reply → Bool
is_accepted r = leb 200 r.status && ltb r.status 300

-- The handler of the reply.
unfoldable pub on_change_reply : Situation → Reply → Change → Change
unfolding after_login
on_change_reply env r s =
    if s.done
    then s
    else if is_accepted r
    then after_login (set_basic_auth s.username s.new_password s.browser)
        (record s { armed = false })
    else (let ended = finish_change (record s { armed = false }) in
        let checked = check_bad_response (situation env ended.page) false false r in
        record ended { page = (react false checked.1 ended.page ended.page).0 })

-- What can happen once the request is sent: the page goes on, the time runs out, the reply comes.
pub data Event : Change → Change → Type 0 where
  page_step : (s : Change) {d : Console} → Step s.page d → Event s (record s { page = d })
  time_out : (s : Change) → s.armed ≡ true → Event s (on_timeout s)
  reply : (env : Situation) (r : Reply) (s : Change) → Event s (on_change_reply env r s)

pub data Events (s : Change) : Change → Type 0 where
  sent : Events s s
  next : {t u : Change} → Events s t → Event t u → Events s u

finish_change-done : (s : Change) → (finish_change s).done ≡ true
unfolding finish_change
finish_change-done s = ground arith

-- A page that waits for the end of the change has sent nothing since `c`.
abbrev pub IsWaiting : Console → Change → Type 0
IsWaiting c s =
    s.done ≡ false → (s.page.sent ≡ c.sent) × (s.page.password_change_in_progress ≡ true)

-- How a change ends: once, with its pause taken back.
pub record IsEnded (s t : Change) : Type 0 where
  pub done : t.done ≡ true
  pub no_change : t.page.password_change_in_progress ≡ false
  pub paused : t.page.paused ≡ s.page.paused - 1
  pub disarmed : t.armed ≡ false

finish_change-armed : (s : Change) → (finish_change s).armed ≡ s.armed
unfolding finish_change
finish_change-armed s = ground arith

finish_change-page :
    (s : Change)
    → s.done ≡ false
    → ((finish_change s).page.password_change_in_progress ≡ false)
      × ((finish_change s).page.paused ≡ s.page.paused - 1)
unfolding finish_change resume_auto_refresh reset_timer set_interval clear_interval
finish_change-page s fresh = (ground arith, ground arith)

react-keeps :
    (a : Action) (c : Console)
    → ((react false a c c).0.password_change_in_progress ≡ c.password_change_in_progress)
      × ((react false a c c).0.paused ≡ c.paused)
unfolding react clear_interval
react-keeps a c = (ground arith, ground arith)

-- What a reply does to a change: it is ended, or it is accepted and the credentials cannot be stored; then
-- the page stays as it is and the change goes on, without its timeout.
abbrev pub IsAnswered : Reply → Change → Change → Type 0
IsAnswered r s t =
    ((is_accepted r ≡ true)
      × (set_basic_auth s.username s.new_password s.browser ≡ none)
      × (t.page ≡ s.page)
      × (t.done ≡ false)
      × (t.armed ≡ false))
    ⊎ (((is_accepted r ≡ false)
          ⊎ (is_some (set_basic_auth s.username s.new_password s.browser) ≡ true))
        × IsEnded s t)

refused-IsEnded :
    (env : Situation) (r : Reply) (s : Change)
    → s.done ≡ false
    → (let ended = finish_change (record s { armed = false }) in
        let checked = check_bad_response (situation env ended.page) false false r in
        IsEnded s (record ended { page = (react false checked.1 ended.page ended.page).0 }))
refused-IsEnded env r s fresh =
    let late = record s { armed = false } in
    let (off, back) = finish_change-page late fresh in
    let ended = finish_change late in
    let checked = check_bad_response (situation env ended.page) false false r in
    let (same_change, same_pause) = react-keeps checked.1 ended.page in
    record {
      done = finish_change-done late;
      no_change = same_change ∙ off;
      paused = same_pause ∙ back;
      disarmed = finish_change-armed late;
    }

after_login-IsAnswered :
    (r : Reply) (s : Change) (o : Option Browser)
    → s.done ≡ false
    → is_accepted r ≡ true
    → set_basic_auth s.username s.new_password s.browser ≡ o
    → IsAnswered r s (after_login o (record s { armed = false }))
unfolding after_login
after_login-IsAnswered r s none fresh accepted e = inl (accepted, e, refl, fresh, refl)
after_login-IsAnswered r s (some b) fresh accepted e =
    let timely = record s {
      armed = false;
      browser = b;
      page = record s.page { credentials = true };
    } in
    let (off, back) = finish_change-page timely fresh in
    inr (
      inr (ap is_some e),
      record {
        done = finish_change-done timely;
        no_change = off;
        paused = back;
        disarmed = finish_change-armed timely;
      },
    )

-- A reply to a change that is not done ends it, whatever its status: it is done, no change is in progress, its
-- pause is taken back and no timeout is set; but where the reply accepts the password and set_basic_auth
-- throws, the page stays as it is and the change goes on without a timeout.
pub on_change_reply-IsAnswered :
    (env : Situation) (r : Reply) (s : Change)
    → s.done ≡ false
    → IsAnswered r s (on_change_reply env r s)
unfolding on_change_reply
on_change_reply-IsAnswered env r s fresh =
    let late = record s { armed = false } in
    if_false (IsAnswered r s) s _ fresh (elim (Bool-cases (is_accepted r)) [
      | inl accepted ↦
          if_true (IsAnswered r s)
            (after_login (set_basic_auth s.username s.new_password s.browser) late) _ accepted
            (after_login-IsAnswered r s (set_basic_auth s.username s.new_password s.browser) fresh
              accepted refl)
      | inr refused ↦
          if_false (IsAnswered r s)
            (after_login (set_basic_auth s.username s.new_password s.browser) late) _ refused
            (inr (inl refused, refused-IsEnded env r s fresh))
    ])

-- Once the change has ended, a reply that comes later does nothing at all.
pub on_change_reply-done_lem :
    (env : Situation) (r : Reply) (s : Change) → s.done ≡ true → on_change_reply env r s ≡ s
unfolding on_change_reply
on_change_reply-done_lem env r s h = rw h
