-- ===== src/Console.antt =====
-- main.js and global.js: the refresh loop of the console, its timer, its requests and the password
-- change, as operations on the page's global variables and on what the browser keeps for it.
pub mod Timer
pub mod Requests
pub mod Abort
pub mod Quiet
pub mod Password
use rocketmq.Shared.{
  ℕ, zero, suc, ◌+◌, ◌-◌, Bool, true, false, not, ◌&&◌, Option, none, some, List, [], ◌∷◌, ◌++◌,
  Text, codes, starts_with, Dict, insert, filter, length, leb, ◌==◌, get_elem?, if◌then◌else◌,
}
use rocketmq.Requests.Query.{Req, View, apply_state}
use rocketmq.Response.{Reply, Situation, Action, stop_timer, throws, check_bad_response}

abbrev pub stops : Action → Bool
stops stop_timer = true
stops _ = false

abbrev pub is_exception : Action → Bool
is_exception throws = true
is_exception _ = false

-- How the server answers a synchronous call, and whether the function that asked can read the text of a
-- good answer without an exception.
pub record Answer : Type 0 where
  pub reply : Reply
  pub usable : Bool

-- The object that a template is given: the answers under their keys, and those under keys with `extra_`.
-- Answers are texts here: what they hold is the server's.
pub record Model : Type 0 where
  pub own : Dict Text
  pub extra_content : Dict Text

abbrev pub no_answers : Model
no_answers = record { own = []; extra_content = [] }

-- `acc[key] = …` or `acc["extra_content"][key] = …`
unfoldable pub put_answer : Text → Text → Model → Model
put_answer key body acc =
    if starts_with (codes "extra_") key
    then record acc { extra_content = insert key body acc.extra_content }
    else record acc { own = insert key body acc.own }

-- The callbacks of `with_update`: that of `update` and that of `partial_update`, which knows whether
-- the old and the new page have as many updatable parts.
pub data Done : Type 0 where
  full : Done
  partial : Bool → Done

-- A request that the browser has not answered: what `with_reqs` still has to ask for, and the model
-- that it has built so far.
pub record Pending : Type 0 where
  pub id : ℕ
  pub key : Text
  pub path : Text
  pub rest : Dict Text
  pub acc : Model
  pub done : Done

pub record Console : Type 0 where
  pub timer : Option ℕ
  pub timer_interval : Option ℕ
  pub paused : ℕ
  pub update_counter : ℕ
  pub outstanding_reqs : List ℕ
  pub current_template : Text
  pub current_reqs : Dict Req
  pub view : View
  pub credentials : Bool
  pub password_change_in_progress : Bool
  -- the browser: intervals that run, with their periods; requests in flight; fresh numbers
  pub live : List (ℕ × ℕ)
  pub flying : List Pending
  pub next : ℕ
  -- what the synchronous calls of `update_warnings` meet: the rest of the page, and the answer to each call
  pub around : Situation
  pub api : ℕ → Answer
  -- what has happened: requests sent by `with_req`, synchronous calls, pages shown, reloads
  pub sent : ℕ
  pub called : ℕ
  pub shown : List (Text × Model)
  pub reloads : ℕ

-- `clearInterval(timer)`
unfoldable pub clear_interval : Console → Console
clear_interval c = elim c.timer [
  | none ↦ c
  | some t ↦ record c { live = filter (λ i. not (i.0 == t)) c.live }
]

-- `timer = setInterval(onRefresh, period)`
unfoldable pub set_interval : ℕ → Console → Console
set_interval period c = record c {
  live = (c.next, period) ∷ c.live;
  timer = some c.next;
  next = c.next + 1;
}

unfoldable pub reset_timer : Console → Console
reset_timer c = elim c.timer_interval [
  | none ↦ clear_interval c
  | some period ↦ set_interval period (clear_interval c)
]

unfoldable pub set_timer_interval : Option ℕ → Console → Console
set_timer_interval interval c = reset_timer (record c { timer_interval = interval })

-- `paused` counts from 0, also where the source's global is still undefined.
unfoldable pub pause_auto_refresh : Console → Console
pause_auto_refresh c = clear_interval (record c { paused = c.paused + 1 })

-- Called only after a pause.
unfoldable pub resume_auto_refresh : Console → Console
resume_auto_refresh c =
    let down = record c { paused = c.paused - 1 } in
    if down.paused == 0 then reset_timer down else down

-- `location.reload()`
unfoldable pub reload : Console → Console
reload c = record c { reloads = c.reloads + 1 }

-- `with_req("GET", path, null, …)`, with its guards.
unfoldable pub with_req : Text → Text → Dict Text → Model → Done → Console → Console
with_req key path rest acc done c =
    if c.password_change_in_progress
    then c
    else if c.credentials
    then (record c {
      outstanding_reqs = c.outstanding_reqs ++ c.next ∷ [];
      flying =
          record { id = c.next; key = key; path = path; rest = rest; acc = acc; done = done }
          ∷ c.flying;
      next = c.next + 1;
      sent = c.sent + 1;
    })
    else reload (record c { credentials = false })

-- `format` and `replace_content`
unfoldable pub show : Model → Console → Console
show model c = record c { shown = (c.current_template, model) ∷ c.shown }

-- What `check_bad_response` reads: the page's variables, and the environment for the others.
abbrev pub situation : Situation → Console → Situation
situation env c = record env {
  password_change = c.password_change_in_progress;
  template = c.current_template;
}

-- A call of `sync_get` whose result is parsed, and whether there is no exception: the result false of a bad
-- reply is parsed too, and has no elements.
unfoldable pub sync_call : Console → Console × Bool
sync_call c =
    let d = record c { called = c.called + 1 } in
    let (good, action) =
      check_bad_response (situation c.around d) false false (c.api c.called).reply in
    if good
    then (d, (c.api c.called).usable)
    else if stops action
    then (clear_interval d, true)
    else (d, not (is_exception action))

-- The two calls of `update_warnings()`, the second where the first one returns. What it shows is in Warnings.
unfoldable pub update_warnings : Console → Console × Bool
unfolding sync_call
update_warnings c = let (d, ok) = sync_call c in if ok then sync_call d else (d, false)

-- The callback of an update, at the end of `with_reqs`. An exception of `update_warnings` ends it. The tabs
-- that `update_navigation` shows are in Navigation.
unfoldable pub finish : Done → Model → Console → Console
unfolding update_warnings
finish full model c =
    let (d, ok) = update_warnings c in if ok then reset_timer (show model d) else d
finish (partial same) model c =
    let shown = show model (record c { update_counter = c.update_counter + 1 }) in
    if same then shown else reload shown

-- `with_reqs(reqs, acc, fun)`
unfoldable pub with_reqs : Dict Text → Model → Done → Console → Console
with_reqs [] acc done c = finish done acc c
with_reqs ((key, path) ∷ rest) acc done c = with_req key path rest acc done c

-- `with_update(fun)`: nothing while a request is outstanding. An exception of `apply_state` leaves
-- the page as it is.
unfoldable pub with_update : Done → Console → Console
with_update done c =
    if leb 1 (length c.outstanding_reqs) then c else elim (apply_state c.view c.current_reqs) [
      | none ↦ c
      | some reqs ↦ with_reqs reqs no_answers done c
    ]

unfoldable pub update : Console → Console
update c = with_update full (clear_interval c)

unfoldable pub full_refresh : Console → Console
full_refresh c = reload c

-- `partial_update()`: whether a pagination field has the focus, whether the page has updatable
-- parts, and whether the new page will have as many.
unfoldable pub partial_update : Bool → Bool → Bool → Console → Console
partial_update focus updatable same c =
    if not focus && updatable
    then (if leb 200 c.update_counter
        then full_refresh (record c { update_counter = 0 })
        else with_update (partial same) c)
    else c

-- Removes the first occurrence, as `splice` at the index that `inArray` finds.
unfoldable pub drop_req : ℕ → List ℕ → List ℕ
drop_req i [] = []
drop_req i (j ∷ js) = if j == i then js else j ∷ drop_req i js

unfoldable pub land : ℕ → List Pending → List Pending
land i = filter (λ p. not (p.id == i))

-- The request of an id leaves the list and the air.
unfoldable pub settle : ℕ → Console → Console
settle id c = record c {
  outstanding_reqs = drop_req id c.outstanding_reqs;
  flying = land id c.flying;
}

-- What a handler does with the result of `check_bad_response`: it goes on, or what this state shows of
-- the actions on a bad reply, the end of the timer. The action is returned for the caller.
unfoldable pub react : Bool → Action → Console → Console → Console × Action
react good action after c =
    if good
    then (after, action)
    else if stops action
    then (clear_interval c, action)
    else (c, action)

-- The rest of a good reply: an exception of `JSON.parse` ends it, else the requests that are left go on.
unfoldable pub onward : Pending → Option Text → Console → Console
onward p none c = c
onward p (some body) c = with_reqs p.rest (put_answer p.key body p.acc) p.done c

-- The handler of a reply, whose text is that of an answer where it is JSON.
unfoldable pub on_reply : Situation → Pending → Reply → Option Text → Console → Console × Action
unfolding onward
on_reply env p r body c =
    let c' = settle p.id c in
    let checked = check_bad_response (situation env c') true false r in
    react checked.0 checked.1 (onward p body c') c'

-- `outstanding_reqs[i].abort()`: the browser ends the request with the status 0 and runs its handler,
-- which takes it off the list.
unfoldable pub abort_at : ℕ → Console → Console
abort_at i c = elim (get_elem? c.outstanding_reqs i) [ none ↦ c | some id ↦ settle id c ]

-- `for (var i in outstanding_reqs) …`, over the indices that the list has at the start.
unfoldable pub abort_from : ℕ → ℕ → Console → Console
abort_from zero i c = c
abort_from (suc n) i c = abort_from n (i + 1) (abort_at i c)

unfoldable pub abort_all : Console → Console
abort_all c = abort_from (length c.outstanding_reqs) 0 c

-- `render(reqs, template, highlight)`
unfoldable pub render : Dict Req → Text → Console → Console
render reqs template c =
    let aborted = abort_all (record c { current_template = template; current_reqs = reqs }) in
    update (record aborted { outstanding_reqs = [] })
