-- ===== src/Console/Quiet.antt =====
-- main.js: what a page does while the reply to a password change is awaited.
use rocketmq.Shared.{
  ℕ, zero, suc, ◌+◌, ◌-◌, ◌≡◌, refl, ◌∙◌, Bool, true, false, not, ◌&&◌, Option, none, some, [], ◌∷◌,
  Text, Dict, length, leb, ◌==◌, if_elim, arith,
}
use rocketmq.Requests.Query.{apply_state}
use rocketmq.Response.{Reply, Situation, check_bad_response}
use rocketmq.Console.{
  Model, no_answers, put_answer, sync_call, update_warnings, situation, onward, stops, Done, full,
  partial, Pending, Console, clear_interval, set_interval, reset_timer, reload, with_req, show,
  finish, with_reqs, with_update, update, partial_update, full_refresh, settle, on_reply, abort_at,
  abort_from, abort_all, render, set_timer_interval, pause_auto_refresh, resume_auto_refresh,
}
use rocketmq.Console.Timer.{
  react_elim, Step, call, tick, answer, navigate, refresh, choose, pause, resume,
}

-- A step sends nothing, and leaves the change as it is.
abbrev pub IsQuiet : Console → Console → Type 0
IsQuiet c d = (d.sent ≡ c.sent) × (d.password_change_in_progress ≡ c.password_change_in_progress)

trans : (c d e : Console) → IsQuiet c d → IsQuiet d e → IsQuiet c e
trans c d e (p, q) (r, s) = (r ∙ p, s ∙ q)

pub clear_interval-IsQuiet : (c : Console) → IsQuiet c (clear_interval c)
unfolding clear_interval
clear_interval-IsQuiet c = (ground arith, ground arith)

pub reset_timer-IsQuiet : (c : Console) → IsQuiet c (reset_timer c)
unfolding reset_timer set_interval clear_interval
reset_timer-IsQuiet c = (ground arith, ground arith)

sync_call-IsQuiet : (c : Console) → IsQuiet c (sync_call c).0
unfolding sync_call
sync_call-IsQuiet c =
    let d = record c { called = c.called + 1 } in
    let checked = check_bad_response (situation c.around d) false false (c.api c.called).reply in
    if_elim {A = Console × Bool} (λ z. IsQuiet c z.0) checked.0 _ _ (refl, refl)
      (if_elim {A = Console × Bool} (λ z. IsQuiet c z.0) (stops checked.1) (clear_interval d, true)
        _ (clear_interval-IsQuiet d) (refl, refl))

update_warnings-IsQuiet : (c : Console) → IsQuiet c (update_warnings c).0
unfolding update_warnings
update_warnings-IsQuiet c =
    let d = (sync_call c).0 in
    let first = sync_call-IsQuiet c in
    if_elim {A = Console × Bool} (λ z. IsQuiet c z.0) (sync_call c).1 (sync_call d) _
      (trans c d (sync_call d).0 first (sync_call-IsQuiet d)) first

finish-IsQuiet : (done : Done) (model : Model) (c : Console) → IsQuiet c (finish done model c)
unfolding finish show reload
finish-IsQuiet full model c =
    let d = (update_warnings c).0 in
    let warned = update_warnings-IsQuiet c in
    if_elim (IsQuiet c) (update_warnings c).1 (reset_timer (show model d)) d
      (trans c d (reset_timer (show model d)) warned (reset_timer-IsQuiet (show model d))) warned
finish-IsQuiet (partial true) model c = (refl, refl)
finish-IsQuiet (partial false) model c = (refl, refl)

with_reqs-IsQuiet :
    (reqs : Dict Text) (acc : Model) (done : Done) (c : Console)
    → c.password_change_in_progress ≡ true
    → IsQuiet c (with_reqs reqs acc done c)
unfolding with_reqs with_req
with_reqs-IsQuiet [] acc done c h = finish-IsQuiet done acc c
with_reqs-IsQuiet ((key, path) ∷ rest) acc done c h = (ground arith, ground arith)

with_update-IsQuiet :
    (done : Done) (c : Console)
    → c.password_change_in_progress ≡ true
    → IsQuiet c (with_update done c)
unfolding with_update
with_update-IsQuiet done c h =
    if_elim (IsQuiet c) (leb 1 (length c.outstanding_reqs)) _ _ (refl, refl)
      (made (apply_state c.view c.current_reqs))
  where
    made :
        (o : Option (Dict Text))
        → IsQuiet c (elim o [ none ↦ c | some reqs ↦ with_reqs reqs no_answers done c ])
    made none = (refl, refl)
    made (some reqs) = with_reqs-IsQuiet reqs no_answers done c h

update-IsQuiet : (c : Console) → c.password_change_in_progress ≡ true → IsQuiet c (update c)
unfolding update
update-IsQuiet c h =
    let cleared = clear_interval-IsQuiet c in
    trans c (clear_interval c) (with_update full (clear_interval c)) cleared
      (with_update-IsQuiet full (clear_interval c) (cleared.1 ∙ h))

abort_at-IsQuiet : (i : ℕ) (c : Console) → IsQuiet c (abort_at i c)
unfolding abort_at settle
abort_at-IsQuiet i c = (ground arith, ground arith)

pub abort_from-IsQuiet : (n i : ℕ) (c : Console) → IsQuiet c (abort_from n i c)
unfolding abort_from
abort_from-IsQuiet zero i c = (refl, refl)
abort_from-IsQuiet (suc n) i c =
    trans c (abort_at i c) (abort_from n (i + 1) (abort_at i c)) (abort_at-IsQuiet i c)
      (abort_from-IsQuiet n (i + 1) (abort_at i c))

partial_update-IsQuiet :
    (focus updatable same : Bool) (c : Console)
    → c.password_change_in_progress ≡ true
    → IsQuiet c (partial_update focus updatable same c)
unfolding partial_update full_refresh reload
partial_update-IsQuiet focus updatable same c h =
    if_elim (IsQuiet c) (not focus && updatable) _ _
      (if_elim (IsQuiet c) (leb 200 c.update_counter) _ _ (refl, refl)
        (with_update-IsQuiet (partial same) c h))
      (refl, refl)

onward-IsQuiet :
    (p : Pending) (body : Option Text) (c : Console)
    → c.password_change_in_progress ≡ true
    → IsQuiet c (onward p body c)
unfolding onward
onward-IsQuiet p none c h = (refl, refl)
onward-IsQuiet p (some body) c h = with_reqs-IsQuiet p.rest (put_answer p.key body p.acc) p.done c h

on_reply-IsQuiet :
    (env : Situation) (p : Pending) (r : Reply) (body : Option Text) (c : Console)
    → c.password_change_in_progress ≡ true
    → IsQuiet c (on_reply env p r body c).0
unfolding on_reply settle
on_reply-IsQuiet env p r body c h =
    react_elim (IsQuiet c) _ _ (onward p body (settle p.id c)) (settle p.id c)
      (onward-IsQuiet p body (settle p.id c) h) (clear_interval-IsQuiet (settle p.id c))
      (refl, refl)

-- While a password change is in progress with_req sends nothing on any step of the page, and no step
-- ends the change.
pub Step-IsQuiet : {c d : Console} → Step c d → c.password_change_in_progress ≡ true → IsQuiet c d
unfolding render abort_all set_timer_interval pause_auto_refresh resume_auto_refresh
Step-IsQuiet (tick focus updatable same c) h = partial_update-IsQuiet focus updatable same c h
Step-IsQuiet (answer env p r body c) h = on_reply-IsQuiet env p r body c h
Step-IsQuiet (navigate reqs template c) h =
    let shown = record c { current_template = template; current_reqs = reqs } in
    let aborted = abort_from (length c.outstanding_reqs) 0 shown in
    let quiet = abort_from-IsQuiet (length c.outstanding_reqs) 0 shown in
    let cleared = record aborted { outstanding_reqs = [] } in
    trans c aborted (update cleared) quiet (update-IsQuiet cleared (quiet.1 ∙ h))
Step-IsQuiet (refresh c) h = update-IsQuiet c h
Step-IsQuiet (choose interval c) h = reset_timer-IsQuiet (record c { timer_interval = interval })
Step-IsQuiet (pause c) h = clear_interval-IsQuiet (record c { paused = c.paused + 1 })
Step-IsQuiet (resume c) h =
    let down = record c { paused = c.paused - 1 } in
    if_elim (IsQuiet c) (down.paused == 0) _ _ (reset_timer-IsQuiet down) (refl, refl)
Step-IsQuiet (call c) h = sync_call-IsQuiet c
