-- ===== src/Console/Timer.antt =====
-- main.js: the timer of the refresh loop. A page is a console that the user and the server act on.
use rocketmq.Shared.{
  ℕ, zero, suc, ◌+◌, ◌-◌, ◌≡◌, ◌⊎◌, inl, inr, refl, Bool, true, false, not, ◌&&◌, Option, none,
  some, [], ◌∷◌, Text, Dict, length, get_elem?, leb, ◌==◌, if_elim, Bool-cases, Option-cases,
  if◌then◌else◌, arith,
}
use rocketmq.Requests.Query.{Req, apply_state}
use rocketmq.Response.{Reply, Situation, Action, check_bad_response}
use rocketmq.Console.{
  Model, no_answers, put_answer, sync_call, update_warnings, situation, onward, stops, react, Done,
  full, partial, Pending, Console, clear_interval, set_interval, reset_timer, set_timer_interval,
  pause_auto_refresh, resume_auto_refresh, reload, with_req, show, finish, with_reqs, with_update,
  update, partial_update, full_refresh, settle, on_reply, abort_at, abort_from, abort_all, render,
}

-- What can happen to a page: its timer fires, the server answers a request in flight, the user goes
-- to another page, asks for an update, changes the interval, the refreshing is paused and resumed, or a
-- handler makes a synchronous call.
pub data Step : Console → Console → Type 0 where
  tick :
      (focus updatable same : Bool) (c : Console) → Step c (partial_update focus updatable same c)
  answer :
      (env : Situation) (p : Pending) (r : Reply) (body : Option Text) (c : Console)
      → Step c (on_reply env p r body c).0
  navigate : (reqs : Dict Req) (template : Text) (c : Console) → Step c (render reqs template c)
  refresh : (c : Console) → Step c (update c)
  choose : (interval : Option ℕ) (c : Console) → Step c (set_timer_interval interval c)
  pause : (c : Console) → Step c (pause_auto_refresh c)
  resume : (c : Console) → Step c (resume_auto_refresh c)
  call : (c : Console) → Step c (sync_call c).0

pub data Reach (c : Console) : Console → Type 0 where
  here : Reach c c
  next : {d e : Console} → Reach c d → Step d e → Reach c e

-- At most one interval runs, and it is the one that `timer` names.
abbrev pub IsTimed : Console → Type 0
IsTimed c = (c.live ≡ []) ⊎ ((t : ℕ) × (p : ℕ) × (c.live ≡ (t, p) ∷ []) × (c.timer ≡ some t))

pub live-clear_interval : (c : Console) → IsTimed c → (clear_interval c).live ≡ []
unfolding clear_interval
live-clear_interval c (inl idle) = ground arith
live-clear_interval c (inr (t, p, runs, named)) =
    rw (named, clear_interval) (rw runs (ground arith))

clear_interval-IsTimed : (c : Console) → IsTimed c → IsTimed (clear_interval c)
clear_interval-IsTimed c h = inl (live-clear_interval c h)

pub reset_timer-IsTimed : (c : Console) → IsTimed c → IsTimed (reset_timer c)
unfolding reset_timer set_interval
reset_timer-IsTimed c h = elim (Option-cases c.timer_interval) [
  | inl never ↦ rw (never, reset_timer) (clear_interval-IsTimed c h)
  | inr (period, every) ↦
      rw (every, reset_timer)
        (inr ((clear_interval c).next, period, rw (live-clear_interval c h), refl))
]

-- A step that leaves the timer alone.
transfer : (c d : Console) → d.live ≡ c.live → d.timer ≡ c.timer → IsTimed c → IsTimed d
transfer c d live timer (inl idle) = inl (rw live idle)
transfer c d live timer (inr (t, p, runs, named)) = inr (t, p, rw live runs, rw timer named)

with_req-IsTimed :
    (key path : Text) (rest : Dict Text) (acc : Model) (done : Done) (c : Console)
    → IsTimed c
    → IsTimed (with_req key path rest acc done c)
unfolding with_req reload
with_req-IsTimed key path rest acc done c =
    transfer c (with_req key path rest acc done c) (ground arith) (ground arith)

sync_call-IsTimed : (c : Console) → IsTimed c → IsTimed (sync_call c).0
unfolding sync_call
sync_call-IsTimed c h =
    let d = record c { called = c.called + 1 } in
    let checked = check_bad_response (situation c.around d) false false (c.api c.called).reply in
    if_elim {A = Console × Bool} (λ z. IsTimed z.0) checked.0 _ _ h
      (if_elim {A = Console × Bool} (λ z. IsTimed z.0) (stops checked.1) (clear_interval d, true) _
        (clear_interval-IsTimed d h) h)

update_warnings-IsTimed : (c : Console) → IsTimed c → IsTimed (update_warnings c).0
unfolding update_warnings
update_warnings-IsTimed c h =
    let d = sync_call-IsTimed c h in
    if_elim {A = Console × Bool} (λ z. IsTimed z.0) (sync_call c).1 (sync_call (sync_call c).0) _
      (sync_call-IsTimed (sync_call c).0 d) d

finish-IsTimed :
    (done : Done) (model : Model) (c : Console) → IsTimed c → IsTimed (finish done model c)
unfolding finish show reload
finish-IsTimed full model c h =
    let d = update_warnings-IsTimed c h in
    if_elim IsTimed (update_warnings c).1 (reset_timer (show model (update_warnings c).0)) _
      (reset_timer-IsTimed (show model (update_warnings c).0) d) d
finish-IsTimed (partial true) model c h = h
finish-IsTimed (partial false) model c h = h

with_reqs-IsTimed :
    (reqs : Dict Text) (acc : Model) (done : Done) (c : Console)
    → IsTimed c
    → IsTimed (with_reqs reqs acc done c)
unfolding with_reqs
with_reqs-IsTimed [] acc done c h = finish-IsTimed done acc c h
with_reqs-IsTimed ((key, path) ∷ rest) acc done c h = with_req-IsTimed key path rest acc done c h

with_update-IsTimed : (done : Done) (c : Console) → IsTimed c → IsTimed (with_update done c)
unfolding with_update
with_update-IsTimed done c h = elim (Bool-cases (leb 1 (length c.outstanding_reqs))) [
  | inl busy ↦ rw busy h
  | inr idle ↦ elim (Option-cases (apply_state c.view c.current_reqs)) [
    | inl thrown ↦ rw (idle, thrown, with_update) h
    | inr (reqs, made) ↦ rw (idle, made, with_update) (with_reqs-IsTimed reqs no_answers done c h)
  ]
]

update-IsTimed : (c : Console) → IsTimed c → IsTimed (update c)
unfolding update
update-IsTimed c h = with_update-IsTimed full (clear_interval c) (clear_interval-IsTimed c h)

partial_update-IsTimed :
    (focus updatable same : Bool) (c : Console)
    → IsTimed c
    → IsTimed (partial_update focus updatable same c)
unfolding partial_update full_refresh reload
partial_update-IsTimed focus updatable same c h = elim (Bool-cases (not focus && updatable)) [
  | inl shown ↦ elim (Bool-cases (leb 200 c.update_counter)) [
    | inl old ↦ rw (shown, old, if◌then◌else◌) h
    | inr young ↦ rw (shown, young, if◌then◌else◌) (with_update-IsTimed (partial same) c h)
  ]
  | inr hidden ↦ rw (hidden, if◌then◌else◌) h
]

settle-IsTimed : (id : ℕ) (c : Console) → IsTimed c → IsTimed (settle id c)
unfolding settle
settle-IsTimed id c h = h

abort_at-IsTimed : (i : ℕ) (c : Console) → IsTimed c → IsTimed (abort_at i c)
unfolding abort_at
abort_at-IsTimed i c h = elim (Option-cases (get_elem? c.outstanding_reqs i)) [
  | inl gone ↦ rw (gone, abort_at) h
  | inr (id, found) ↦ rw (found, abort_at) (settle-IsTimed id c h)
]

abort_from-IsTimed : (n i : ℕ) (c : Console) → IsTimed c → IsTimed (abort_from n i c)
unfolding abort_from
abort_from-IsTimed zero i c h = h
abort_from-IsTimed (suc n) i c h =
    abort_from-IsTimed n (i + 1) (abort_at i c) (abort_at-IsTimed i c h)

-- A property of the three ways on is one of the page after a reply.
pub react_elim {ℓ} :
    (P : Console → Type ℓ) (good : Bool) (action : Action) (after c : Console)
    → P after
    → P (clear_interval c)
    → P c
    → P (react good action after c).0
unfolding react
react_elim P true action after c h k l = h
react_elim P false action after c h k l =
    if_elim {A = Console × Action} (λ z. P z.0) (stops action) (clear_interval c, action)
      (c, action) k l

onward-IsTimed :
    (p : Pending) (body : Option Text) (c : Console) → IsTimed c → IsTimed (onward p body c)
unfolding onward
onward-IsTimed p none c h = h
onward-IsTimed p (some body) c h = with_reqs-IsTimed p.rest (put_answer p.key body p.acc) p.done c h

on_reply-IsTimed :
    (env : Situation) (p : Pending) (r : Reply) (body : Option Text) (c : Console)
    → IsTimed c
    → IsTimed (on_reply env p r body c).0
unfolding on_reply
on_reply-IsTimed env p r body c h =
    let settled = settle-IsTimed p.id c h in
    react_elim IsTimed _ _ (onward p body (settle p.id c)) (settle p.id c)
      (onward-IsTimed p body (settle p.id c) settled)
      (clear_interval-IsTimed (settle p.id c) settled) settled

-- One step keeps the timer.
Step-IsTimed : {c d : Console} → Step c d → IsTimed c → IsTimed d
unfolding set_timer_interval pause_auto_refresh resume_auto_refresh render abort_all
Step-IsTimed (tick focus updatable same c) h = partial_update-IsTimed focus updatable same c h
Step-IsTimed (answer env p r body c) h = on_reply-IsTimed env p r body c h
Step-IsTimed (navigate reqs template c) h =
    let c' = record c { current_template = template; current_reqs = reqs } in
    let n = length c'.outstanding_reqs in
    update-IsTimed (record (abort_from n 0 c') { outstanding_reqs = [] })
      (abort_from-IsTimed n 0 c' h)
Step-IsTimed (refresh c) h = update-IsTimed c h
Step-IsTimed (choose interval c) h = reset_timer-IsTimed (record c { timer_interval = interval }) h
Step-IsTimed (pause c) h = clear_interval-IsTimed (record c { paused = c.paused + 1 }) h
Step-IsTimed (resume c) h = elim (Bool-cases (c.paused - 1 == 0)) [
  | inl last ↦ rw last (reset_timer-IsTimed (record c { paused = c.paused - 1 }) h)
  | inr more ↦ rw (more, if◌then◌else◌) h
]
Step-IsTimed (call c) h = sync_call-IsTimed c h

-- Whatever happens to a page, at most one refresh timer runs, and `timer` names it.
pub Reach-IsTimed : {c d : Console} → IsTimed c → Reach c d → IsTimed d
Reach-IsTimed h here = h
Reach-IsTimed h (next r step) = Step-IsTimed step (Reach-IsTimed h r)
