-- ===== src/Console/Requests.antt =====
-- main.js: the requests of an update, from the first one to the page that is shown.
use rocketmq.Shared.{ℕ, zero, suc, ◌+◌, ◌≡◌, true, false, none, some, [], ◌∷◌, Text, Dict}
use rocketmq.Response.{Reply, Situation}
use rocketmq.Console.{Model, put_answer, full, Pending, Console, settle, on_reply}
use rocketmq.Console.Timer.{IsTimed}

-- A server that answers every request with status 200 and the body that `body_of` gives for its path.
-- Each round answers the request that was sent last.
abbrev pub good_reply : Reply
good_reply = record { status = 200; body = some ([], []); matched = none }

pub serve : Situation → (Text → Text) → ℕ → Console → Console
serve env body_of zero c = c
serve env body_of (suc n) c = elim c.flying [
  | [] ↦ c
  | p ∷ ps ↦ serve env body_of n (on_reply env p good_reply (some (body_of p.path)) c).0
]

-- The model of a page: the answer to each request, under its key.
pub model_of : (Text → Text) → Dict Text → Model → Model
model_of body_of [] acc = acc
model_of body_of ((key, path) ∷ reqs) acc =
    model_of body_of reqs (put_answer key (body_of path) acc)

-- The synchronous calls of a page are answered in the same way.
abbrev pub IsAnswered : Console → Type 0
IsAnswered c = (k : ℕ) → c.api k ≡ record { reply = good_reply; usable = true }

-- A page that may send requests, has none in flight, and whose timer is stopped.
record IsReady (c : Console) : Type 0 where
  credentials : c.credentials ≡ true
  no_change : c.password_change_in_progress ≡ false
  idle : c.outstanding_reqs ≡ []
  landed : c.flying ≡ []
  stopped : c.live ≡ []
  answered : IsAnswered c

-- The page after all replies: the model is shown, no request is left, and the timer runs again.
pub record IsServed (c d : Console) (model : Model) (n : ℕ) : Type 0 where
  pub shown : d.shown ≡ (c.current_template, model) ∷ c.shown
  pub flying : d.flying ≡ []
  pub outstanding : d.outstanding_reqs ≡ []
  pub sent : d.sent ≡ c.sent + n
  pub called : d.called ≡ c.called + 2
  pub counter : d.update_counter ≡ c.update_counter
  pub reloads : d.reloads ≡ c.reloads
  pub timed :
      (period : ℕ)
      → c.timer_interval ≡ some period
      → (t : ℕ) × (d.live ≡ (t, period) ∷ []) × (d.timer ≡ some t)

called_once : Console → Console
called_once c = record c { called = c.called + 1 }

-- The request that `with_req` sends, and the page that waits for it alone.
request : Text → Text → Dict Text → Model → Console → Pending
request key path rest acc c = record {
  id = c.next;
  key = key;
  path = path;
  rest = rest;
  acc = acc;
  done = full;
}

waiting : Pending → Console → Console
waiting p c = record c {
  outstanding_reqs = c.next ∷ [];
  flying = p ∷ [];
  next = c.next + 1;
  sent = c.sent + 1;
}

module _ (c : Console) (h : IsReady c) (key path : Text) (rest : Dict Text) (acc : Model) where
  settled : Console
  unfolding settle waiting request
  settled = settle c.next (waiting (request key path rest acc c) c)

-- A page on which nothing goes on.
pub record IsIdle (c : Console) : Type 0 where
  pub credentials : c.credentials ≡ true
  pub no_change : c.password_change_in_progress ≡ false
  pub idle : c.outstanding_reqs ≡ []
  pub landed : c.flying ≡ []
  pub timed : IsTimed c
  pub answered : IsAnswered c

-- The page with its timer stopped.
abbrev stop : Console → Console
stop c = record c { live = [] }
