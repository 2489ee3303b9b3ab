-- ===== src/Prefs/Account.antt =====
-- prefs.js: sessions, as a user of the module sees them, and runs of its operations.
use rocketmq.Shared.{
  ℕ, suc, ◌+◌, ◌*◌, true, not, ◌||◌, Option, none, some, List, [], ◌∷◌, ◌++◌, is_some, pos, to_text,
  Text, if◌then◌else◌,
}
use rocketmq.Requests.Query.{◌>>=◌}
use rocketmq.Prefs.Store.{Browser, whole_seconds, default_hard_session_timeout}
use rocketmq.Prefs.Session.{clear_auth, set_auth, update_login_session_timeout}
use rocketmq.Prefs.Marks.{Marks, no_marks, live_marks}

-- What a user of the module sees: the clock, the scheme with the credentials, and the marker of the
-- session with its limit.
pub record Account : Type 0 where
  pub now : ℕ
  pub auth : Option (Text × Text)
  pub marks : Option (Marks × Option ℕ)

-- What a page can ask of the module, and time that passes.
pub data Op : Type 0 where
  login : Text → Text → Op
  logout : Op
  limit_session : ℕ → Op
  wait : ℕ → Op

abbrev pub live : Account → Marks
live a = live_marks a.now a.marks

-- The header of requests: the scheme and the credentials, while a session is marked.
unfoldable pub header : Account → Option Text
header a = elim a.auth [
  | none ↦ none
  | some (scheme, secret) ↦ if (live a).marked then some (scheme ++ (32 ∷ secret)) else none
]

-- Each operation, on what a user sees. A session ends eight hours after its login, or where it is given
-- a limit, once, that many minutes later.
unfoldable pub replay_op : Op → Account → Account
unfolding header
replay_op (login scheme secret) a = record a {
  auth = some (scheme, secret);
  marks = some (
    record { marked = true; limit = (live a).limit },
    whole_seconds (some (a.now + 8 * 3600000)),
  );
}
replay_op logout a = record a {
  auth = none;
  marks = some (no_marks, whole_seconds (some (a.now + 8 * 3600000)));
}
replay_op (limit_session n) a =
    if is_some (live a).limit || not (is_some (header a)) then a else record a {
      marks = some (
        record { marked = true; limit = some (to_text (suc n)) },
        whole_seconds (some (a.now + suc n * 60000)),
      );
    }
replay_op (wait ms) a = record a { now = a.now + ms }

-- The operations of prefs.js. A limit of a session is at least a minute.
unfoldable pub run_op : Op → Browser → Option Browser
run_op (login scheme secret) b = set_auth scheme secret (default_hard_session_timeout b) b
run_op logout b = clear_auth b
run_op (limit_session n) b = update_login_session_timeout (pos (suc n)) b
run_op (wait ms) b = some (record b { now = b.now + ms })

unfoldable pub run : List Op → Browser → Option Browser
run [] b = some b
run (op ∷ ops) b = run_op op b >>= run ops

unfoldable pub replay : List Op → Account → Account
replay [] a = a
replay (op ∷ ops) a = replay ops (replay_op op a)
