-- ===== src/Tests.antt =====
-- The theorems at concrete inputs, and runs of the definitions.
use rocketmq.Shared.{
  ℕ, Bool, ◌++◌, not, ◌&&◌, true, false, none, some, List, [], ◌∷◌, ◌/◌, ◌≡◌, ◌↔◌, refl, inr, arith,
  Text, codes, Dict, All, any, ltb, includes, lookup, join, flat_map, drop, text_eq, map, filter,
  is_some, if_elim,
}
use mathlib.Core.Option
use rocketmq.Base64.{ok, err, invalid_character, encode, decode, ◌>>=◌}
use rocketmq.Base64.RoundTrip.{decode-encode}
use rocketmq.Base64.Errors.{encode-eq-err_iff}
use rocketmq.Uri.{
  esc, esc_point, unreserved, percent, encode_utf8, b64_encode_utf8, utf8, code_points,
}
use rocketmq.Uri.Encoded.{IsUnit, delimiters, IsNoneOf, esc-IsNoneOf}
use rocketmq.Uri.Bytes.{encode_utf8-eq-utf8, decode-b64_encode_utf8}
use rocketmq.Requests.Template
use rocketmq.Requests.Template.{fill_path_template, fill_from, is_name_char, fill_name, param_text}
use rocketmq.Requests.Paths.{separators, fill_path_template-separators}
use rocketmq.Requests.Query.{
  apply_state, apply_from, apply_req, add_vhost, other_params, add_query, sort_params,
  all_range_params,
}
use rocketmq.Prefs.Store.{Browser}
use rocketmq.Response.{
  Reply, Situation, logout, throws, check_bad_response, is_good, bad_response, client_error,
  is_known_error,
}
use rocketmq.Response.Throttle.{
  EndsSession, Throws, Spaced, page_turns, check_bad_response-logout, check_bad_response-throws_iff,
  page_turns-Spaced,
}
use rocketmq.Console.{Console, Pending, full, no_answers, update, abort_all}
use rocketmq.Console.Timer.{Step, Reach, IsTimed, Reach-IsTimed}
use rocketmq.Console.Requests.{good_reply}
use rocketmq.Console.Abort.{without, abort_all-odds}
use rocketmq.Console.Quiet.{IsQuiet}
use rocketmq.Console.Password.{
  Change, change_own_password, on_change_reply, IsAnswered, on_change_reply-IsAnswered,
}
use rocketmq.Access.{expand_user_tags}
use rocketmq.Access.Tags.{expand_user_tags-idempotent, expand_user_tags-administrator}
use rocketmq.Markup.{escape_html0}
use rocketmq.Markup.Safety.{entity, IsInert, escape_html0-flat_map, escape_html0-IsInert}
use rocketmq.States.{duration, fmt_vhost_state}
use rocketmq.States.Uptime.{IsClock}
use rocketmq.States.Nodes.{vhost_verdict, fmt_vhost_state-eq-vhost_verdict}
use rocketmq.Navigation.{
  Viewer, page, Children, item, end, Shown, update_navigation, tabs_from, add_tab, to_shown,
  leaf_of, show, is_highlighted, descend_into,
}
use rocketmq.Navigation.{navigation}
use rocketmq.Navigation.Visible.{nobody}
use rocketmq.Theme.{Button, Theme, click, run_clicks}
use rocketmq.Theme.Cycle.{with_button, run_clicks-cycle}
use rocketmq.Registry.{
  Listener, object, register_application_listener, unregister_application_listener, notify,
}
use rocketmq.Registry.Listeners.{unregister-register, notify-names}
use rocketmq.Dispatcher.Defs.{Env}
mod Sessions
mod FormTests
mod LinkTests

abbrev guest : Text
guest = codes "guest"

decode-encode_example : (encode guest >>= decode) ≡ ok guest
decode-encode_example = decode-encode guest (ground arith)

encode-eq-err_iff_example :
    (encode (8364 ∷ []) ≡ err invalid_character) ↔ (any (ltb 255) (8364 ∷ []) ≡ true)
encode-eq-err_iff_example = encode-eq-err_iff (8364 ∷ [])

abbrev vhost_name : Text
vhost_name = codes "a/b?"

esc-vhost_name : esc vhost_name ≡ some (codes "a%2Fb%3F")
unfolding esc code_points flat_map esc_point unreserved utf8 percent
esc-vhost_name = refl

esc-IsNoneOf_example : All (IsNoneOf delimiters) (codes "a%2Fb%3F")
esc-IsNoneOf_example = esc-IsNoneOf vhost_name (ground arith) esc-vhost_name

-- A user name with the euro sign.
abbrev euro : Text
euro = 8364 ∷ b':' ∷ []

encode_utf8-eq-utf8_example : encode_utf8 euro ≡ Option.map (flat_map utf8) (code_points euro)
encode_utf8-eq-utf8_example = encode_utf8-eq-utf8 euro (ground arith)

decode-b64_encode_utf8_example :
    Option.map (λ r. r >>= decode) (b64_encode_utf8 euro)
    ≡ Option.map (λ ps. ok (flat_map utf8 ps)) (code_points euro)
decode-b64_encode_utf8_example = decode-b64_encode_utf8 euro (ground arith)

abbrev params : Dict Text
params = (codes "vhost", vhost_name) ∷ []

params-IsUnit : (name : Text) → All IsUnit (param_text params name)
unfolding param_text lookup
params-IsUnit name =
    if_elim (λ o. All IsUnit (elim o [ none ↦ codes "undefined" | some v ↦ v ]))
      (text_eq (codes "vhost") name) (some vhost_name) none (ground arith) (ground arith)

filled :
    fill_path_template (codes "/queues/:vhost") params ≡ Template.made (codes "/queues/a%2Fb%3F")
unfolding fill_path_template fill_from is_name_char fill_name esc code_points param_text lookup
    text_eq flat_map esc_point unreserved utf8 percent
filled = refl

fill_path_template-separators_example :
    separators (codes "/queues/a%2Fb%3F") ≡ separators (codes "/queues/:vhost")
fill_path_template-separators_example =
    fill_path_template-separators (codes "/queues/:vhost") params (codes "/queues/a%2Fb%3F")
      params-IsUnit filled

abbrev calm : Situation
calm = record {
  password_change = false;
  oauth_enabled = true;
  connected = false;
  now = 10000;
  last_page_error = some 5000;
  template = codes "queues";
}

abbrev refused : Reply
refused = record {
  status = 401;
  body = some (codes "not_authorised", codes "expired");
  matched = none;
}

refused-logout : (check_bad_response calm true false refused).1 ≡ logout (codes "expired")
unfolding check_bad_response is_good bad_response client_error is_known_error text_eq
refused-logout = refl

check_bad_response-logout_example : EndsSession calm refused
check_bad_response-logout_example =
    check_bad_response-logout calm true false refused (codes "expired") refused-logout

check_bad_response-throws_iff_example :
    ((check_bad_response calm true false refused).1 ≡ throws) ↔ Throws calm true refused
check_bad_response-throws_iff_example = check_bad_response-throws_iff calm true false refused

abbrev out_of_range : Reply
out_of_range = record {
  status = 400;
  body = some (codes "page_out_of_range", codes "page");
  matched = some (codes "queues");
}

page_turns-Spaced_example :
    Spaced (some 5000) (page_turns calm ((6000, out_of_range) ∷ (9000, out_of_range) ∷ []))
page_turns-Spaced_example =
    page_turns-Spaced calm ((6000, out_of_range) ∷ (9000, out_of_range) ∷ [])

-- A page with one request and a refresh every five seconds.
abbrev home : Console
home = record {
  timer = some 1;
  timer_interval = some 5000;
  paused = 0;
  update_counter = 0;
  outstanding_reqs = [];
  current_template = codes "overview";
  current_reqs = (codes "overview", record { path = codes "/overview"; options = [] }) ∷ [];
  view = record { vhost = []; sort = none; sort_reverse = false; chart_range = codes "60|5" };
  credentials = true;
  password_change_in_progress = false;
  live = (1, 5000) ∷ [];
  flying = [];
  next = 2;
  around = calm;
  api = λ k. record { reply = good_reply; usable = true };
  sent = 0;
  called = 0;
  shown = [];
  reloads = 0;
}

-- The page with two requests outstanding.
abbrev waiting_for : ℕ → Pending
waiting_for id = record {
  id = id;
  key = codes "overview";
  path = codes "/overview";
  rest = [];
  acc = no_answers;
  done = full;
}

abbrev busy : Console
busy = record home { outstanding_reqs = 7 ∷ 8 ∷ []; flying = waiting_for 8 ∷ waiting_for 7 ∷ [] }

home-IsTimed : IsTimed home
home-IsTimed = inr (1, 5000, refl, refl)

Reach-IsTimed_example : IsTimed (update home)
Reach-IsTimed_example = Reach-IsTimed home-IsTimed (Reach.next Reach.here (Step.refresh home))

abbrev overview_reqs : Dict Text
overview_reqs = (codes "overview", codes "/overview") ∷ []

made : apply_state home.view home.current_reqs ≡ some overview_reqs
unfolding apply_state apply_from apply_req add_vhost lookup other_params add_query text_eq join
    sort_params all_range_params
made = refl

abort_all-odds_example :
    ((abort_all busy).outstanding_reqs ≡ 8 ∷ [])
    × ((abort_all busy).flying ≡ without (7 ∷ []) busy.flying)
abort_all-odds_example = abort_all-odds busy ((ground arith, tt), (tt, tt))

abbrev empty_browser : Browser
empty_browser = record { storage = some []; cookie = none; now = 0; columns = [] }

abbrev fresh_change : Change
fresh_change = change_own_password guest guest empty_browser busy

not_done : fresh_change.done ≡ false
unfolding change_own_password
not_done = refl

on_change_reply-IsAnswered_example :
    IsAnswered refused fresh_change (on_change_reply calm refused fresh_change)
on_change_reply-IsAnswered_example = on_change_reply-IsAnswered calm refused fresh_change not_done

abbrev tags : List Text
tags = codes "monitoring" ∷ codes "administrator" ∷ []

expand_user_tags-administrator_example :
    includes (codes "administrator") (expand_user_tags tags) ≡ includes (codes "administrator") tags
expand_user_tags-administrator_example = expand_user_tags-administrator tags

abbrev script : Text
script = codes "<b title=\"&amp;\">"

escape_html0-flat_map_example : escape_html0 script ≡ flat_map entity script
escape_html0-flat_map_example = escape_html0-flat_map script

escape_html0-IsInert_example : All IsInert (escape_html0 script)
escape_html0-IsInert_example = escape_html0-IsInert script

abbrev button : Button
button = record { scheme = some (codes "dark"); title = none; aria_label = none }

abbrev theme : Theme
theme = record {
  saved = some (codes "dark");
  buttons = [];
  light_media = codes "bot all";
  dark_media = codes "all";
  light_found = true;
  dark_found = true;
  system_dark = false;
  listeners = 1;
}

run_clicks-cycle_example :
    run_clicks 4 0 (click 0 (with_button button theme))
    ≡ run_clicks 1 0 (click 0 (with_button button theme))
run_clicks-cycle_example = run_clicks-cycle 1 button theme

abbrev listener : Listener
listener = record { on_refresh = some true; on_vhost_change = none; on_tab_activated = some false }

abbrev registered : Dict Listener
registered = (codes "shovel", listener) ∷ (codes "stream", listener) ∷ []

-- A user who may see a virtual host, while the API is down.
abbrev down : Env
down = record {
  can_access_vhosts = true;
  is_administrator = true;
  user_monitor = true;
  user_name = guest;
  logged_in = false;
  current_vhost = none;
  protocol = codes "AMQP 0-9-1";
  vhosts = codes "/" ∷ [];
  extra_requests = [];
  sync = λ verb template params. none;
  sync_cast = λ template params. none;
}

abbrev cluster : Dict Text
cluster = (codes "a", codes "running") ∷ (codes "b", codes "nodedown") ∷ []

fmt_vhost_state-eq-vhost_verdict_example : fmt_vhost_state cluster ≡ vhost_verdict cluster
fmt_vhost_state-eq-vhost_verdict_example = fmt_vhost_state-eq-vhost_verdict cluster

abbrev visitor : Viewer
visitor = record {
  user_tags = codes "management" ∷ [];
  can_access_vhosts = true;
  highlight = codes "#/";
}

abbrev overview_only : Children
overview_only = item (codes "Overview") (page (codes "#/") (codes "management") none) end

abbrev nothing_shown : Shown
nothing_shown = record { tabs = []; rhs = []; with_rhs = false }

overview_hidden : update_navigation (nobody visitor) overview_only ≡ some nothing_shown
unfolding update_navigation tabs_from add_tab to_shown leaf_of show is_highlighted descend_into
    text_eq includes
overview_hidden = refl
