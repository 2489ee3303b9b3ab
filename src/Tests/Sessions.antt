-- ===== src/Tests/Sessions.antt =====
-- The theorems on what a browser keeps, on sessions and on tables, at concrete inputs.
use rocketmq.Shared.{
  ℕ, Bool, ◌++◌, not, true, false, none, some, List, [], ◌∷◌, ◌≡◌, refl, arith, Text, codes, Dict,
  includes, lookup, text_eq, map,
}
use mathlib.Core.Option
use rocketmq.Prefs.Store.{Browser}
use rocketmq.Prefs.Session.{authorization_header}
use rocketmq.Prefs.Cookie.{parse_text, encode_dict}
use rocketmq.Prefs.CookieText.{parse_text-encode_dict}
use rocketmq.Prefs.Account.{Account, Op, login, limit_session, wait, header, run, replay}
use rocketmq.Prefs.Kept.{Keeps}
use rocketmq.Prefs.Refinement.{run_refines}
use rocketmq.Prefs.Store.{get_pref}
use rocketmq.Settings.Sections.{Section, setup_visibility, run_toggles, written}
use rocketmq.Settings.Clicks.{setup_visibility-run_toggles}
use rocketmq.Settings.Ranges.{ChartRanges, setup_chart_ranges, ensure_queues_chart_range}
use rocketmq.Settings.Periods.{values, ensure_queues_chart_range-setup_chart_ranges}
use rocketmq.OAuth.Defs.{
  ResourceServer, AuthSettings, OAuth, auth_settings_apply_defaults, server_defaults, own_defaults,
  oauth_initialize, is_given, is_idp, or_given, blank_oauth, with_server, list_servers, listed,
  chosen_server,
}
use rocketmq.OAuth.Session.{Visit, signed_in, return_path, oauth_complete_login}
use rocketmq.OAuth.Login.{oauth_complete_login-header}
use rocketmq.Prefs.Store.{storage_key}
use rocketmq.OAuth.Readiness.{Settled, fulfilled, rejected}
use rocketmq.OAuth.Initialize.{oauth_initialize-user_manager}
use rocketmq.Tables
use rocketmq.Tables.{Table, fmt_table_long}
use rocketmq.Tables.Html.{IsHtml, fmt_table_long-IsHtml}

-- A browser in which nothing is kept yet, and a visitor who has not logged in.
abbrev fresh_browser : Browser
fresh_browser = record { storage = some []; cookie = none; now = 1700; columns = [] }

abbrev no_account : Account
no_account = record { now = 1700; auth = none; marks = none }

fresh_browser-Keeps : Keeps fresh_browser no_account
unfolding lookup text_eq
fresh_browser-Keeps = record {
  now = refl;
  items = [];
  stored = refl;
  scheme = refl;
  secret = refl;
  cookie = tt;
}

abbrev visit : List Op
visit = login (codes "Basic") (codes "Zw==") ∷ limit_session 9 ∷ wait 60000 ∷ []

run_refines_example :
    (d : Browser) × (run visit fresh_browser ≡ some d)
    × (authorization_header d ≡ some (header (replay visit no_account)))
run_refines_example = run_refines visit fresh_browser no_account fresh_browser-Keeps

abbrev marked_dict : Dict Text
marked_dict = (codes "59b9", codes "true") ∷ (codes "a7", codes "x|y: é") ∷ []

parse_text-encode_dict_example : parse_text (encode_dict marked_dict) ≡ marked_dict
unfolding text_eq
parse_text-encode_dict_example = parse_text-encode_dict marked_dict (ground arith)

abbrev section : Text → Bool → Section
section heading shown = record {
  heading = heading;
  is_section = shown;
  is_hidden = not shown;
  disable_pref = false;
  visible = false;
  invisible = false;
  block = false;
}

abbrev page_sections : List Section
page_sections = section (codes "Totals") true ∷ section (codes "Nodes") false ∷ []

setup_visibility-run_toggles_example :
    (page : List Section) × (after : List Section) × (end : Browser) × (setup_visibility
        (codes "overview")
        (map written page_sections)
        fresh_browser
      ≡ some page)
    × (run_toggles (codes "overview") (1 ∷ 0 ∷ 1 ∷ []) page fresh_browser ≡ some (after, end))
    × (setup_visibility (codes "overview") (map written after) end ≡ some after)
unfolding text_eq
setup_visibility-run_toggles_example =
    setup_visibility-run_toggles (codes "overview") (1 ∷ 0 ∷ 1 ∷ []) page_sections fresh_browser []
      refl (ground arith) (ground arith)

abbrev policies : Dict (List ℕ)
policies = (codes "global", 600 ∷ []) ∷ (codes "basic", 600 ∷ 7 ∷ 3600 ∷ []) ∷ []

abbrev no_ranges : ChartRanges
no_ranges = record { global = []; basic = [] }

ensure_queues_chart_range-setup_chart_ranges_example :
    (c : Browser) × (range : Text) × (ensure_queues_chart_range
        (setup_chart_ranges policies no_ranges)
        fresh_browser
      ≡ some c)
    × (get_pref (codes "chart-range") none c ≡ some (some range))
    × (includes range (values (setup_chart_ranges policies no_ranges).basic) ≡ true)
unfolding lookup text_eq
ensure_queues_chart_range-setup_chart_ranges_example =
    ensure_queues_chart_range-setup_chart_ranges policies (600 ∷ 7 ∷ 3600 ∷ []) no_ranges
      fresh_browser [] refl refl

abbrev server : ResourceServer
server = record {
  oauth_provider_url = none;
  oauth_response_type = none;
  oauth_scopes = none;
  oauth_client_id = some (codes "console");
  oauth_client_secret = none;
  oauth_initiated_logon_type = none;
  oauth_metadata_url = none;
  end_session_endpoint = none;
  oauth_authorization_endpoint_params = none;
  oauth_token_endpoint_params = none;
  label = none;
  sp_initiated = false;
  id = [];
}

abbrev oauth_settings : AuthSettings
oauth_settings = record {
  oauth_enabled = true;
  oauth_disable_basic_auth = true;
  strict_auth_mechanism = none;
  preferred_auth_mechanism = none;
  oauth_provider_url = some (codes "https://id");
  oauth_response_type = none;
  oauth_scopes = none;
  oauth_client_id = none;
  oauth_client_secret = none;
  oauth_initiated_logon_type = none;
  metadata_url = none;
  oauth_authorization_endpoint_params = none;
  oauth_token_endpoint_params = none;
  oauth_resource_servers = some ((codes "a", server) ∷ []);
  resource_servers = [];
}

abbrev table_row : Table
table_row = Tables.row (codes "<k>") (Tables.text (codes "\"v\"")) Tables.no_rows

fmt_table_long-IsHtml_example : IsHtml (fmt_table_long table_row)
fmt_table_long-IsHtml_example = fmt_table_long-IsHtml table_row

abbrev listed_server : ResourceServer
listed_server = server_defaults (own_defaults oauth_settings) (codes "a") server

abbrev started : OAuth
started =
    with_server (some listed_server) (blank_oauth (auth_settings_apply_defaults oauth_settings))

oauth_started : oauth_initialize oauth_settings fresh_browser ≡ some started
unfolding oauth_initialize auth_settings_apply_defaults own_defaults listed list_servers or_given
    is_given chosen_server
oauth_started = refl

manager_started : started.user_manager ≡ some listed_server
unfolding with_server server_defaults own_defaults or_given is_given is_idp text_eq
manager_started = refl

oauth_initialize-user_manager_example :
    (oauth_settings.oauth_enabled ≡ true)
    × (is_given listed_server.oauth_provider_url ≡ true)
    × (is_idp listed_server.oauth_initiated_logon_type ≡ false)
    × (started.sp_initiated ≡ some true)
oauth_initialize-user_manager_example =
    oauth_initialize-user_manager oauth_settings fresh_browser started listed_server oauth_started
      manager_started

abbrev first_visit : Visit
first_visit = record { browser = fresh_browser; oauth = started; location = none; asked = [] }

oauth_complete_login-header_example :
    (w : Visit) × (oauth_complete_login (codes "/console") (signed_in (codes "eyJ0")) first_visit
      ≡ some w)
    × (authorization_header w.browser ≡ some (some (codes "Bearer eyJ0")))
    × (w.location
        ≡ some (
            codes "/console/"
            ++ return_path
                (lookup (storage_key (codes "oauth-return-to")) fresh_browser-Keeps.items)))
    × (get_pref (codes "oauth-return-to") none w.browser ≡ some (some []))
oauth_complete_login-header_example =
    oauth_complete_login-header (codes "/console") (codes "eyJ0") first_visit no_account
      fresh_browser-Keeps

abbrev results : List (ResourceServer × Settled)
results = (listed_server, rejected) ∷ (server, fulfilled none) ∷ []
