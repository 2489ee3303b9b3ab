-- ===== src/Dispatcher/Defs.antt =====
-- dispatcher.js: what handlers are made of.
use rocketmq.Shared.{
  ℕ, Bool, true, Option, none, some, List, [], ◌∷◌, Text, codes, Dict, is_some, if◌then◌else◌,
}
use rocketmq.Uri.{esc}
use rocketmq.Requests.Query.{Req, flag, ranges}
use rocketmq.Requests.Template.{param_text}
use rocketmq.Requests.Cast.{Value, cast_params}

pub data Verb : Type 0 where
  get put post del : Verb

-- One thing that a handler does. `call` is `sync_get`, `sync_put`, `sync_post` or `sync_delete` with
-- its path, `call_cast` the call of `put_cast_params`; `page` is `renderQueues()` and its like; `throws` is the exception of `esc`.
pub data Act : Type 0 where
  title : Text → Act
  render : Dict Req → Text → Text → Act
  page : Text → Act
  call : Verb → Text → Dict Text → Act
  go_to : Text → Act
  popup : Text → Text → Act
  update partial_update update_vhosts setup_global_vars grey_button : Act
  publish_msg get_msgs change_own_password clear_auth initiate_logout go_to_home : Act
  update_rate_options update_column_options throws : Act
  call_cast : Text → Dict Value → Act

-- What handlers read besides their parameters. `sync` is the result of a call: the status of a good
-- reply, or `none` for the value false, and `sync_cast` that of a PUT with values that are no texts; `protocol` and `vhosts` are read from the replies to GET.
pub record Env : Type 0 where
  pub can_access_vhosts : Bool
  pub is_administrator : Bool
  pub user_monitor : Bool
  pub user_name : Text
  pub logged_in : Bool
  pub current_vhost : Option Text
  pub protocol : Text
  pub vhosts : List Text
  pub extra_requests : Dict Req
  pub sync : Verb → Text → Dict Text → Option ℕ
  pub sync_cast : Text → Dict Value → Option ℕ

pub record Route : Type 0 where
  pub verb : Verb
  pub pattern : Text
  pub handler : Env → Dict Text → List Act

-- A request with no options, and one with the ranges of its charts.
abbrev pub plain : Text → Req
plain path = record { path = path; options = [] }

abbrev pub ranged : Text → List Text → Req
ranged path types = record { path = path; options = (codes "ranges", ranges types) ∷ [] }

abbrev pub sorted : Text → Req
sorted path = record { path = path; options = (codes "sort", flag true) ∷ [] }

-- `path(p, r, t)`
unfoldable pub path : Text → Dict Req → Text → Route
path p r t = record { verb = get; pattern = p; handler = λ env params. render r t p ∷ [] }

-- `if (sync_…(this, template)) { acts }`
unfoldable pub calling : Verb → Text → List Act → Env → Dict Text → List Act
calling verb template acts env params =
    call verb template params ∷ (if is_some (env.sync verb template params) then acts else [])

-- `put_cast_params(this, template, mandatory_keys, num_keys, bool_keys)`
unfoldable pub calling_cast : Text → List Text → List Text → List Text → Env → Dict Text → List Act
calling_cast template mandatory_keys num_keys bool_keys env params =
    let cast = cast_params mandatory_keys num_keys bool_keys params in
    call_cast template cast ∷ (if is_some (env.sync_cast template cast) then update ∷ [] else [])

-- A route whose handler is one such call.
abbrev pub route : Verb → Text → (Env → Dict Text → List Act) → Route
route verb pattern handler = record { verb = verb; pattern = pattern; handler = handler }

-- `esc(this.params[name])`, and what is done with it.
unfoldable pub with_esc : Text → Dict Text → (Text → List Act) → List Act
with_esc name params acts = elim (esc (param_text params name)) [
  | none ↦ throws ∷ []
  | some s ↦ acts s
]
