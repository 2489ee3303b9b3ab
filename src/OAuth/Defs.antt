-- ===== src/OAuth/Defs.antt =====
-- helper.js: resource servers and their defaults. The OpenID client is a library, of which the model keeps
-- the settings that it is given.
use rocketmq.Shared.{
  ℕ, Bool, true, false, not, ◌&&◌, ◌||◌, Option, none, some, List, [], ◌∷◌, ◌++◌, Text, codes,
  text_eq, Dict, length, ltb, if◌then◌else◌,
}
use rocketmq.Requests.Query.{◌>>=◌}
use rocketmq.Prefs.Store.{Browser}
use rocketmq.Prefs.Session.{has_auth_resource, get_auth_resource}

-- Whether a text is there and not empty, as `if (x)` asks.
unfoldable pub is_given : Option Text → Bool
is_given none = false
is_given (some []) = false
is_given (some (c ∷ s)) = true

-- `if (!x) x = y`
unfoldable pub or_given : Option Text → Option Text → Option Text
unfolding is_given
or_given x y = if is_given x then x else y

abbrev pub Params : Type 0
Params = Option (Dict Text)

abbrev pub or_params : Params → Params → Params
or_params none other = other
or_params (some params) other = some params

-- A resource server: what the settings say of it, and `sp_initiated` and `id`, which are added.
pub record ResourceServer : Type 0 where
  pub oauth_provider_url : Option Text
  pub oauth_response_type : Option Text
  pub oauth_scopes : Option Text
  pub oauth_client_id : Option Text
  pub oauth_client_secret : Option Text
  pub oauth_initiated_logon_type : Option Text
  pub oauth_metadata_url : Option Text
  pub end_session_endpoint : Option Text
  pub oauth_authorization_endpoint_params : Params
  pub oauth_token_endpoint_params : Params
  pub label : Option Text
  pub sp_initiated : Bool
  pub id : Text

pub record AuthSettings : Type 0 where
  pub oauth_enabled : Bool
  pub oauth_disable_basic_auth : Bool
  pub strict_auth_mechanism : Option Text
  pub preferred_auth_mechanism : Option Text
  pub oauth_provider_url : Option Text
  pub oauth_response_type : Option Text
  pub oauth_scopes : Option Text
  pub oauth_client_id : Option Text
  pub oauth_client_secret : Option Text
  pub oauth_initiated_logon_type : Option Text
  pub metadata_url : Option Text
  pub oauth_authorization_endpoint_params : Params
  pub oauth_token_endpoint_params : Params
  pub oauth_resource_servers : Option (Dict ResourceServer)
  pub resource_servers : List ResourceServer

-- `readiness_url(resource_server)`, where there is a provider
unfoldable pub readiness_url : ResourceServer → Option Text
unfolding is_given
readiness_url r =
    if is_given r.oauth_metadata_url then r.oauth_metadata_url else elim r.oauth_provider_url [
      | none ↦ none
      | some url ↦ some (url ++ codes "/.well-known/openid-configuration")
    ]

-- The defaults of the settings themselves, which are set where there is a provider.
unfoldable pub own_defaults : AuthSettings → AuthSettings
unfolding is_given or_given
own_defaults a =
    if is_given a.oauth_provider_url
    then record a {
      oauth_response_type = or_given a.oauth_response_type (some (codes "code"));
      oauth_scopes = or_given a.oauth_scopes (some (codes "openid profile"));
      oauth_initiated_logon_type =
          or_given a.oauth_initiated_logon_type (some (codes "sp_initiated"));
    }
    else a

-- `x == "idp_initiated"`
unfoldable pub is_idp : Option Text → Bool
is_idp none = false
is_idp (some t) = text_eq t (codes "idp_initiated")

-- The client secret of a resource server, whose client is known by now.
unfoldable pub secret_for : AuthSettings → Option Text → Option Text → Option Text
unfolding is_given
secret_for a client_id secret =
    if not (is_given secret) && (is_given client_id && is_given a.oauth_client_secret)
    then a.oauth_client_secret
    else secret

-- One round of the loop of `auth_settings_apply_defaults`, with a provider.
unfoldable pub server_defaults : AuthSettings → Text → ResourceServer → ResourceServer
unfolding or_given secret_for is_idp
server_defaults a id r =
    let client_id = or_given r.oauth_client_id a.oauth_client_id in
    let logon_type =
      or_given r.oauth_initiated_logon_type
        (or_given a.oauth_initiated_logon_type (some (codes "sp_initiated"))) in
    record {
      oauth_provider_url = or_given r.oauth_provider_url a.oauth_provider_url;
      oauth_response_type = or_given r.oauth_response_type a.oauth_response_type;
      oauth_scopes = or_given r.oauth_scopes a.oauth_scopes;
      oauth_client_id = client_id;
      oauth_client_secret = secret_for a client_id r.oauth_client_secret;
      oauth_initiated_logon_type = logon_type;
      oauth_metadata_url = or_given r.oauth_metadata_url a.metadata_url;
      end_session_endpoint = r.end_session_endpoint;
      oauth_authorization_endpoint_params =
          or_params r.oauth_authorization_endpoint_params a.oauth_authorization_endpoint_params;
      oauth_token_endpoint_params =
          or_params r.oauth_token_endpoint_params a.oauth_token_endpoint_params;
      label = r.label;
      sp_initiated = not (is_idp logon_type);
      id = id;
    }

-- The loop, which stops at a resource server without a provider.
unfoldable pub list_servers : AuthSettings → Dict ResourceServer → List ResourceServer
unfolding or_given is_given
list_servers a [] = []
list_servers a ((id, r) ∷ servers) =
    let later = list_servers a servers in
    if is_given (or_given r.oauth_provider_url a.oauth_provider_url)
    then server_defaults a id r ∷ later
    else []

-- The servers of the settings, where there are any.
unfoldable pub listed : AuthSettings → Option (Dict ResourceServer) → List ResourceServer
unfolding list_servers
listed a none = []
listed a (some servers) = list_servers a servers

-- `auth_settings_apply_defaults(authSettings)`
unfoldable pub auth_settings_apply_defaults : AuthSettings → AuthSettings
auth_settings_apply_defaults a =
    let b = own_defaults a in record b { resource_servers = listed b b.oauth_resource_servers }

-- `lookup_resource_server(resource_server_id, resource_servers)`
unfoldable pub lookup_resource_server : Text → List ResourceServer → Option ResourceServer
lookup_resource_server id [] = none
lookup_resource_server id (r ∷ servers) =
    if text_eq r.id id then some r else lookup_resource_server id servers

-- The state of the session of a page, and the resource server that the OpenID client is set up for.
pub record OAuth : Type 0 where
  pub logged_in : Bool
  pub enabled : Bool
  pub resource_servers : List ResourceServer
  pub oauth_disable_basic_auth : Bool
  pub strict_auth_mechanism : Option Text
  pub preferred_auth_mechanism : Option Text
  pub sp_initiated : Option Bool
  pub authority : Option Text
  pub user_manager : Option ResourceServer
  pub user_name : Option Text
  pub scopes : Option Text
  pub expiry_date : Option ℕ

-- `oauth`, before a resource server is chosen.
unfoldable pub blank_oauth : AuthSettings → OAuth
unfolding is_given
blank_oauth a =
    let strict = is_given a.strict_auth_mechanism in
    let choice =
      a.oauth_enabled && (ltb 1 (length a.resource_servers) || not a.oauth_disable_basic_auth) in
    record {
      logged_in = false;
      enabled = a.oauth_enabled;
      resource_servers = a.resource_servers;
      oauth_disable_basic_auth = a.oauth_disable_basic_auth;
      strict_auth_mechanism = if choice && strict then a.strict_auth_mechanism else none;
      preferred_auth_mechanism =
          if choice && (not strict && is_given a.preferred_auth_mechanism)
          then a.preferred_auth_mechanism
          else none;
      sp_initiated = none;
      authority = none;
      user_manager = none;
      user_name = none;
      scopes = none;
      expiry_date = none;
    }

-- The resource server of the session: the only one, or the one that the browser keeps.
unfoldable pub chosen_server : List ResourceServer → Browser → Option (Option ResourceServer)
unfolding lookup_resource_server
chosen_server (r ∷ []) b = some (some r)
chosen_server servers b = has_auth_resource b >>= λ has.
    if has
    then (get_auth_resource b >>= λ id.
        some (elim id [ none ↦ none | some t ↦ lookup_resource_server t servers ]))
    else some none

-- What is set for the resource server of the session.
unfoldable pub with_server : Option ResourceServer → OAuth → OAuth
with_server none o = o
with_server (some r) o = record o {
  sp_initiated = some r.sp_initiated;
  authority = r.oauth_provider_url;
  user_manager = if r.sp_initiated then some r else none;
}

-- `oauth_initialize(authSettings)`
unfoldable pub oauth_initialize : AuthSettings → Browser → Option OAuth
unfolding blank_oauth chosen_server with_server
oauth_initialize settings b =
    let a = auth_settings_apply_defaults settings in
    if a.oauth_enabled
    then (chosen_server a.resource_servers b >>= λ r. some (with_server r (blank_oauth a)))
    else some (blank_oauth a)
