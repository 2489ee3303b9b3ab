-- ===== src/OAuth/Client.antt =====
-- helper.js: the settings that the OpenID client is given.
use rocketmq.Shared.{
  Bool, true, ◌&&◌, ◌||◌, Option, none, some, [], ◌∷◌, ◌++◌, ◌==◌, Text, codes, text_eq,
  starts_with, if◌then◌else◌,
}
use rocketmq.OAuth.Defs.{Params, ResourceServer}

-- `window.location`; the port is empty where the address names none.
pub record Location : Type 0 where
  pub protocol : Text
  pub hostname : Text
  pub port : Text
  pub pathname : Text

-- Whether a text is made of slashes.
unfoldable pub is_slashes : Text → Bool
is_slashes [] = true
is_slashes (c ∷ s) = c == b'/' && is_slashes s

-- The path without the part that the pattern of `rabbit_path_prefix` matches first: the pages of OAuth, or
-- the slashes at the end.
unfoldable pub without_page : Text → Text
unfolding is_slashes
without_page [] = []
without_page (c ∷ s) =
    let rest = without_page s in
    if starts_with (codes "/js/oidc-oauth/") (c ∷ s) || is_slashes (c ∷ s) then [] else c ∷ rest

unfoldable pub rabbit_path_prefix : Location → Text
unfolding without_page
rabbit_path_prefix location = without_page location.pathname

unfoldable pub rabbit_port : Location → Text
rabbit_port location = if text_eq location.port [] then [] else b':' ∷ location.port

unfoldable pub rabbit_base_uri : Location → Text
unfolding rabbit_port rabbit_path_prefix
rabbit_base_uri location =
    location.protocol
    ++ (codes "//" ++ (location.hostname ++ (rabbit_port location ++ rabbit_path_prefix location)))

-- The settings. `metadataSeed` and `client_secret` are set unless their sources are the empty string, also
-- where these are undefined.
pub record OidcSettings : Type 0 where
  pub authority : Option Text
  pub metadata_url : Option Text
  pub client_id : Option Text
  pub response_type : Option Text
  pub scope : Option Text
  pub redirect_uri : Text
  pub post_logout_redirect_uri : Text
  pub automatic_silent_renew : Bool
  pub revoke_access_token_on_signout : Bool
  pub end_session_endpoint : Option (Option Text)
  pub client_secret : Option (Option Text)
  pub extra_query_params : Params
  pub extra_token_params : Params

-- `if (x != "")`
unfoldable pub unless_empty : Option Text → Option (Option Text)
unless_empty none = some none
unless_empty (some []) = none
unless_empty (some (c ∷ s)) = some (some (c ∷ s))

-- `oidc_settings_from(resource_server)`
unfoldable pub oidc_settings_from : Location → ResourceServer → OidcSettings
unfolding rabbit_base_uri unless_empty
oidc_settings_from location r = record {
  authority = r.oauth_provider_url;
  metadata_url = r.oauth_metadata_url;
  client_id = r.oauth_client_id;
  response_type = r.oauth_response_type;
  scope = r.oauth_scopes;
  redirect_uri = rabbit_base_uri location ++ codes "/js/oidc-oauth/login-callback.html";
  post_logout_redirect_uri = rabbit_base_uri location ++ codes "/";
  automatic_silent_renew = true;
  revoke_access_token_on_signout = true;
  end_session_endpoint = unless_empty r.end_session_endpoint;
  client_secret = unless_empty r.oauth_client_secret;
  extra_query_params = r.oauth_authorization_endpoint_params;
  extra_token_params = r.oauth_token_endpoint_params;
}
