-- ===== src/OAuth/Session.antt =====
-- helper.js: the start and the end of a session. The OpenID client is a library: what it answers is an
-- argument, what it is asked for is kept. An exception is `none`; one of the preferences, in the handlers
-- of `signinRedirectCallback`, leads back to the login.
use rocketmq.Shared.{
  ℕ, ◌*◌, Bool, true, false, not, is_some, Option, none, some, List, [], ◌∷◌, ◌++◌, Text, codes,
  if◌then◌else◌,
}
use rocketmq.Requests.Query.{◌>>=◌}
use rocketmq.Prefs.Store.{Browser, get_pref, clear_pref}
use rocketmq.Prefs.Session.{has_auth_credentials, set_auth_resource, set_token_auth, clear_auth}
use rocketmq.OAuth.Defs.{
  AuthSettings, OAuth, ResourceServer, is_given, lookup_resource_server, oauth_initialize,
}

-- What the OpenID client is asked for.
pub data Ask : Type 0 where
  signin_redirect remove_user signout_redirect : Ask

-- A page of the console: the browser, the session, the last address that `location.href` was set to, and
-- what the client was asked for, last first.
pub record Visit : Type 0 where
  pub browser : Browser
  pub oauth : OAuth
  pub location : Option Text
  pub asked : List Ask

-- `location.href = url`
unfoldable pub set_location : Text → Visit → Visit
set_location url v = record v { location = some url }

unfoldable pub ask : Ask → Visit → Visit
ask what v = record v { asked = what ∷ v.asked }

-- What `signinRedirectCallback` ends with: the access token, or an error.
pub data Signin : Type 0 where
  signed_in : Text → Signin
  refused : Text → Signin

-- What the client says at a logout: nobody is logged in, or somebody is, with an endpoint that ends
-- sessions or without.
pub data Answer : Type 0 where
  nobody : Answer
  somebody : Option Text → Answer

-- `go_to_authority()`
unfoldable pub go_to_authority : Visit → Visit
unfolding set_location
go_to_authority v = elim v.oauth.authority [
  | none ↦ set_location (codes "undefined") v
  | some url ↦ set_location url v
]

-- The session after a resource server is chosen; the OpenID client is set up once.
unfoldable pub chosen : ResourceServer → OAuth → OAuth
chosen r o =
    let managed : Option ResourceServer = elim o.user_manager [
      | none ↦ if r.sp_initiated then some r else none
      | some m ↦ some m
    ] in
    record o {
      sp_initiated = some r.sp_initiated;
      authority = r.oauth_provider_url;
      user_manager = managed;
    }

-- `oauth_initiateLogin(resource_server_id)`
unfoldable pub oauth_initiate_login : Text → Visit → Option Visit
unfolding ask chosen go_to_authority
oauth_initiate_login id v = elim (lookup_resource_server id v.oauth.resource_servers) [
  | none ↦ some v
  | some r ↦ set_auth_resource id v.browser >>= λ b.
      let w = record v { browser = b; oauth = chosen r v.oauth } in
      some (if r.sp_initiated then ask signin_redirect w else go_to_authority w)
]

-- `!path ? "" : path`
abbrev pub return_path : Option Text → Text
return_path none = []
return_path (some path) = path

-- A user of the OpenID client.
pub record User : Type 0 where
  pub expired : Bool
  pub expires_at : ℕ
  pub user_name : Option Text
  pub sub : Option Text
  pub scope : Option Text

-- The user who is logged in, by `oauth_is_logged_in`.
abbrev pub current_user : Option User → Option User
current_user none = none
current_user (some user) = if user.expired then none else some user

abbrev pub is_initiator : OAuth → Bool
is_initiator o = elim o.sp_initiated [ none ↦ false | some x ↦ x ]

-- What `oauth_is_logged_in` says of a user who is logged in.
unfoldable pub with_user : User → OAuth → OAuth
unfolding is_given
with_user user o = record o {
  logged_in = true;
  expiry_date = some (user.expires_at * 1000);
  user_name = if is_given user.user_name then user.user_name else user.sub;
  scopes = user.scope;
}

-- The pages that start a session: the two callbacks, with what their call of the client ends with, and
-- the others.
pub data Entry : Type 0 where
  login_callback : Signin → Entry
  logout_callback : Bool → Entry
  index : Option User → Answer → Entry

module _ (path_prefix : Text) where
  -- `go_to(path)`, with `rabbit_path_prefix()`
  unfoldable pub go_to : Text → Visit → Visit
  unfolding set_location
  go_to path v = set_location (path_prefix ++ (codes "/" ++ path)) v

  -- `oauth_redirectToHome()`
  unfoldable pub oauth_redirect_to_home : Visit → Option Visit
  unfolding go_to
  oauth_redirect_to_home v = get_pref (codes "oauth-return-to") none v.browser >>= λ path.
      clear_pref (codes "oauth-return-to") v.browser >>= λ b.
      some (go_to (return_path path) (record v { browser = b }))

  -- `oauth_redirectToLogin(error)`, with or without an error
  unfoldable pub oauth_redirect_to_login : Option Text → Visit → Visit
  unfolding set_location
  oauth_redirect_to_login none v = set_location (path_prefix ++ codes "/") v
  oauth_redirect_to_login (some []) v = set_location (path_prefix ++ codes "/") v
  oauth_redirect_to_login (some (c ∷ error)) v =
      set_location (path_prefix ++ (codes "/?error=" ++ (c ∷ error))) v

  -- `oauth_completeLogin()`
  unfoldable pub oauth_complete_login : Signin → Visit → Option Visit
  unfolding oauth_redirect_to_home oauth_redirect_to_login
  oauth_complete_login (signed_in token) v =
      set_token_auth token v.browser >>= λ b. oauth_redirect_to_home (record v { browser = b })
  oauth_complete_login (refused error) v = some (oauth_redirect_to_login (some error) v)

  -- `oauth_initiateLogout()`. The function `go_to_home` of the source does not exist: the page stays.
  unfoldable pub oauth_initiate_logout : Answer → Visit → Option Visit
  unfolding ask oauth_redirect_to_login go_to_authority
  oauth_initiate_logout answer v =
      if is_initiator v.oauth
      then elim answer [
        | nobody ↦ clear_auth v.browser >>= λ b. some (record v { browser = b })
        | somebody none ↦ clear_auth v.browser >>= λ b.
            some (oauth_redirect_to_login none (ask remove_user (record v { browser = b })))
        | somebody (some endpoint) ↦ some (ask signout_redirect v)
      ]
      else some (go_to_authority v)

  -- `oauth_completeLogout()`, where the callback of the client says whether it was done
  unfoldable pub oauth_complete_logout : Bool → Visit → Option Visit
  unfolding oauth_redirect_to_login
  oauth_complete_logout done v = clear_auth v.browser >>= λ b.
      let w = record v { browser = b } in some (if done then oauth_redirect_to_login none w else w)

  -- `oauth_initiate(oauth)`, with what the client says of the user and at a logout
  unfoldable pub oauth_initiate : Option User → Answer → Visit → Option Visit
  unfolding with_user oauth_initiate_logout
  oauth_initiate user answer v =
      if not v.oauth.enabled
      then some v
      else if not (is_initiator v.oauth)
      then (has_auth_credentials none v.browser >>= λ has.
          some (record v { oauth = record (v.oauth) { logged_in = has } }))
      else elim (current_user user) [
        | none ↦ clear_auth v.browser >>= λ b. some (record v { browser = b })
        | some u ↦ has_auth_credentials none v.browser >>= λ has.
            if has
            then some (record v { oauth = with_user u v.oauth })
            else oauth_initiate_logout answer
                (record v { oauth = record (v.oauth) { logged_in = false } })
      ]

  -- `oauth_initialize_if_required(state)`; the callbacks need a client
  unfoldable pub oauth_initialize_if_required : AuthSettings → Entry → Browser → Option Visit
  unfolding oauth_complete_login oauth_complete_logout oauth_initiate oauth_initialize
  oauth_initialize_if_required settings entry b = oauth_initialize settings b >>= λ o.
      let v : Visit = record { browser = b; oauth = o; location = none; asked = [] } in
      if not o.enabled then some v else elim entry [
        | login_callback signin ↦
            if is_some o.user_manager then oauth_complete_login signin v else none
        | logout_callback done ↦
            if is_some o.user_manager then oauth_complete_logout done v else none
        | index user answer ↦ has_auth_credentials (some (codes "Basic")) b >>= λ basic.
            if basic then some v else oauth_initiate user answer v
      ]
