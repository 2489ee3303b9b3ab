-- ===== src/OAuth/Initialize.antt =====
-- helper.js: for which resource server the OpenID client is set up.
use rocketmq.Shared.{
  ◌≡◌, refl, sym, ap, ◌∙◌, arith, subst, Bool, true, false, Bool-cases, inl, inr, Option, none,
  some, Option-cases, List, [], ◌∷◌, Text, All, if◌then◌else◌,
}
use rocketmq.Requests.Query.{◌>>=◌}
use rocketmq.Prefs.Store.{Browser}
use rocketmq.Prefs.Session.{has_auth_resource, get_auth_resource}
use rocketmq.OAuth.Defs.{
  ResourceServer, AuthSettings, OAuth, is_given, is_idp, own_defaults, auth_settings_apply_defaults,
  lookup_resource_server, blank_oauth, chosen_server, with_server, oauth_initialize,
}
use rocketmq.OAuth.Defaults.{IsListed, listed-IsListed, lookup_resource_server-IsListed, some_inj}

-- A choice of a resource server that is listed.
abbrev IsChoice : Option ResourceServer → Type 0
IsChoice none = Unit
IsChoice (some r) = IsListed r

found-IsChoice :
    (servers : List ResourceServer)
    → All IsListed servers
    → (id : Option Text)
    → IsChoice (elim id [ none ↦ none | some t ↦ lookup_resource_server t servers ])
found-IsChoice servers h none = tt
found-IsChoice servers h (some t) = elim (Option-cases (lookup_resource_server t servers)) [
  | inl absent ↦ rw (absent) tt
  | inr (r, found) ↦ rw (found) (lookup_resource_server-IsListed t servers r h found)
]

-- What a chain of calls that may throw returns.
bind_some :
    {A B : Type 0} (o : Option A) (f : A → Option B) {y : B}
    → (o >>= f) ≡ some y
    → (x : A) × (o ≡ some x) × (f x ≡ some y)
bind_some none f e = absurd (ground arith)
bind_some (some x) f e = (x, refl, e)

choice_of_two_lem :
    (servers : List ResourceServer) (b : Browser) (has : Bool) {c : Option ResourceServer}
    → All IsListed servers
    → (if has
        then (get_auth_resource b >>= λ id.
            some (elim id [ none ↦ none | some t ↦ lookup_resource_server t servers ]))
        else some none)
      ≡ some c
    → IsChoice c
choice_of_two_lem servers b true h e =
    let (id, read, found) = bind_some (get_auth_resource b) _ e in
    subst IsChoice (some_inj found) (found-IsChoice servers h id)
choice_of_two_lem servers b false h e = subst IsChoice (some_inj e) tt

chosen_server-IsChoice :
    (servers : List ResourceServer) (b : Browser) {c : Option ResourceServer}
    → All IsListed servers
    → chosen_server servers b ≡ some c
    → IsChoice c
unfolding chosen_server
chosen_server-IsChoice [] b h e =
    let (has, _, kept) = bind_some (has_auth_resource b) _ e in choice_of_two_lem [] b has h kept
chosen_server-IsChoice (r ∷ []) b h e = subst IsChoice (some_inj e) h.0
chosen_server-IsChoice (r ∷ s ∷ servers) b h e =
    let (has, _, kept) = bind_some (has_auth_resource b) _ e in
    choice_of_two_lem (r ∷ s ∷ servers) b has h kept

-- What is set up for a choice.
abbrev IsInitiated : OAuth → ResourceServer → Type 0
IsInitiated o r =
    (is_given r.oauth_provider_url ≡ true)
    × (is_idp r.oauth_initiated_logon_type ≡ false)
    × (o.sp_initiated ≡ some true)

with_server-IsInitiated :
    (c : Option ResourceServer) (o : OAuth) (r : ResourceServer)
    → IsChoice c
    → o.user_manager ≡ none
    → (with_server c o).user_manager ≡ some r
    → IsInitiated (with_server c o) r
unfolding with_server
with_server-IsInitiated none o r h blank e = absurd (ground arith)
with_server-IsInitiated (some s) o r (given, sp) blank e = elim (Bool-cases s.sp_initiated) [
  | inl initiated ↦
      subst (λ t. IsInitiated (with_server (some s) o) t) (some_inj (rw (initiated) at e))
        (given, ground arith, ap (λ x. some x) initiated)
  | inr not_initiated ↦ absurd (let none_some = rw (not_initiated) at e in ground arith)
]

own_defaults-enabled : (a : AuthSettings) → (own_defaults a).oauth_enabled ≡ a.oauth_enabled
unfolding own_defaults
own_defaults-enabled a = elim (Bool-cases (is_given a.oauth_provider_url)) [
  | inl given ↦ rw (given) refl
  | inr missing ↦ rw (missing) refl
]

enabled_lem : (a : AuthSettings) → (auth_settings_apply_defaults a).oauth_enabled ≡ a.oauth_enabled
unfolding auth_settings_apply_defaults
enabled_lem a = own_defaults-enabled a

servers_lem : (a : AuthSettings) → All IsListed (auth_settings_apply_defaults a).resource_servers
unfolding auth_settings_apply_defaults
servers_lem a = listed-IsListed (own_defaults a) (own_defaults a).oauth_resource_servers

blank_lem : (a : AuthSettings) → (blank_oauth a).user_manager ≡ none
unfolding blank_oauth
blank_lem a = refl

initialized :
    (a : AuthSettings) (b : Browser) (on : Bool) (o : OAuth) (r : ResourceServer)
    → All IsListed a.resource_servers
    → (if on
        then (chosen_server a.resource_servers b >>= λ c. some (with_server c (blank_oauth a)))
        else some (blank_oauth a))
      ≡ some o
    → o.user_manager ≡ some r
    → (on ≡ true) × IsInitiated o r
initialized a b true o r servers done manager =
    let (c, chosen, made) = bind_some (chosen_server a.resource_servers b) _ done in
    let choice = chosen_server-IsChoice a.resource_servers b servers chosen in
    let is_made = some_inj made in
    (
      refl,
      subst (λ x. IsInitiated x r) is_made
          (with_server-IsInitiated c (blank_oauth a) r choice (blank_lem a)
            (ap (λ x. x.user_manager) is_made ∙ manager)),
    )
initialized a b false o r servers done manager = absurd (
    let none_some = sym (blank_lem a) ∙ (ap (λ x. x.user_manager) (some_inj done) ∙ manager) in
    ground arith)

-- Where `oauth_initialize` sets up the OpenID client, OAuth is enabled, the resource server has a
-- provider, its logon is not initiated by the provider, and the page knows that it initiates the logon.
pub oauth_initialize-user_manager :
    (settings : AuthSettings) (b : Browser) (o : OAuth) (r : ResourceServer)
    → oauth_initialize settings b ≡ some o
    → o.user_manager ≡ some r
    → (settings.oauth_enabled ≡ true)
      × (is_given r.oauth_provider_url ≡ true)
      × (is_idp r.oauth_initiated_logon_type ≡ false)
      × (o.sp_initiated ≡ some true)
unfolding oauth_initialize
oauth_initialize-user_manager settings b o r done manager =
    let a = auth_settings_apply_defaults settings in
    let (on, (given, logon, initiated)) =
      initialized a b a.oauth_enabled o r (servers_lem settings) done manager in
    (sym (enabled_lem settings) ∙ on, given, logon, initiated)
