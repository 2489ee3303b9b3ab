-- ===== src/OAuth/Defaults.antt =====
-- helper.js: what the defaults of the settings make of a resource server.
use rocketmq.Shared.{
  ◌≡◌, refl, ap, arith, true, not, Bool-cases, inl, inr, Option, none, some, List, [], ◌∷◌, Text,
  text_eq, subst, Dict, All,
}
use mathlib.Core.Option
use rocketmq.OAuth.Defs.{
  ResourceServer, AuthSettings, is_given, or_given, is_idp, server_defaults, list_servers, listed,
  lookup_resource_server,
}

-- A resource server that the helper lists.
abbrev pub IsListed : ResourceServer → Type 0
IsListed r =
    (is_given r.oauth_provider_url ≡ true)
    × (r.sp_initiated ≡ not (is_idp r.oauth_initiated_logon_type))

list_servers-IsListed :
    (a : AuthSettings) (d : Dict ResourceServer) → All IsListed (list_servers a d)
unfolding list_servers server_defaults
list_servers-IsListed a [] = tt
list_servers-IsListed a ((id, r) ∷ d) =
    elim (Bool-cases (is_given (or_given r.oauth_provider_url a.oauth_provider_url))) [
      | inl given ↦ rw (given) ((given, refl), list_servers-IsListed a d)
      | inr missing ↦ rw (missing) tt
    ]

pub listed-IsListed :
    (a : AuthSettings) (o : Option (Dict ResourceServer)) → All IsListed (listed a o)
unfolding listed
listed-IsListed a none = tt
listed-IsListed a (some d) = list_servers-IsListed a d

pub some_inj : {A : Type 0} {r s : A} → some r ≡ some s → r ≡ s
some_inj {r} e = ap (λ o. elim o [ none ↦ r | some s ↦ s ]) e

pub lookup_resource_server-IsListed :
    (id : Text) (servers : List ResourceServer) (r : ResourceServer)
    → All IsListed servers
    → lookup_resource_server id servers ≡ some r
    → IsListed r
unfolding lookup_resource_server
lookup_resource_server-IsListed id [] r h e = absurd (ground arith)
lookup_resource_server-IsListed id (s ∷ servers) r (p, h) e = elim (Bool-cases (text_eq s.id id)) [
  | inl same ↦ subst IsListed (some_inj (rw (same) at e)) p
  | inr other ↦ lookup_resource_server-IsListed id servers r h (rw (other) at e)
]
