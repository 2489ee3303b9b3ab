-- ===== src/OAuth/Readiness.antt =====
-- helper.js: which resource servers are offered, after their providers were asked for their configuration.
use rocketmq.Shared.{
  Bool, true, false, not, ◌&&◌, ◌||◌, Option, none, some, List, [], ◌∷◌, Text, text_eq, filter,
  if◌then◌else◌,
}
use rocketmq.OAuth.Defs.{ResourceServer}

-- A configuration: whether each of the three entries is there and is a string.
pub record Configuration : Type 0 where
  pub authorization_endpoint : Bool
  pub token_endpoint : Bool
  pub jwks_uri : Bool

-- How the request for a configuration is settled; the answer may be null.
pub data Settled : Type 0 where
  fulfilled : Option Configuration → Settled
  rejected : Settled

-- Whether `validate_openid_configuration` returns.
unfoldable pub validate_openid_configuration : Option Configuration → Bool
validate_openid_configuration none = false
validate_openid_configuration (some c) =
    c.authorization_endpoint && (c.token_endpoint && c.jwks_uri)

-- `x.includes(url)` on provider addresses, which may be undefined
unfoldable pub same_url : Option Text → Option Text → Bool
same_url none none = true
same_url none (some u) = false
same_url (some t) none = false
same_url (some t) (some u) = text_eq t u

unfoldable pub includes_url : Option Text → List (Option Text) → Bool
unfolding same_url
includes_url url [] = false
includes_url url (u ∷ urls) = same_url u url || includes_url url urls

-- The loop over the results: `notReadyServers` and `notCompliantServers`.
unfoldable pub sort_results :
    List (ResourceServer × Settled) → List (Option Text) × List (Option Text)
unfolding validate_openid_configuration
sort_results [] = ([], [])
sort_results ((r, settled) ∷ results) =
    let (not_ready, not_compliant) = sort_results results in
    elim settled [
      | fulfilled c ↦
          if validate_openid_configuration c
          then (not_ready, not_compliant)
          else (not_ready, r.oauth_provider_url ∷ not_compliant)
      | rejected ↦ (r.oauth_provider_url ∷ not_ready, not_compliant)
    ]

-- The resource servers whose providers are asked. No two of them are the same object, so that
-- `removeDuplicates` removes none.
unfoldable pub asked_servers : List ResourceServer → List ResourceServer
asked_servers = filter λ r. r.sp_initiated

-- `hasAnyResourceServerReady(oauth, onReadyCallback)`, but for its warnings: the resource servers that
-- are offered, by what the requests of the asked ones ended with. The entry `index` by which they are
-- sorted is in none of them, and the order stays.
unfoldable pub offered_servers :
    List (ResourceServer × Settled) → List ResourceServer → List ResourceServer
unfolding sort_results includes_url
offered_servers results servers =
    let (not_ready, not_compliant) = sort_results results in
    filter
      (λ r.
        not (includes_url r.oauth_provider_url not_ready)
        && not (includes_url r.oauth_provider_url not_compliant))
      servers

-- A request that ended without a usable configuration.
unfoldable pub is_failed : Settled → Bool
is_failed (fulfilled c) = not (validate_openid_configuration c)
is_failed rejected = true
