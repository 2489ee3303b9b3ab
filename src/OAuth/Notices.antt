-- ===== src/OAuth/Notices.antt =====
-- helper.js: the warnings of `hasAnyResourceServerReady`.
use rocketmq.Shared.{
  Option, none, some, List, [], ◌∷◌, ◌++◌, Text, codes, text_eq, map, filter, join, Dict,
  if◌then◌else◌,
}
use rocketmq.OAuth.Defs.{ResourceServer, readiness_url}
use rocketmq.OAuth.Readiness.{Settled, includes_url, sort_results, asked_servers, offered_servers}

-- `resource["label"] != null ? resource.label : resource.id`
unfoldable pub label_of : ResourceServer → Text
label_of r = elim r.label [ none ↦ r.id | some l ↦ l ]

-- A text that may be undefined, in a string or as the name of a property.
unfoldable pub or_undefined : Option Text → Text
or_undefined none = codes "undefined"
or_undefined (some s) = s

-- `warningMessageOAuthResource` and `warningMessageOAuthResources`
unfoldable pub warning_message_one : ResourceServer → Text → Text
unfolding label_of or_undefined
warning_message_one r reason =
    codes "OAuth resource [<b>"
    ++ (label_of r
        ++ (codes "</b>] not available. OpenId Discovery endpoint "
            ++ (or_undefined (readiness_url r) ++ reason)))

unfoldable pub warning_message_all : Text → List ResourceServer → Text → Text
unfolding label_of
warning_message_all url resources reason =
    codes "OAuth resources [ <b>"
    ++ (join (codes "</b>,<b>") (map label_of resources)
        ++ (codes "</b>] not available. OpenId Discovery endpoint " ++ (url ++ reason)))

-- `group[url].push(server)`, where a new group is the last one
unfoldable pub push_server :
    Text → ResourceServer → Dict (List ResourceServer) → Dict (List ResourceServer)
push_server url r [] = (url, r ∷ []) ∷ []
push_server url r ((u, group) ∷ groups) =
    let later = push_server url r groups in
    if text_eq u url then (u, group ++ r ∷ []) ∷ groups else (u, group) ∷ later

-- `groupByProviderURL`, from the first server on
unfoldable pub group_servers :
    List ResourceServer → Dict (List ResourceServer) → Dict (List ResourceServer)
unfolding push_server or_undefined
group_servers [] groups = groups
group_servers (r ∷ servers) groups =
    group_servers servers (push_server (or_undefined r.oauth_provider_url) r groups)

-- The warning about the servers of a group that failed for a reason.
unfoldable pub warn_group : Text → List ResourceServer → Text → List Text
unfolding warning_message_one warning_message_all
warn_group url [] reason = []
warn_group url (r ∷ []) reason = warning_message_one r reason ∷ []
warn_group url (r ∷ q ∷ servers) reason = warning_message_all url (r ∷ q ∷ servers) reason ∷ []

-- The loop over the groups.
unfoldable pub warn_groups :
    List (Option Text) → List (Option Text) → Dict (List ResourceServer) → List Text
unfolding warn_group
warn_groups not_ready not_compliant [] = []
warn_groups not_ready not_compliant ((url, servers) ∷ groups) =
    warn_group url (filter (λ r. includes_url r.oauth_provider_url not_ready) servers)
      (codes " not reachable")
    ++ (warn_group url (filter (λ r. includes_url r.oauth_provider_url not_compliant) servers)
          (codes " not compliant")
        ++ warn_groups not_ready not_compliant groups)

unfoldable pub readiness_warnings :
    List (ResourceServer × Settled) → List ResourceServer → List Text
unfolding warn_groups group_servers
readiness_warnings results servers =
    let (not_ready, not_compliant) = sort_results results in
    warn_groups not_ready not_compliant (group_servers (asked_servers servers) [])

-- What the callback of `hasAnyResourceServerReady(oauth, onReadyCallback)` is given, with how the requests of
-- the asked servers end: the resource servers and the warnings.
unfoldable pub has_any_resource_server_ready :
    (ResourceServer → Settled) → List ResourceServer → List ResourceServer × List Text
unfolding readiness_warnings
has_any_resource_server_ready fetch servers = elim (asked_servers servers) [
  | [] ↦ (servers, [])
  | r ∷ asked ↦
      let results = map (λ q. (q, fetch q)) (r ∷ asked) in
      (offered_servers results servers, readiness_warnings results servers)
]
