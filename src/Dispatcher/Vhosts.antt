-- ===== src/Dispatcher/Vhosts.antt =====
-- dispatcher.js: virtual hosts.
use rocketmq.Shared.{[], ◌∷◌, ◌++◌, Text, codes, Dict}
use rocketmq.Requests.Query.{Req}
use rocketmq.Dispatcher.Defs.{
  get, put, del, render, go_to, update, update_vhosts, Route, plain, ranged, sorted, path, calling,
  route, with_esc,
}

unfoldable pub vhosts : Route
unfolding path
vhosts =
    path (codes "#/vhosts")
      ((codes "vhosts", sorted (codes "/vhosts"))
        ∷ (codes "permissions", plain (codes "/permissions"))
        ∷ [])
      (codes "vhosts")

-- The requests of a virtual host's page, from its escaped name.
unfoldable pub vhost_requests : Text → Dict Req
vhost_requests id =
    (
      codes "vhost",
      ranged (codes "/vhosts/" ++ id)
          (codes "lengths-vhost" ∷ codes "msg-rates-vhost" ∷ codes "data-rates-vhost" ∷ []),
    )
    ∷ (codes "permissions", plain (codes "/vhosts/" ++ (id ++ codes "/permissions")))
    ∷ (codes "topic_permissions", plain (codes "/vhosts/" ++ (id ++ codes "/topic-permissions")))
    ∷ (codes "users", plain (codes "/users/"))
    ∷ (codes "exchanges", plain (codes "/exchanges/" ++ id))
    ∷ []

unfoldable pub vhost : Route
unfolding with_esc vhost_requests
vhost = route get (codes "#/vhosts/:id") λ env params.
    with_esc (codes "id") params
      λ id. render (vhost_requests id) (codes "vhost") (codes "#/vhosts") ∷ []

unfoldable pub put_vhost : Route
unfolding calling
put_vhost =
    route put (codes "#/vhosts") (calling put (codes "/vhosts/:name") (update_vhosts ∷ update ∷ []))

unfoldable pub delete_vhost : Route
unfolding calling
delete_vhost =
    route del (codes "#/vhosts")
      (calling del (codes "/vhosts/:name") (update_vhosts ∷ go_to (codes "#/vhosts") ∷ []))
