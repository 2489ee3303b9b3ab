-- ===== src/Dispatcher/Overview.antt =====
-- dispatcher.js: the overview, the name of the cluster and the nodes.
use rocketmq.Shared.{[], ◌∷◌, ◌++◌, codes, Dict, if◌then◌else◌}
use rocketmq.Requests.Query.{Req}
use rocketmq.Requests.Template.{param_text}
use rocketmq.Dispatcher.Defs.{
  get, put, title, render, update, setup_global_vars, Env, Route, plain, ranged, path, calling,
  route, with_esc,
}

unfoldable pub overview_requests : Env → Dict Req
overview_requests env =
    (
      codes "overview",
      ranged (codes "/overview") (codes "lengths-over" ∷ codes "msg-rates-over" ∷ []),
    )
    ∷ (codes "vhosts", plain (codes "/vhosts"))
    ∷ (if env.user_monitor then (codes "nodes", plain (codes "/nodes")) ∷ [] else [])

-- The source registers this route twice.
unfoldable pub overview : Route
unfolding overview_requests
overview = route get (codes "#/") λ env params.
    title (codes "Overview") ∷ render (overview_requests env) (codes "overview") (codes "#/") ∷ []

unfoldable pub cluster_name : Route
unfolding path
cluster_name =
    path (codes "#/cluster-name") ((codes "cluster_name", plain (codes "/cluster-name")) ∷ [])
      (codes "cluster-name")

unfoldable pub put_cluster_name : Route
unfolding calling
put_cluster_name =
    route put (codes "#/cluster-name")
      (calling put (codes "/cluster-name") (setup_global_vars ∷ update ∷ []))

unfoldable pub node : Route
unfolding with_esc
node = route get (codes "#/nodes/:name") λ env params.
    title (codes "Node " ++ param_text params (codes "name"))
    ∷ (with_esc (codes "name") params λ name.
        render ((codes "node", ranged (codes "/nodes/" ++ name) (codes "node-stats" ∷ [])) ∷ [])
          (codes "node") (codes "")
        ∷ [])
