-- ===== src/Dispatcher/Routes.antt =====
-- dispatcher.js: the table of the routes, in the order of their registration.
use rocketmq.Shared.{List, [], ◌∷◌, ◌++◌, if◌then◌else◌}
use rocketmq.Dispatcher.Defs.{Env, Route}
use rocketmq.Dispatcher.Overview.{overview, cluster_name, put_cluster_name, node}
use rocketmq.Dispatcher.Messaging.{
  connections, connection, delete_connection, channels, channel, exchanges, exchange, put_exchange,
  delete_exchange, publish,
}
use rocketmq.Dispatcher.Queues.{
  queues, queue, put_queue, delete_queue, get_messages, queue_actions, post_binding, delete_binding,
}
use rocketmq.Dispatcher.Vhosts.{vhosts, vhost, put_vhost, delete_vhost}
use rocketmq.Dispatcher.Users.{
  users, user, add_user, modify_user, delete_user, put_permissions, delete_permissions,
  put_topic_permissions, delete_topic_permissions,
}
use rocketmq.Dispatcher.Policies.{
  policies, policy, put_policy, delete_policy, put_operator_policy, delete_operator_policy, limits,
  put_limits, put_user_limits, restart_vhost, delete_limits, delete_user_limits,
}
use rocketmq.Dispatcher.System.{
  feature_flags, enable_feature_flag, deprecated_features, logout, rate_options, column_options,
  reset, reset_node,
}

abbrev pub messaging_routes : List Route
messaging_routes =
    connections ∷ connection ∷ delete_connection ∷ channels ∷ channel ∷ exchanges ∷ exchange
    ∷ put_exchange ∷ delete_exchange ∷ publish ∷ []

abbrev pub queue_routes : List Route
queue_routes =
    queues ∷ queue ∷ put_queue ∷ delete_queue ∷ get_messages ∷ queue_actions ∷ post_binding
    ∷ delete_binding ∷ []

abbrev pub place_routes : List Route
place_routes = vhosts ∷ vhost ∷ put_vhost ∷ delete_vhost ∷ []

abbrev pub user_routes : List Route
user_routes =
    users ∷ user ∷ add_user ∷ modify_user ∷ delete_user ∷ put_permissions ∷ delete_permissions
    ∷ put_topic_permissions ∷ delete_topic_permissions ∷ []

abbrev pub policy_routes : Env → List Route
policy_routes env =
    policies
    ∷ policy
    ∷ put_policy
    ∷ delete_policy
    ∷ put_operator_policy
    ∷ delete_operator_policy
    ∷ limits env
    ∷ put_limits
    ∷ put_user_limits
    ∷ restart_vhost
    ∷ delete_limits
    ∷ delete_user_limits
    ∷ []

-- The routes that exist only for a user who has access to a virtual host.
unfoldable pub vhost_routes : Env → List Route
vhost_routes env =
    messaging_routes ++ (queue_routes ++ (place_routes ++ (user_routes ++ policy_routes env)))

abbrev pub head_routes : List Route
head_routes = overview ∷ overview ∷ cluster_name ∷ put_cluster_name ∷ node ∷ []

abbrev pub tail_routes : List Route
tail_routes =
    feature_flags ∷ enable_feature_flag ∷ deprecated_features ∷ logout ∷ rate_options
    ∷ column_options ∷ reset ∷ reset_node ∷ []

-- The function given to `dispatcher_add`.
unfoldable pub routes : Env → List Route
unfolding vhost_routes
routes env =
    head_routes ++ ((if env.can_access_vhosts then vhost_routes env else []) ++ tail_routes)
