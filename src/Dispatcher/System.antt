-- ===== src/Dispatcher/System.antt =====
-- dispatcher.js: feature flags, the session and resets.
use rocketmq.Shared.{[], ◌∷◌, codes, if◌then◌else◌}
use rocketmq.Dispatcher.Defs.{
  put, del, update, clear_auth, initiate_logout, go_to_home, update_rate_options,
  update_column_options, Route, plain, sorted, path, calling, route,
}

unfoldable pub feature_flags : Route
unfolding path
feature_flags =
    path (codes "#/feature-flags")
      ((codes "feature_flags", sorted (codes "/feature-flags"))
        ∷ (codes "permissions", plain (codes "/permissions"))
        ∷ [])
      (codes "feature-flags")

unfoldable pub enable_feature_flag : Route
unfolding calling
enable_feature_flag =
    route put (codes "#/feature-flags-enable")
      (calling put (codes "/feature-flags/:name/enable") (update ∷ []))

unfoldable pub deprecated_features : Route
unfolding path
deprecated_features =
    path (codes "#/deprecated-features")
      ((codes "deprecated_features", sorted (codes "/deprecated-features"))
        ∷ (codes "used_deprecated_features", plain (codes "/deprecated-features/used"))
        ∷ [])
      (codes "deprecated-features")

unfoldable pub logout : Route
logout =
    route put (codes "#/logout")
      λ env params. clear_auth ∷ (if env.logged_in then initiate_logout else go_to_home) ∷ []

unfoldable pub rate_options : Route
rate_options = route put (codes "#/rate-options") λ env params. update_rate_options ∷ []

unfoldable pub column_options : Route
column_options = route put (codes "#/column-options") λ env params. update_column_options ∷ []

unfoldable pub reset : Route
unfolding calling
reset = route del (codes "#/reset") (calling del (codes "/reset") (update ∷ []))

unfoldable pub reset_node : Route
unfolding calling
reset_node = route del (codes "#/reset_node") (calling del (codes "/reset/:node") (update ∷ []))
