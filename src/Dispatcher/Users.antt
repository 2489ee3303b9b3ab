-- ===== src/Dispatcher/Users.antt =====
-- dispatcher.js: users and their permissions.
use rocketmq.Shared.{
  ℕ, Bool, false, not, ◌&&◌, Option, none, some, [], ◌∷◌, ◌++◌, ◌==◌, Text, codes, List, Dict,
  text_eq, includes, lookup, if◌then◌else◌,
}
use rocketmq.Requests.Query.{Req}
use rocketmq.Requests.Template.{param_text}
use rocketmq.Markup.{escape_html}
use rocketmq.Uri.{esc}
use rocketmq.Dispatcher.Defs.{
  get, put, del, Act, title, render, page, call, go_to, popup, update, change_own_password, throws,
  Env, Route, plain, calling, route, with_esc,
}

unfoldable pub users : Route
users = route get (codes "#/users") λ env params. title (codes "Users") ∷ page (codes "users") ∷ []

-- The name of `vhosts[index_vhost]`: the current virtual host where it is in the list, else the first
-- one. `none` is the exception of reading a field of `undefined`.
unfoldable pub home_vhost : Option Text → List Text → Option Text
home_vhost current [] = none
home_vhost none (v ∷ vhosts) = some v
home_vhost (some c) (v ∷ vhosts) = some (if includes c (v ∷ vhosts) then c else v)

unfoldable pub user_requests : Text → Text → Dict Req
user_requests id vhost =
    (codes "user", plain (codes "/users/" ++ id))
    ∷ (codes "permissions", plain (codes "/users/" ++ (id ++ codes "/permissions")))
    ∷ (codes "topic_permissions", plain (codes "/users/" ++ (id ++ codes "/topic-permissions")))
    ∷ (codes "vhosts", plain (codes "/vhosts/"))
    ∷ (codes "exchanges", plain (codes "/exchanges/" ++ vhost))
    ∷ []

-- `esc` of a text that may be missing.
abbrev esc_some : Option Text → Option Text
esc_some none = none
esc_some (some s) = esc s

unfoldable pub user : Route
unfolding with_esc home_vhost user_requests
user = route get (codes "#/users/:id") λ env params.
    call get (codes "/vhosts") []
    ∷ (with_esc (codes "id") params λ id.
        elim (esc_some (home_vhost env.current_vhost env.vhosts)) [
          | none ↦ throws ∷ []
          | some vhost ↦ render (user_requests id vhost) (codes "user") (codes "#/users") ∷ []
        ])

-- What follows `sync_put` in `#/users-add`, by its result.
unfoldable pub users_added : Option ℕ → Dict Text → List Act
users_added none params = []
users_added (some status) params =
    (if status == 204
      then popup (codes "warn") (
          codes "Updated an existing user: '"
          ++ (escape_html (param_text params (codes "username")) ++ codes "'"))
        ∷ []
      else [])
    ++ (update ∷ [])

unfoldable pub add_user : Route
unfolding users_added
add_user = route put (codes "#/users-add") λ env params.
    call put (codes "/users/:username") params
    ∷ users_added (env.sync put (codes "/users/:username") params) params

abbrev is_given : Option Text → Bool
is_given none = false
is_given (some s) = not (text_eq s [])

abbrev is_name : Option Text → Text → Bool
is_name none name = false
is_name (some s) name = text_eq s name

-- Whether the form changes the password of the user who sends it.
unfoldable pub is_own_password_change : Env → Dict Text → Bool
is_own_password_change env params =
    is_given (lookup (codes "password") params)
    && is_name (lookup (codes "username") params) env.user_name

unfoldable pub modify_user : Route
unfolding is_own_password_change calling
modify_user = route put (codes "#/users-modify") λ env params.
    if is_own_password_change env params
    then change_own_password ∷ []
    else calling put (codes "/users/:username") (go_to (codes "#/users") ∷ []) env params

unfoldable pub delete_user : Route
unfolding calling
delete_user =
    route del (codes "#/users")
      (calling del (codes "/users/:username") (go_to (codes "#/users") ∷ []))

unfoldable pub put_permissions : Route
unfolding calling
put_permissions =
    route put (codes "#/permissions")
      (calling put (codes "/permissions/:vhost/:username") (update ∷ []))

unfoldable pub delete_permissions : Route
unfolding calling
delete_permissions =
    route del (codes "#/permissions")
      (calling del (codes "/permissions/:vhost/:username") (update ∷ []))

unfoldable pub put_topic_permissions : Route
unfolding calling
put_topic_permissions =
    route put (codes "#/topic-permissions")
      (calling put (codes "/topic-permissions/:vhost/:username") (update ∷ []))

unfoldable pub delete_topic_permissions : Route
unfolding calling
delete_topic_permissions =
    route del (codes "#/topic-permissions")
      (calling del (codes "/topic-permissions/:vhost/:username/:exchange") (update ∷ []))
