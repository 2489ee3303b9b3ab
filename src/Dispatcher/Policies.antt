-- ===== src/Dispatcher/Policies.antt =====
-- dispatcher.js: policies, limits and the restart of a virtual host.
use rocketmq.Shared.{
  int_text, parse_int, none, some, [], ◌∷◌, ◌++◌, Text, codes, List, Dict, insert, if◌then◌else◌,
}
use rocketmq.Requests.Template.{param_text}
use rocketmq.Requests.Cast.{rename_multifield}
use rocketmq.Markup.{escape_html}
use rocketmq.Dispatcher.Defs.{
  get, put, post, del, Act, title, render, go_to, popup, update, calling_cast, Env, Route, plain,
  path, calling, route, with_esc,
}

unfoldable pub policies : Route
unfolding path
policies =
    path (codes "#/policies")
      ((codes "policies", plain (codes "/policies"))
        ∷ (codes "operator_policies", plain (codes "/operator-policies"))
        ∷ (codes "vhosts", plain (codes "/vhosts"))
        ∷ [])
      (codes "policies")

unfoldable pub policy : Route
unfolding with_esc
policy = route get (codes "#/policies/:vhost/:id") λ env params.
    title (codes "Policies")
    ∷ (with_esc (codes "vhost") params λ vhost. with_esc (codes "id") params λ id.
        render ((codes "policy", plain (codes "/policies/" ++ (vhost ++ (b'/' ∷ id)))) ∷ [])
          (codes "policy") (codes "#/policies")
        ∷ [])

abbrev pub cast_policy : Text → Env → Dict Text → List Act
cast_policy template =
    calling_cast template (codes "name" ∷ codes "pattern" ∷ codes "policy" ∷ [])
      (codes "priority" ∷ []) []

unfoldable pub put_policy : Route
unfolding calling_cast
put_policy = route put (codes "#/policies") (cast_policy (codes "/policies/:vhost/:name"))

unfoldable pub delete_policy : Route
unfolding calling
delete_policy =
    route del (codes "#/policies")
      (calling del (codes "/policies/:vhost/:name") (go_to (codes "#/policies") ∷ []))

unfoldable pub put_operator_policy : Route
unfolding calling_cast
put_operator_policy = route put (codes "#/operator_policies") λ env params.
    cast_policy (codes "/operator-policies/:vhost/:name") env
      (rename_multifield params (codes "definitionop") (codes "definition"))

unfoldable pub delete_operator_policy : Route
unfolding calling
delete_operator_policy =
    route del (codes "#/operator_policies")
      (calling del (codes "/operator-policies/:vhost/:name") (update ∷ []))

-- The page of the limits reads the users for administrators.
unfoldable pub limits : Env → Route
unfolding path
limits env =
    path (codes "#/limits")
      ((codes "limits", plain (codes "/vhost-limits"))
        ∷ (codes "user_limits", plain (codes "/user-limits"))
        ∷ (codes "vhosts", plain (codes "/vhosts"))
        ∷ (if env.is_administrator then (codes "users", plain (codes "/users")) ∷ [] else []))
      (codes "limits")

-- The message on a limit that is no number.
unfoldable pub not_a_number : Dict Text → Text
not_a_number params =
    codes "Validation failed"
    ++ (10 ∷ 10 ∷ param_text params (codes "name")
        ++ (codes " should be a number, actually was \""
            ++ (param_text params (codes "value") ++ codes "\"")))

-- The handler of a limit: its value is read by `parseInt`; a call has it as the text of the number.
unfoldable pub put_limit : Text → Env → Dict Text → List Act
unfolding calling not_a_number
put_limit template env params = elim (parse_int (param_text params (codes "value"))) [
  | none ↦ popup (codes "warn") (escape_html (not_a_number params)) ∷ []
  | some n ↦ calling put template (update ∷ []) env (insert (codes "value") (int_text n) params)
]

unfoldable pub put_limits : Route
unfolding put_limit
put_limits = route put (codes "#/limits") (put_limit (codes "/vhost-limits/:vhost/:name"))

unfoldable pub put_user_limits : Route
unfolding put_limit
put_user_limits = route put (codes "#/user-limits") (put_limit (codes "/user-limits/:user/:name"))

unfoldable pub restart_vhost : Route
unfolding calling
restart_vhost =
    route post (codes "#/restart_vhost")
      (calling post (codes "/vhosts/:vhost/start/:node") (update ∷ []))

unfoldable pub delete_limits : Route
unfolding calling
delete_limits =
    route del (codes "#/limits") (calling del (codes "/vhost-limits/:vhost/:name") (update ∷ []))

unfoldable pub delete_user_limits : Route
unfolding calling
delete_user_limits =
    route del (codes "#/user-limits") (calling del (codes "/user-limits/:user/:name") (update ∷ []))
