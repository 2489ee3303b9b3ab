-- ===== src/Requests/Sync.antt =====
-- main.js: `sync_req` and the four functions on top of it.
use rocketmq.Shared.{
  lookup, remove, Bool, true, false, Option, none, some, List, [], ◌∷◌, ◌++◌, Text, codes, Dict,
  map, text_eq, if◌then◌else◌,
}
use rocketmq.Requests.Template.{Attempt, made, threw, ◌>>=◌, Failure, fill_path_template}
use rocketmq.Requests.Cast.{Value, cast_params, cast_with, cast_parameter}
use rocketmq.Response.{Reply, Situation, Action, check_bad_response}
use rocketmq.Forms.Collapse.{Param, Collected}
use rocketmq.Forms.Magic.{Control, shown_param, params_magic}

-- A request that is sent, with the parameters that its body is made of: a GET has no body.
pub record Sent : Type 0 where
  pub verb : Text
  pub path : Text
  pub headers : Dict Text
  pub body : Option Collected

-- What the function returns instead of false: the text of the response, or an object with the parameters.
pub data Result : Type 0 where
  response : Text → Result
  answer : Reply → Collected → Text → Result

-- What the function did: it showed a failure and sent nothing, or it sent a request and acted on the reply.
pub data Outcome : Type 0 where
  refused : Failure → Outcome
  sent : Sent → Action → Option Result → Outcome

-- What the function reads: the state of the page, the authorization, the type of queues, the selections of
-- the form, and how the server replies, with the text of the response.
pub record Setting : Type 0 where
  pub situation : Situation
  pub authorization : Text
  pub queue_type : Text
  pub controls : List Control
  pub server : Sent → Reply × Text

abbrev pub shown_params : Dict Param → Dict Text
shown_params params = map (λ p. (p.0, shown_param p.1)) params

-- The parameters and the path.
unfoldable pub prepare : Setting → Dict Value → Text → Attempt (Collected × Text)
prepare env params0 path_template = params_magic env.queue_type env.controls params0 >>= λ c.
    fill_path_template path_template (shown_params c.params) >>= λ path. made (c, path)

abbrev result_of : Text → Reply → Collected → Text → Bool → Option Result
result_of verb reply params text false = none
result_of verb reply params text true =
    some (if text_eq verb (codes "GET") then response text else answer reply params text)

abbrev with_headers : Text → Dict Text → Dict Text
with_headers authorization more =
    (codes "content-type", codes "application/json") ∷ (codes "authorization", authorization) ∷ more

unfoldable pub send : Setting → Text → Dict Text → Attempt (Collected × Text) → Outcome
send env verb headers (threw why) = refused why
send env verb headers (made (params, path)) =
    let request : Sent = record {
      verb = verb;
      path = codes "api" ++ path;
      headers = with_headers env.authorization headers;
      body = if text_eq verb (codes "GET") then none else some params;
    } in
    let (reply, text) = env.server request in
    let (good, action) = check_bad_response env.situation false false reply in
    sent request action (result_of verb reply params text good)

-- `sync_req(type, params0, path_template, options)`, with the headers of the options
unfoldable pub sync_req : Setting → Text → Dict Value → Text → Dict Text → Outcome
unfolding prepare send
sync_req env verb params0 path_template headers =
    send env verb headers (prepare env params0 path_template)

unfoldable pub sync_get : Setting → Text → Outcome
sync_get env path = sync_req env (codes "GET") [] path []

unfoldable pub sync_put : Setting → Dict Value → Text → Outcome
sync_put env params path_template = sync_req env (codes "PUT") params path_template []

unfoldable pub sync_delete : Setting → Dict Value → Text → Dict Text → Outcome
sync_delete env params path_template headers =
    sync_req env (codes "DELETE") params path_template headers

unfoldable pub sync_post : Setting → Dict Value → Text → Outcome
sync_post env params path_template = sync_req env (codes "POST") params path_template []

-- Whether the result is taken for true.
unfoldable pub is_done : Outcome → Bool
is_done (refused why) = false
is_done (sent request action none) = false
is_done (sent request action (some (response []))) = false
is_done (sent request action (some (response (c ∷ s)))) = true
is_done (sent request action (some (answer reply params text))) = true

-- `put_cast_params(sammy, path, mandatory_keys, num_keys, bool_keys)`, with whether the page is updated
unfoldable pub put_cast_params :
    Setting → Dict Text → Text → List Text → List Text → List Text → Outcome × Bool
unfolding sync_put is_done
put_cast_params env params path mandatory_keys num_keys bool_keys =
    let outcome = sync_put env (cast_params mandatory_keys num_keys bool_keys params) path in
    (outcome, is_done outcome)

-- The parameters that `put_parameter` makes, with the object `value`.
pub record Parameter : Type 0 where
  pub component : Option Value
  pub vhost : Option Value
  pub name : Option Value
  pub value : Collected

-- `put_parameter(sammy, mandatory_keys, num_keys, bool_keys, arrayable_keys)`, up to its call of `sync_put`
unfoldable pub put_parameter :
    Setting → Dict Text → List Text → List Text → List Text → List Text → Attempt Parameter
put_parameter env params mandatory_keys num_keys bool_keys arrayable_keys =
    let cast = cast_with (cast_parameter mandatory_keys num_keys bool_keys arrayable_keys) params in
    params_magic env.queue_type env.controls cast >>= λ c. made (record {
      component = lookup (codes "component") cast;
      vhost = lookup (codes "vhost") cast;
      name = lookup (codes "name") cast;
      value = record c {
        params =
            remove (codes "name") (remove (codes "component") (remove (codes "vhost") c.params));
      };
    })
