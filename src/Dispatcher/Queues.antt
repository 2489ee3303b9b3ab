-- ===== src/Dispatcher/Queues.antt =====
-- dispatcher.js: queues and bindings.
use rocketmq.Shared.{[], ◌∷◌, ◌++◌, Text, codes, Dict, text_eq, insert, if◌then◌else◌}
use rocketmq.Requests.Query.{Req}
use rocketmq.Requests.Template.{param_text}
use rocketmq.Dispatcher.Defs.{
  get, put, post, del, title, render, page, go_to, popup, update, partial_update, grey_button,
  get_msgs, Env, Route, plain, ranged, calling, route, with_esc,
}

unfoldable pub queues : Route
queues =
    route get (codes "#/queues") λ env params. title (codes "Queues") ∷ page (codes "queues") ∷ []

-- `for (key in extra) requests[key] = extra[key];`
unfoldable pub add_requests : Dict Req → Dict Req → Dict Req
add_requests [] requests = requests
add_requests ((key, req) ∷ extra) requests = add_requests extra (insert key req requests)

unfoldable pub queue_requests : Env → Text → Dict Req
unfolding add_requests
queue_requests env path = add_requests env.extra_requests (
    (
      codes "queue",
      ranged path (codes "lengths-q" ∷ codes "msg-rates-q" ∷ codes "data-rates-q" ∷ []),
    )
    ∷ (codes "bindings", plain (path ++ codes "/bindings"))
    ∷ [])

unfoldable pub queue : Route
unfolding with_esc queue_requests
queue = route get (codes "#/queues/:vhost/:name") λ env params.
    with_esc (codes "vhost") params λ vhost.
      title (codes "Queue " ++ (vhost ++ (b'/' ∷ param_text params (codes "name"))))
      ∷ (with_esc (codes "name") params λ name.
          render (queue_requests env (codes "/queues/" ++ (vhost ++ (b'/' ∷ name)))) (codes "queue")
            (codes "#/queues")
          ∷ [])

unfoldable pub put_queue : Route
unfolding calling
put_queue = route put (codes "#/queues") (calling put (codes "/queues/:vhost/:name") (update ∷ []))

-- Deletes or purges, as `mode` says.
unfoldable pub delete_queue : Route
unfolding calling
delete_queue = route del (codes "#/queues") λ env params.
    let mode = param_text params (codes "mode") in
    if text_eq mode (codes "delete")
    then calling del (codes "/queues/:vhost/:name") (go_to (codes "#/queues") ∷ []) env params
    else if text_eq mode (codes "purge")
    then calling del (codes "/queues/:vhost/:name/contents")
        (popup (codes "info") (codes "Queue purged") ∷ partial_update ∷ []) env params
    else []

unfoldable pub get_messages : Route
get_messages = route post (codes "#/queues/get") λ env params. get_msgs ∷ []

unfoldable pub queue_actions : Route
unfolding calling
queue_actions =
    route post (codes "#/queues/actions")
      (calling post (codes "/queues/:vhost/:name/actions") (grey_button ∷ []))

unfoldable pub post_binding : Route
unfolding calling
post_binding =
    route post (codes "#/bindings") (
      calling post (codes "/bindings/:vhost/e/:source/:destination_type/:destination")
        (update ∷ []))

unfoldable pub delete_binding : Route
unfolding calling
delete_binding = route del (codes "#/bindings") (
    calling del (codes "/bindings/:vhost/e/:source/:destination_type/:destination/:properties_key")
      (update ∷ []))
