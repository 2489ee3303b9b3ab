-- ===== src/Dispatcher/Messaging.antt =====
-- dispatcher.js: connections, channels and exchanges.
use rocketmq.Shared.{◌||◌, [], ◌∷◌, ◌++◌, Text, codes, Dict, text_eq, if◌then◌else◌}
use rocketmq.Requests.Query.{Req}
use rocketmq.Requests.Template.{param_text}
use rocketmq.Dispatcher.Defs.{
  get, put, post, del, title, render, page, call, go_to, update, publish_msg, Env, Route, plain,
  ranged, calling, route, with_esc,
}

unfoldable pub connections : Route
connections =
    route get (codes "#/connections")
      λ env params. title (codes "Connections") ∷ page (codes "connections") ∷ []

-- The sessions of an AMQP 1.0 connection, the channels of another one.
unfoldable pub connection_requests : Env → Text → Dict Req
connection_requests env path =
    (codes "connection", ranged path (codes "data-rates-conn" ∷ []))
    ∷ (if text_eq env.protocol (codes "AMQP 1-0") || text_eq env.protocol (codes "Web AMQP 1-0")
        then (codes "sessions", plain (path ++ codes "/sessions")) ∷ []
        else (codes "channels", plain (path ++ codes "/channels")) ∷ [])

unfoldable pub connection : Route
unfolding with_esc connection_requests
connection = route get (codes "#/connections/:name") λ env params.
    with_esc (codes "name") params λ name.
      let path = codes "/connections/" ++ name in
      call get path []
      ∷ render (connection_requests env path) (codes "connection") (codes "#/connections")
      ∷ []

unfoldable pub delete_connection : Route
unfolding calling
delete_connection =
    route del (codes "#/connections")
      (calling del (codes "/connections/:name") (go_to (codes "#/connections") ∷ []))

unfoldable pub channels : Route
channels =
    route get (codes "#/channels")
      λ env params. title (codes "Channels") ∷ page (codes "channels") ∷ []

unfoldable pub channel : Route
unfolding with_esc
channel = route get (codes "#/channels/:name") λ env params. with_esc (codes "name") params λ name.
    render
      ((
        codes "channel",
        ranged (codes "/channels/" ++ name) (codes "data-rates-ch" ∷ codes "msg-rates-ch" ∷ []),
      )
        ∷ [])
      (codes "channel") (codes "#/channels")
    ∷ []

unfoldable pub exchanges : Route
exchanges =
    route get (codes "#/exchanges")
      λ env params. title (codes "Exchanges") ∷ page (codes "exchanges") ∷ []

unfoldable pub exchange_requests : Text → Dict Req
exchange_requests path =
    (codes "exchange", ranged path (codes "msg-rates-x" ∷ []))
    ∷ (codes "bindings_source", plain (path ++ codes "/bindings/source"))
    ∷ (codes "bindings_destination", plain (path ++ codes "/bindings/destination"))
    ∷ []

unfoldable pub exchange : Route
unfolding with_esc exchange_requests
exchange = route get (codes "#/exchanges/:vhost/:name") λ env params.
    with_esc (codes "vhost") params λ vhost.
      title (codes "Exchange " ++ (vhost ++ (b'/' ∷ param_text params (codes "name"))))
      ∷ (with_esc (codes "name") params λ name.
          render (exchange_requests (codes "/exchanges/" ++ (vhost ++ (b'/' ∷ name))))
            (codes "exchange") (codes "#/exchanges")
          ∷ [])

unfoldable pub put_exchange : Route
unfolding calling
put_exchange =
    route put (codes "#/exchanges") (calling put (codes "/exchanges/:vhost/:name") (update ∷ []))

unfoldable pub delete_exchange : Route
unfolding calling
delete_exchange =
    route del (codes "#/exchanges")
      (calling del (codes "/exchanges/:vhost/:name") (go_to (codes "#/exchanges") ∷ []))

unfoldable pub publish : Route
publish = route post (codes "#/exchanges/publish") λ env params. publish_msg ∷ []
