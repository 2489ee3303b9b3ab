-- ===== src/QueueTypes.antt =====
-- global.js, main.js: the types of queues that the console knows.
use rocketmq.Shared.{
  Bool, true, false, Option, none, some, [], ◌∷◌, Text, codes, Dict, lookup, text_eq, ◌||◌,
  if◌then◌else◌,
}

-- An entry of `QUEUE_TYPE`, with its two actions.
pub record QueueType : Type 0 where
  pub label : Text
  pub params : Dict Bool
  pub policy_apply_to : Option Text
  pub get_message : Bool
  pub purge : Bool
  pub tmpl : Dict Text

abbrev default_type : QueueType
default_type = record {
  label = codes "Default";
  params = [];
  policy_apply_to = some (codes "classic_queues");
  get_message = true;
  purge = true;
  tmpl =
      (codes "arguments", codes "classic-queue-arguments")
      ∷ (codes "user_policy_arguments", codes "classic-queue-user-policy-arguments")
      ∷ (codes "operator_policy_arguments", codes "classic-queue-operator-policy-arguments")
      ∷ (codes "list", codes "classic-queue-list")
      ∷ (codes "stats", codes "classic-queue-stats")
      ∷ (codes "node_details", codes "classic-queue-node-details")
      ∷ (codes "get_message", codes "classic-queue-get-message")
      ∷ [];
}

abbrev classic_type : QueueType
classic_type = record {
  label = codes "Classic";
  params = [];
  policy_apply_to = some (codes "classic_queues");
  get_message = true;
  purge = true;
  tmpl =
      (codes "arguments", codes "classic-queue-arguments")
      ∷ (codes "user_policy_arguments", codes "classic-queue-user-policy-arguments")
      ∷ (codes "operator_policy_arguments", codes "classic-queue-operator-policy-arguments")
      ∷ (codes "list", codes "classic-queue-list")
      ∷ (codes "stats", codes "classic-queue-stats")
      ∷ (codes "node_details", codes "classic-queue-node-details")
      ∷ (codes "get_message", codes "classic-queue-get-message")
      ∷ [];
}

abbrev quorum_type : QueueType
quorum_type = record {
  label = codes "Quorum";
  params = (codes "durable", true) ∷ (codes "auto_delete", false) ∷ [];
  policy_apply_to = some (codes "quorum_queues");
  get_message = true;
  purge = true;
  tmpl =
      (codes "arguments", codes "quorum-queue-arguments")
      ∷ (codes "user_policy_arguments", codes "quorum-queue-user-policy-arguments")
      ∷ (codes "operator_policy_arguments", codes "quorum-queue-operator-policy-arguments")
      ∷ (codes "list", codes "quorum-queue-list")
      ∷ (codes "stats", codes "quorum-queue-stats")
      ∷ (codes "node_details", codes "quorum-queue-node-details")
      ∷ (codes "get_message", codes "classic-queue-get-message")
      ∷ [];
}

abbrev stream_type : QueueType
stream_type = record {
  label = codes "Stream";
  params = (codes "durable", true) ∷ (codes "auto_delete", false) ∷ [];
  policy_apply_to = some (codes "streams");
  get_message = false;
  purge = false;
  tmpl =
      (codes "arguments", codes "stream-queue-arguments")
      ∷ (codes "user_policy_arguments", codes "stream-queue-user-policy-arguments")
      ∷ (codes "operator_policy_arguments", codes "stream-queue-operator-policy-arguments")
      ∷ (codes "list", codes "stream-queue-list")
      ∷ (codes "stats", codes "stream-queue-stats")
      ∷ (codes "node_details", codes "stream-queue-node-details")
      ∷ [];
}

abbrev qos0_type : QueueType
qos0_type = record {
  label = codes "MQTT QoS0";
  params = [];
  policy_apply_to = none;
  get_message = false;
  purge = false;
  tmpl =
      (codes "list", codes "classic-queue-list")
      ∷ (codes "stats", codes "classic-queue-stats")
      ∷ (codes "node_details", codes "classic-queue-node-details")
      ∷ [];
}

-- The properties of `QUEUE_TYPE`.
unfoldable pub queue_types : Dict QueueType
queue_types =
    (codes "default", default_type)
    ∷ (codes "classic", classic_type)
    ∷ (codes "quorum", quorum_type)
    ∷ (codes "stream", stream_type)
    ∷ (codes "rabbit_mqtt_qos0_queue", qos0_type)
    ∷ []

-- `get_queue_type(queue)`, on the type of the queue
unfoldable pub get_queue_type : Option Text → Text
get_queue_type none = codes "default"
get_queue_type (some t) =
    if text_eq t (codes "classic") || (text_eq t (codes "quorum") || text_eq t (codes "stream"))
    then t
    else codes "default"

unfoldable pub is_quorum : Option Text → Bool
is_quorum t = text_eq (get_queue_type t) (codes "quorum")

unfoldable pub is_stream : Option Text → Bool
is_stream t = text_eq (get_queue_type t) (codes "stream")

unfoldable pub is_classic : Option Text → Bool
is_classic t = text_eq (get_queue_type t) (codes "classic")

-- The function `QUEUE_TYPE(queue)`
unfoldable pub queue_type_of : Option Text → Option QueueType
queue_type_of t = lookup (get_queue_type t) queue_types
