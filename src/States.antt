-- ===== src/States.antt =====
-- formatters.js: states, durations and counts as they are shown.
use rocketmq.Shared.{
  ℕ, zero, suc, ◌+◌, ◌-◌, ◌*◌, ◌/◌, ◌%◌, Bool, true, false, not, ◌&&◌, ◌||◌, Option, none, some,
  List, [], ◌∷◌, ◌++◌, ◌==◌, ltb, Text, codes, Dict, text_eq, join, to_text, take, drop, length,
  if◌then◌else◌,
}
use rocketmq.Markup.{escape_html}
pub mod Nodes
pub mod Uptime

-- The colours of `fmt_state`.
pub data Colour : Type 0 where
  green grey red yellow : Colour

abbrev colour_name : Colour → Text
colour_name green = codes "green"
colour_name grey = codes "grey"
colour_name red = codes "red"
colour_name yellow = codes "yellow"

-- `fmt_state(colour, text, explanation)`, with the empty text for no explanation
unfoldable pub fmt_state : Colour → Text → Text → Text
fmt_state colour text explanation =
    codes "<div class=\"colour-key status-key-"
    ++ (colour_name colour
        ++ (codes "\"></div>"
            ++ (if text_eq explanation []
                then text
                else codes "<abbr class=\"normal\" title=\""
                  ++ (explanation ++ (codes "\">" ++ (text ++ codes "</abbr>"))))))

-- The fields that `fmt_object_state` reads; `terminated_by` is none also where it is the empty text.
pub record Shown : Type 0 where
  pub state : Option Text
  pub idle_since : Option Text
  pub terminated_by : Option Text

abbrev by_whom : Option Text → Text
by_whom none = []
by_whom (some who) = codes " by \"" ++ (who ++ codes "\"")

-- The colour and the explanation of a state of an object that is not idle.
unfoldable pub explain : Text → Option Text → Colour × Text
explain state terminated_by =
    if text_eq state (codes "blocked")
    then (red, codes "Resource alarm: connection blocked.")
    else if text_eq state (codes "blocking")
    then (yellow, codes "Resource alarm: connection will block on publish.")
    else if text_eq state (codes "flow")
    then (yellow, codes "Publishing rate recently throttled by server.")
    else if text_eq state (codes "terminated")
    then (yellow, codes "The queue is being deleted" ++ (by_whom terminated_by ++ codes "."))
    else if text_eq state (codes "down")
    then (red, codes "The queue is located on a cluster node or nodes that are down.")
    else if text_eq state (codes "crashed")
    then (red, codes "The queue has crashed repeatedly and been unable to restart.")
    else if text_eq state (codes "stopped")
    then (red, codes "The queue process was stopped by the vhost supervisor.")
    else if text_eq state (codes "minority")
    then (yellow, codes "The queue does not have sufficient online members to make progress")
    else if text_eq state (codes "timeout")
    then (yellow, codes "The queue leader did not respond to its status request ")
    else (green, [])

-- `fmt_object_state`
unfoldable pub fmt_object_state : Shown → Text
unfolding fmt_state explain
fmt_object_state obj = elim obj.state [
  | none ↦ []
  | some state ↦ elim obj.idle_since [
    | none ↦
        let (colour, explanation) = explain state obj.terminated_by in
        fmt_state colour state explanation
    | some since ↦ fmt_state grey (codes "idle") (codes "Idle since " ++ since)
  ]
]

unfoldable pub is_down : Text → Bool
is_down state = text_eq state (codes "stopped") || text_eq state (codes "nodedown")

-- The variables of the loop of `fmt_vhost_state`.
pub record Tally : Type 0 where
  pub down_nodes : List Text
  pub ok_count : ℕ
  pub non_ok_count : ℕ

unfoldable pub tally : Dict Text → Tally → Tally
tally [] t = t
tally ((node, state) ∷ cluster_state) t = tally cluster_state (
    if is_down state
    then record t { non_ok_count = t.non_ok_count + 1; down_nodes = t.down_nodes ++ node ∷ [] }
    else if text_eq state (codes "running")
    then record t { ok_count = t.ok_count + 1 }
    else t)

-- `fmt_vhost_state`
unfoldable pub fmt_vhost_state : Dict Text → Text
unfolding tally fmt_state
fmt_vhost_state cluster_state =
    let t = tally cluster_state (record { down_nodes = []; ok_count = 0; non_ok_count = 0 }) in
    if t.non_ok_count == 0
    then fmt_state green (codes "running") []
    else if t.ok_count == 0
    then fmt_state red (codes "stopped") (codes "Vhost supervisor is not running.")
    else fmt_state yellow (codes "partial") (
        codes "Vhost supervisor is stopped on some cluster nodes: "
        ++ join (codes ", ") t.down_nodes)

-- The local variables of `fmt_uptime`, from whole milliseconds.
pub record Duration : Type 0 where
  pub day : ℕ
  pub hour : ℕ
  pub min : ℕ
  pub sec : ℕ

unfoldable pub duration : ℕ → Duration
duration u =
    let uptime = u / 1000 in
    record {
      day = uptime / 86400;
      hour = uptime / 3600 % 24;
      min = uptime / 60 % 60;
      sec = uptime % 60;
    }

unfoldable pub fmt_duration : Duration → Text
fmt_duration d =
    if ltb 0 d.day
    then to_text d.day ++ (codes "d " ++ (to_text d.hour ++ codes "h"))
    else if ltb 0 d.hour
    then to_text d.hour ++ (codes "h " ++ (to_text d.min ++ codes "m"))
    else to_text d.min ++ (codes "m " ++ (to_text d.sec ++ codes "s"))

-- `fmt_uptime`
unfoldable pub fmt_uptime : ℕ → Text
unfolding duration fmt_duration
fmt_uptime u = fmt_duration (duration u)

-- `fmt_trunc`
unfoldable pub fmt_trunc : Text → ℕ → Text
fmt_trunc str max_length =
    if ltb max_length (length str)
    then codes "<abbr class=\"normal\" title=\""
      ++ (escape_html str
          ++ (codes "\">" ++ (escape_html (take max_length str) ++ codes "...</abbr>")))
    else escape_html str
