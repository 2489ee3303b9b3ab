-- ===== src/Links/Anchors.antt =====
-- formatters.js: `fmt_highlight_filter`, `_link_to` and the links to the pages of objects.
use mathlib.Core.Option
use rocketmq.Requests.Query.{◌>>=◌}
use rocketmq.Shared.{
  ℕ, ◌+◌, Bool, true, false, Option, none, some, [], ◌∷◌, ◌++◌, length, take, drop, Text, codes,
  Dict, lookup, text_eq, starts_with, if◌then◌else◌,
}
use rocketmq.Markup.{escape_html}
use rocketmq.Uri.{esc}
use rocketmq.Links.Names.{short_conn, short_chan, fmt_exchange0, highlight_extra_whitespace}

-- The filter of the page: `current_filter`, what `current_filter_regex` finds in a text, if it is set, and
-- the lower case of the language.
pub record Filter : Type 0 where
  pub current_filter : Text
  pub current_filter_regex : Option (Text → Option Text)
  pub lower : Text → Text

-- `text.indexOf(pattern)`
unfoldable pub index_of : Text → Text → Option ℕ
index_of pattern [] = if starts_with pattern [] then some 0 else none
index_of pattern (c ∷ s) =
    let later = index_of pattern s in
    if starts_with pattern (c ∷ s) then some 0 else Option.map (λ i. i + 1) later

abbrev or_text : Text → Option Text → Text
or_text t none = t
or_text t (some s) = s

-- `text_to_match`
unfoldable pub text_to_match : Filter → Text → Text
text_to_match f text = elim f.current_filter_regex [
  | none ↦ f.lower f.current_filter
  | some exec ↦ or_text (f.lower f.current_filter) (exec (f.lower text))
]

-- The three parts of a text, where the filter has a match.
unfoldable pub highlighted : Text → ℕ → Option ℕ → Text
highlighted text l none = escape_html text
highlighted text l (some ix) =
    escape_html (take ix text)
    ++ (codes "<span class=\"filter-highlight\">"
        ++ (escape_html (take l (drop ix text))
            ++ (codes "</span>" ++ escape_html (drop (ix + l) text))))

-- `fmt_highlight_filter(text)`
unfoldable pub fmt_highlight_filter : Filter → Text → Text
unfolding highlighted text_to_match index_of
fmt_highlight_filter f text =
    if text_eq f.current_filter []
    then escape_html text
    else highlighted text (length (text_to_match f text))
        (index_of (text_to_match f text) (f.lower text))

-- The attribute for a purpose `x-internal-purpose` of the arguments.
unfoldable pub title_of : Option Text → Text
title_of none = []
title_of (some purpose) =
    codes " title=\"This is used internally by the "
    ++ (escape_html purpose ++ codes " mechanism.\"")

abbrev pub purpose_of : Option (Dict Text) → Option Text
purpose_of none = none
purpose_of (some args) = lookup (codes "x-internal-purpose") args

-- `_link_to(name, url, highlight, args)`
unfoldable pub link_to : Filter → Text → Text → Bool → Option (Dict Text) → Text
unfolding title_of
link_to f name url highlight args =
    codes "<a href=\""
    ++ (url
        ++ (codes "\""
            ++ (title_of (purpose_of args)
                ++ (codes ">"
                    ++ ((if highlight then fmt_highlight_filter f name else escape_html name)
                        ++ codes "</a>")))))

-- `link_conn(name, desc)`
unfoldable pub link_conn : Filter → Text → Option Text → Option Text
link_conn f name none =
    esc name >>= λ n. some (link_to f (short_conn name) (codes "#/connections/" ++ n) true none)
link_conn f name (some desc) =
    esc name >>= λ n. some (link_to f desc (codes "#/connections/" ++ n) false none)

unfoldable pub link_channel : Filter → Text → Option Text
link_channel f name =
    esc name >>= λ n. some (link_to f (short_chan name) (codes "#/channels/" ++ n) true none)

-- `name == '' ? 'amq.default' : esc(name)`
unfoldable pub exchange_segment : Text → Option Text
exchange_segment [] = some (codes "amq.default")
exchange_segment (c ∷ s) = esc (c ∷ s)

unfoldable pub link_exchange : Filter → Text → Text → Option (Dict Text) → Option Text
unfolding exchange_segment
link_exchange f vhost name args = esc vhost >>= λ v. exchange_segment name >>= λ n. some (
    link_to f (fmt_exchange0 (highlight_extra_whitespace name))
      (codes "#/exchanges/" ++ (v ++ (b'/' ∷ n))) true args)

unfoldable pub link_queue : Filter → Text → Text → Option (Dict Text) → Option Text
link_queue f vhost name args = esc vhost >>= λ v. esc name >>= λ n.
    some (
      link_to f (highlight_extra_whitespace name) (codes "#/queues/" ++ (v ++ (b'/' ∷ n))) true
        args)

unfoldable pub link_vhost : Filter → Text → Option Text
link_vhost f name = esc name >>= λ n. some (link_to f name (codes "#/vhosts/" ++ n) true none)

unfoldable pub link_user : Filter → Text → Option Text
link_user f name = esc name >>= λ n. some (link_to f name (codes "#/users/" ++ n) true none)

-- `link_node(name)`, with `fmt_node(name)`
unfoldable pub link_node : Filter → Text → Option Text
link_node f name =
    esc name >>= λ n. some (link_to f (escape_html name) (codes "#/nodes/" ++ n) true none)

unfoldable pub link_policy : Filter → Text → Text → Option Text
link_policy f vhost name = esc vhost >>= λ v.
    esc name >>= λ n. some (link_to f name (codes "#/policies/" ++ (v ++ (b'/' ∷ n))) true none)

-- `fmt_resource_link(res)`, which is undefined on another kind
unfoldable pub fmt_resource_link : Filter → Text → Text → Text → Option (Option Text)
unfolding link_queue link_exchange link_vhost
fmt_resource_link f kind name virtual_host =
    let shown : Option Text → Option (Option Text) = λ link. link >>= λ l.
    link_vhost f virtual_host >>= λ v.
    some (some (kind ++ (codes " '" ++ (l ++ (codes "' in vhost '" ++ (v ++ codes "'")))))) in
    if text_eq kind (codes "queue")
    then shown (link_queue f virtual_host name (some []))
    else if text_eq kind (codes "exchange")
    then shown (link_exchange f virtual_host name (some []))
    else some none
