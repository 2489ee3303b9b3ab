-- ===== src/Tests/LinkTests.antt =====
-- Names and links at concrete inputs.
use rocketmq.Shared.{
  ◌≢◌, false, true, ◌≡◌, refl, arith, none, some, [], ◌∷◌, ◌++◌, Text, codes, All, text_eq,
  starts_with, flat_map, replace_char, is_space, skip_spaces,
}
use rocketmq.Markup.{escape_html, escape_html0}
use rocketmq.Uri.{esc, code_points, esc_point, unreserved, percent, utf8}
use rocketmq.Uri.Encoded.{IsUriChar}
use rocketmq.Markup.Wrap.{wrap_text, wrap_from, round, newline_at}
use rocketmq.Markup.Lines.{fits, IsWrapped, wrap_text-lines}
use rocketmq.Requests.Query.{◌>>=◌}
use rocketmq.Prefs.Store.{Browser}
use rocketmq.Paging.{
  tag_length, strip_from, fmt_strip_tags, page_path, url_pagination_template_context, Controls,
  stored_page_info,
}
use rocketmq.Paging.Queries.{url_pagination_template_context-stored_page_info}
use rocketmq.Credentials.{
  is_scheme_char, scheme_of, after_at, user_of, masked, fmt_uri_with_credentials,
  fmt_uri_with_credentials-redacted,
}
use rocketmq.Links.Names.{
  is_line_end, up_to_close, parenthesis, last_parenthesis, channel_groups, short_chan, repeat,
  trailing_spaces, leading_spaces, replace_char_sequence_individually, replace_leading_chars,
  replace_trailing_chars, highlight_extra_whitespace,
}
use rocketmq.Links.Anchors.{
  Filter, index_of, text_to_match, highlighted, fmt_highlight_filter, title_of, link_to, link_queue,
}
use rocketmq.Links.Shown.{Shows, fmt_highlight_filter-Shows}
use rocketmq.Links.Targets.{IsAnchor, link_queue-IsAnchor}

-- A filter that is set, and none, where texts are in lower case already.
abbrev filter_or : Filter
filter_or = record { current_filter = codes "or"; current_filter_regex = none; lower = λ s. s }

abbrev no_filter : Filter
no_filter = record { current_filter = []; current_filter_regex = none; lower = λ s. s }

highlight_run :
    fmt_highlight_filter filter_or (codes "memory<1>")
    ≡ codes "mem<span class=\"filter-highlight\">or</span>y&lt;1&gt;"
unfolding fmt_highlight_filter highlighted text_to_match index_of text_eq starts_with escape_html
    escape_html0 replace_char
highlight_run = refl

fmt_highlight_filter-Shows_example :
    Shows (codes "memory<1>") (fmt_highlight_filter filter_or (codes "memory<1>"))
fmt_highlight_filter-Shows_example = fmt_highlight_filter-Shows filter_or (codes "memory<1>")

channel_run : short_chan (codes "10.0.0.1:80 -> 10.0.0.2:81 (1)") ≡ codes "10.0.0.1:80  (1)"
unfolding short_chan channel_groups last_parenthesis parenthesis up_to_close is_line_end starts_with
channel_run = refl

spaces_run :
    highlight_extra_whitespace (codes " a b  ") ≡ 0x23b5 ∷ codes "a b" ++ 0x23b5 ∷ 0x23b5 ∷ []
unfolding highlight_extra_whitespace replace_leading_chars replace_trailing_chars
    replace_char_sequence_individually leading_spaces trailing_spaces repeat replace_char is_space
    skip_spaces text_eq
spaces_run = refl

abbrev orders_link : Text
orders_link = codes "<a href=\"#/queues/%2F/my%20orders\">my orders</a>"

orders_linked : link_queue no_filter (codes "/") (codes "my orders") none ≡ some orders_link
unfolding link_queue link_to title_of fmt_highlight_filter text_eq escape_html escape_html0 esc
    code_points esc_point unreserved percent utf8 flat_map highlight_extra_whitespace
    replace_leading_chars replace_trailing_chars replace_char_sequence_individually leading_spaces
    trailing_spaces repeat replace_char is_space skip_spaces
orders_linked = refl

link_queue-IsAnchor_example :
    (v n : Text) × (esc (codes "/") ≡ some v)
    × (esc (codes "my orders") ≡ some n)
    × All IsUriChar v
    × All IsUriChar n
    × IsAnchor
        (codes "#/queues/" ++ (v ++ (b'/' ∷ n)))
        (highlight_extra_whitespace (codes "my orders"))
        orders_link
link_queue-IsAnchor_example =
    link_queue-IsAnchor no_filter (codes "/") (codes "my orders") none orders_link (ground arith)
      (ground arith) orders_linked

-- A message of two lines, and one that is cut.
wrap_run : wrap_text (codes "ab\ncd") ≡ some (codes "ab\ncd\n")
unfolding wrap_text wrap_from round newline_at
wrap_run = refl

wrap_text-lines_example :
    (t : Text) × (wrap_text (codes "ab\ncd") ≡ some t)
    × (fits 120 t ≡ true)
    × IsWrapped (codes "ab\ncd") t
wrap_text-lines_example = wrap_text-lines (codes "ab\ncd")

-- A browser in which nothing is kept, the controls of a page, and a language that takes no text for a number
-- above 500.
abbrev empty_browser : Browser
empty_browser = record { storage = some []; cookie = none; now = 0; columns = [] }

abbrev fifty : Controls
fifty = record {
  page_size = some (codes "<b>50");
  filter_name = some (codes "or&er");
  regex_on = false;
}

fifty_stripped : fmt_strip_tags fifty.page_size ≢ []
unfolding fmt_strip_tags strip_from tag_length
fifty_stripped = ground arith

-- A filter without special characters.
abbrev orders : Controls
orders = record fifty { filter_name = some (codes "order") }

orders_plain : escape_html (fmt_strip_tags orders.filter_name) ≡ fmt_strip_tags orders.filter_name
unfolding escape_html escape_html0 replace_char fmt_strip_tags strip_from tag_length
orders_plain = refl

url_pagination_template_context-stored_page_info_example :
    (stored_page_info (codes "queues") (codes "2") orders empty_browser >>= λ stored.
    url_pagination_template_context
      (λ t. true)
      (λ t. false)
      (codes "queues")
      (codes "queues")
      none
      none
      stored)
    ≡ some (record {
      path = codes "/queues?page=2&page_size=50&name=order&use_regex=false";
      popup = none;
    })
unfolding fmt_strip_tags strip_from tag_length
url_pagination_template_context-stored_page_info_example =
    url_pagination_template_context-stored_page_info (λ t. true) (λ t. false) (codes "queues")
      (codes "queues") (codes "2") none none orders empty_browser [] refl (ground arith)
      fifty_stripped refl orders_plain

-- The name of a filter is escaped for HTML, not for an address.
unescaped_query :
    page_path
      (λ t. true)
      (codes "queues")
      (codes "2")
      (codes "50")
      (escape_html (fmt_strip_tags fifty.filter_name))
      false
    ≡ some (record {
      path = codes "/queues?page=2&page_size=50&name=or&amp;er&use_regex=false";
      popup = none;
    })
unfolding page_path escape_html escape_html0 replace_char fmt_strip_tags strip_from tag_length
unescaped_query = refl

fmt_uri_with_credentials-redacted_example :
    fmt_uri_with_credentials (
      codes "amqp"
      ++ (codes "://" ++ (codes "guest" ++ b':' ∷ (codes "s@cret" ++ b'@' ∷ codes "host:5672"))))
    ≡ codes "amqp"
      ++ (codes "://" ++ (codes "guest" ++ (codes ":[redacted]@" ++ codes "host:5672")))
unfolding is_scheme_char is_line_end
fmt_uri_with_credentials-redacted_example =
    fmt_uri_with_credentials-redacted (codes "amqp") (codes "guest") (codes "s@cret")
      (codes "host:5672") (ground arith) (ground arith) (ground arith) (ground arith) (ground arith)
      (ground arith)

-- A password with a colon is shown up to its last colon.
colon_run :
    fmt_uri_with_credentials (codes "amqp://guest:top:secret@host")
    ≡ codes "amqp://guest:top:[redacted]@host"
unfolding fmt_uri_with_credentials scheme_of is_scheme_char user_of after_at masked is_line_end
    text_eq starts_with
colon_run = refl
