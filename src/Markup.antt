-- ===== src/Markup.antt =====
-- formatters.js: text shown as HTML.
use rocketmq.Shared.{[], ◌∷◌, Text, codes, replace_char}
pub mod Safety
pub mod Quoted
pub mod Wrap
pub mod Lines

-- `fmt_escape_html0` on a string
unfoldable pub escape_html0 : Text → Text
escape_html0 txt = replace_char b'"' (codes "&quot;") (
    replace_char b'>' (codes "&gt;")
      (replace_char b'<' (codes "&lt;") (replace_char b'&' (codes "&amp;") txt)))

-- `fmt_escape_html`
unfoldable pub escape_html : Text → Text
unfolding escape_html0
escape_html txt = replace_char 10 (codes "<br/>") (escape_html0 txt)

-- `fmt_escape_html_one_line`
unfoldable pub escape_html_one_line : Text → Text
unfolding escape_html0
escape_html_one_line txt = replace_char 10 [] (escape_html0 txt)
