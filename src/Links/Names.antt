-- ===== src/Links/Names.antt =====
-- formatters.js: the names of connections, channels and exchanges, and their white space.
use mathlib.Core.Option
use rocketmq.Shared.{
  ℕ, zero, suc, Bool, ◌||◌, Option, none, some, List, [], ◌∷◌, ◌++◌, ◌==◌, length, drop, Text,
  codes, text_eq, starts_with, is_space, skip_spaces, replace_char, if◌then◌else◌,
}
use rocketmq.Markup.{escape_html}

-- A character at which `.` of a pattern stops.
unfoldable pub is_line_end : ℕ → Bool
is_line_end c = c == 10 || (c == 13 || (c == 0x2028 || c == 0x2029))

-- `^(.*)->`: the longest text before an arrow in the first line
unfoldable pub before_arrow : Text → Option Text
unfolding is_line_end
before_arrow [] = none
before_arrow (c ∷ s) =
    let later = before_arrow s in
    if is_line_end c then none else elim later [
      | some p ↦ some (c ∷ p)
      | none ↦ if starts_with (codes "->") (c ∷ s) then some [] else none
    ]

-- `short_conn(name)`
unfoldable pub short_conn : Text → Text
unfolding before_arrow
short_conn name = elim (before_arrow name) [ none ↦ name | some p ↦ p ]

-- `.*\)`: the longest text up to a parenthesis that closes
unfoldable pub up_to_close : Text → Option Text
unfolding is_line_end
up_to_close [] = none
up_to_close (c ∷ s) =
    let later = up_to_close s in
    if is_line_end c
    then none
    else elim later [ some p ↦ some (c ∷ p) | none ↦ if c == b')' then some (c ∷ []) else none ]

-- `( \(.*\))` at the start of a text
unfoldable pub parenthesis : Text → Option Text
unfolding up_to_close
parenthesis s =
    if starts_with (codes " (") s
    then Option.map (λ p. codes " (" ++ p) (up_to_close (drop 2 s))
    else none

-- `.*( \(.*\))`: the last one that the first line has
unfoldable pub last_parenthesis : Text → Option Text
unfolding parenthesis
last_parenthesis [] = none
last_parenthesis (c ∷ s) =
    let later = last_parenthesis s in
    if is_line_end c then none else elim later [ some p ↦ some p | none ↦ parenthesis (c ∷ s) ]

-- `^(.*)->.*( \(.*\))`, with its two groups
unfoldable pub channel_groups : Text → Option (Text × Text)
unfolding last_parenthesis
channel_groups [] = none
channel_groups (c ∷ s) =
    let later = channel_groups s in
    if is_line_end c then none else elim later [
      | some (p, q) ↦ some (c ∷ p, q)
      | none ↦
          if starts_with (codes "->") (c ∷ s)
          then Option.map (λ q. ([], q)) (last_parenthesis (drop 2 (c ∷ s)))
          else none
    ]

-- `short_chan(name)`
unfoldable pub short_chan : Text → Text
unfolding channel_groups
short_chan name = elim (channel_groups name) [ none ↦ name | some (p, q) ↦ p ++ q ]

-- `fmt_exchange0(name)`, `fmt_exchange(name)` and `fmt_exchange_url(name)`
unfoldable pub fmt_exchange0 : Text → Text
fmt_exchange0 [] = codes "(AMQP default)"
fmt_exchange0 (c ∷ s) = c ∷ s

unfoldable pub fmt_exchange : Text → Text
unfolding fmt_exchange0
fmt_exchange name = escape_html (fmt_exchange0 name)

unfoldable pub fmt_exchange_url : Text → Text
fmt_exchange_url [] = codes "amq.default"
fmt_exchange_url (c ∷ s) = escape_html (c ∷ s)

-- `fmt_exchange_type(type)`, with the names of `exchange_types`
unfoldable pub fmt_exchange_type : List Text → Text → Text
fmt_exchange_type [] type_name =
    codes
      "<div class=\"status-red\"><abbr title=\"Exchange type not found. Publishing to this exchange will fail.\">"
    ++ (escape_html type_name ++ codes "</abbr></div>")
fmt_exchange_type (t ∷ types) type_name =
    let later = fmt_exchange_type types type_name in
    if text_eq t type_name then escape_html type_name else later

-- `fmt_maybe_vhost(name)`, with `vhosts_interesting`
unfoldable pub fmt_maybe_vhost : Bool → Text → Text
fmt_maybe_vhost vhosts_interesting name =
    if vhosts_interesting
    then codes " in virtual host <b>" ++ (escape_html name ++ codes "</b>")
    else []

-- `replacement.repeat(n)`
unfoldable pub repeat : ℕ → Text → Text
repeat zero t = []
repeat (suc n) t = t ++ repeat n t

-- The first match of a pattern, and the text without it.
unfoldable pub trailing_spaces : Text → Option (Text × Text)
trailing_spaces [] = none
trailing_spaces (c ∷ s) =
    let later = trailing_spaces s in
    if is_space c
    then (if text_eq (skip_spaces s) []
        then some (c ∷ s, [])
        else Option.map (λ m. (m.0, c ∷ m.1)) later)
    else Option.map (λ m. (m.0, c ∷ m.1)) later

unfoldable pub leading_spaces : Text → Text × Text
leading_spaces [] = ([], [])
leading_spaces (c ∷ s) =
    let (m, rest) = leading_spaces s in if is_space c then (c ∷ m, rest) else ([], c ∷ s)

abbrev some_spaces : Text × Text → Option (Text × Text)
some_spaces ([], s) = none
some_spaces (c ∷ m, s) = some (c ∷ m, s)

-- `replace_char_sequence_individually(input, regex, replacement, combine)`, with what the pattern matches
unfoldable pub replace_char_sequence_individually :
    Text → Option (Text × Text) → Text → (Text → Text → Text) → Text
unfolding repeat
replace_char_sequence_individually input none replacement combine = input
replace_char_sequence_individually input (some (m, stripped)) replacement combine =
    combine (repeat (length m) replacement) stripped

unfoldable pub replace_leading_chars : Text → Text → Text
unfolding replace_char_sequence_individually leading_spaces
replace_leading_chars input replacement =
    replace_char_sequence_individually input (some_spaces (leading_spaces input)) replacement
      (λ patch stripped. patch ++ stripped)

unfoldable pub replace_trailing_chars : Text → Text → Text
unfolding replace_char_sequence_individually trailing_spaces
replace_trailing_chars input replacement =
    replace_char_sequence_individually input (trailing_spaces input) replacement
      (λ patch stripped. stripped ++ patch)

-- `TAB_HIGHLIGHTER` and `WHITESPACE_HIGHLIGHTER`
abbrev tab_highlighter : Text
tab_highlighter = 0x2192 ∷ []

abbrev whitespace_highlighter : Text
whitespace_highlighter = 0x23b5 ∷ []

-- `highlight_extra_whitespace(str)`
unfoldable pub highlight_extra_whitespace : Text → Text
unfolding replace_leading_chars replace_trailing_chars
highlight_extra_whitespace str =
    replace_leading_chars
      (replace_trailing_chars (replace_char 9 tab_highlighter str) whitespace_highlighter)
      whitespace_highlighter
