-- ===== src/Markup/Wrap.antt =====
-- formatters.js: `fmt_maybe_wrap`.
use mathlib.Core.Option
use rocketmq.Shared.{
  ℕ, zero, suc, ◌+◌, Option, none, some, [], ◌∷◌, ◌++◌, ◌==◌, ltb, length, take, drop, Text, codes,
  text_eq, if◌then◌else◌,
}
use rocketmq.Requests.Query.{◌>>=◌}
use rocketmq.Markup.{escape_html}

-- `WRAP`
abbrev pub wrap : ℕ
wrap = 120

-- `txt.indexOf('\n')`
unfoldable pub newline_at : Text → Option ℕ
newline_at [] = none
newline_at (c ∷ s) = if c == 10 then some 0 else Option.map suc (newline_at s)

-- What a round adds to the result, and what is left of the text: it cuts the text, or takes a line.
abbrev pub cut_at : ℕ → Text → Text × Text
cut_at i txt = (take i txt ++ 10 ∷ [], drop i txt)

abbrev pub smaller : ℕ → ℕ → ℕ
smaller m n = if ltb n m then n else m

unfoldable pub round : Option ℕ → Text → Text × Text
round none txt = cut_at (smaller wrap (length txt)) txt
round (some i) txt =
    if ltb wrap i
    then cut_at (smaller wrap (length txt)) txt
    else (take (i + 1) txt, drop (i + 1) txt)

-- The loop, on fuel.
unfoldable pub wrap_from : ℕ → Text → Option Text
unfolding round newline_at
wrap_from fuel [] = some []
wrap_from zero (c ∷ s) = none
wrap_from (suc fuel) (c ∷ s) =
    let (line, rest) = round (newline_at (c ∷ s)) (c ∷ s) in
    wrap_from fuel rest >>= λ t. some (line ++ t)

-- The loop takes at least one character in each round.
unfoldable pub wrap_text : Text → Option Text
unfolding wrap_from
wrap_text txt = wrap_from (length txt) txt

-- `fmt_maybe_wrap(txt, encoding)`
unfoldable pub fmt_maybe_wrap : Text → Text → Option Text
unfolding wrap_text
fmt_maybe_wrap txt encoding =
    if text_eq encoding (codes "string")
    then some (escape_html txt)
    else Option.map escape_html (wrap_text txt)
