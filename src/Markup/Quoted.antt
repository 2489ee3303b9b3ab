-- ===== src/Markup/Quoted.antt =====
-- formatters.js: escaped text does not end an attribute between quotation marks.
use rocketmq.Shared.{
  ◌≢◌, arith, [], ◌∷◌, ◌++◌, ◌==◌, Text, codes, replace_char, Lacks, All, All-append, Bool-cases,
  inl, inr,
}
use rocketmq.Markup.{escape_html0, escape_html}
use rocketmq.Markup.Safety.{IsInert, escape_html0-IsInert}

-- A text that a quoted attribute can hold.
abbrev pub IsQuoted : Text → Type 0
IsQuoted = Lacks b'"'

pub append-IsQuoted : (s t : Text) → IsQuoted s → IsQuoted t → IsQuoted (s ++ t)
append-IsQuoted s t = All-append (λ x. x ≢ b'"') s t

break-IsQuoted : (s : Text) → All IsInert s → IsQuoted (replace_char 10 (codes "<br/>") s)
unfolding replace_char
break-IsQuoted [] h = tt
break-IsQuoted (c ∷ s) (p, h) = elim (Bool-cases (c == 10)) [
  | inl newline ↦
      rw (newline) (append-IsQuoted (codes "<br/>") _ (ground arith) (break-IsQuoted s h))
  | inr other ↦ rw (other) (p.1.1, break-IsQuoted s h)
]

pub escape_html-IsQuoted : (s : Text) → IsQuoted (escape_html s)
unfolding escape_html
escape_html-IsQuoted s = break-IsQuoted (escape_html0 s) (escape_html0-IsInert s)
