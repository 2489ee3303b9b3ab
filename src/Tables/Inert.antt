-- ===== src/Tables/Inert.antt =====
-- formatters.js: a table in the title of an element does not end the title.
use rocketmq.Shared.{
  suc, arith, Bool, true, false, List, [], ◌∷◌, ◌++◌, ℤ, pos, negsuc, int_text, to_text,
  to_text-IsDigit, Text, codes, join, Lacks, All, All-weaken, if◌then◌else◌,
}
use rocketmq.Markup.{escape_html}
use rocketmq.Markup.Quoted.{IsQuoted, append-IsQuoted, escape_html-IsQuoted}
use rocketmq.Tables.{
  Value, text, number, boolean, null, array, object, Values, no_values, value, Table, no_rows, row,
  is_null, bool_text, fmt_amqp_value_flat, flat_values, flat_rows, fmt_table_flat,
}

int_text-IsQuoted : (n : ℤ) → IsQuoted (int_text n)
unfolding int_text
int_text-IsQuoted (pos n) = All-weaken (λ c d. ground arith) (to_text n) (to_text-IsDigit n)
int_text-IsQuoted (negsuc n) =
    (ground arith, All-weaken (λ c d. ground arith) (to_text (suc n)) (to_text-IsDigit (suc n)))

bool_text-IsQuoted : (b : Bool) → IsQuoted (bool_text b)
bool_text-IsQuoted true = ground arith
bool_text-IsQuoted false = ground arith

join-IsQuoted :
    (sep : Text) (list : List Text) → IsQuoted sep → All IsQuoted list → IsQuoted (join sep list)
unfolding join
join-IsQuoted sep [] p h = tt
join-IsQuoted sep (s ∷ []) p (q, h) = q
join-IsQuoted sep (s ∷ t ∷ list) p (q, h) =
    append-IsQuoted s (sep ++ join sep (t ∷ list)) q
      (append-IsQuoted sep (join sep (t ∷ list)) p (join-IsQuoted sep (t ∷ list) p h))

-- A text between two others.
between-IsQuoted : (a s b : Text) → IsQuoted a → IsQuoted s → IsQuoted b → IsQuoted (a ++ (s ++ b))
between-IsQuoted a s b p q r = append-IsQuoted a (s ++ b) p (append-IsQuoted s b q r)

joined-IsQuoted : (b : Bool) (s : Text) → IsQuoted s → IsQuoted (if b then [] else s)
joined-IsQuoted true s h = tt
joined-IsQuoted false s h = h

mutual
  unfolding fmt_amqp_value_flat flat_values flat_rows

  pub fmt_amqp_value_flat-IsQuoted : (v : Value) → IsQuoted (fmt_amqp_value_flat v)
  fmt_amqp_value_flat-IsQuoted (text s) = escape_html-IsQuoted s
  fmt_amqp_value_flat-IsQuoted (number n) = int_text-IsQuoted n
  fmt_amqp_value_flat-IsQuoted (boolean b) = bool_text-IsQuoted b
  fmt_amqp_value_flat-IsQuoted null = ground arith
  fmt_amqp_value_flat-IsQuoted (array values) =
      between-IsQuoted (codes "[") (join (codes ",") (flat_values values)) (codes "]")
        (ground arith)
        (join-IsQuoted (codes ",") (flat_values values) (ground arith)
          (flat_values-IsQuoted values))
        (ground arith)
  fmt_amqp_value_flat-IsQuoted (object table) =
      between-IsQuoted (codes "(") (join (codes ", ") (flat_rows table)) (codes ")") (ground arith)
        (join-IsQuoted (codes ", ") (flat_rows table) (ground arith) (flat_rows-IsQuoted table))
        (ground arith)

  flat_values-IsQuoted : (values : Values) → All IsQuoted (flat_values values)
  flat_values-IsQuoted no_values = tt
  flat_values-IsQuoted (value v values) = (
    joined-IsQuoted (is_null v) (fmt_amqp_value_flat v) (fmt_amqp_value_flat-IsQuoted v),
    flat_values-IsQuoted values,
  )

  flat_rows-IsQuoted : (table : Table) → All IsQuoted (flat_rows table)
  flat_rows-IsQuoted no_rows = tt
  flat_rows-IsQuoted (row k v table) = (
    between-IsQuoted (escape_html k) (codes ": ") (fmt_amqp_value_flat v) (escape_html-IsQuoted k)
        (ground arith) (fmt_amqp_value_flat-IsQuoted v),
    flat_rows-IsQuoted table,
  )

-- The text that `fmt_table_flat` puts into the title of an element, whatever the keys and values of the
-- table are, has no quotation mark, which would end the title.
pub fmt_table_flat-Lacks : (table : Table) → Lacks b'"' (fmt_table_flat table)
unfolding fmt_table_flat
fmt_table_flat-Lacks table =
    join-IsQuoted (codes ", ") (flat_rows table) (ground arith) (flat_rows-IsQuoted table)
