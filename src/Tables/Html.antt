-- ===== src/Tables/Html.antt =====
-- formatters.js: the HTML of a table holds no tag that a value brought with it.
use rocketmq.Shared.{
  ℕ, suc, ◌≡◌, refl, sym, subst, arith, Bool, true, false, List, [], ◌∷◌, ◌++◌, ◌==◌, append_assoc,
  ℤ, pos, negsuc, int_text, to_text, to_text-IsDigit, Text, codes, text_eq, includes, join,
  replace_char, All, All-weaken, Bool-cases, inl, inr,
}
use rocketmq.Markup.{escape_html0, escape_html}
use rocketmq.Markup.Safety.{IsInert, escape_html0-IsInert}
use rocketmq.Tables.{
  Value, text, number, boolean, null, array, object, Values, no_values, value, Table, no_rows, row,
  bool_text, fmt_amqp_value, show_values, fmt_table_body, fmt_table_long,
}

-- The tags of tables.
unfoldable pub tags : List Text
tags =
    codes "<table class=\"mini\">"
    ∷ codes "<table class=\"facts\">"
    ∷ codes "</table>"
    ∷ codes "<tr>"
    ∷ codes "<th>"
    ∷ codes "</th>"
    ∷ codes "<td>"
    ∷ codes "</td>"
    ∷ codes "<br/>"
    ∷ codes "<abbr class=\"type\" title=\"string\">"
    ∷ codes "<abbr class=\"type\" title=\"number\">"
    ∷ codes "<abbr class=\"type\" title=\"boolean\">"
    ∷ codes "<abbr class=\"type\" title=\"object\">"
    ∷ codes "</abbr>"
    ∷ []

-- A text made of these tags and of characters that are neither angle brackets nor quotation marks.
pub data IsHtml : Text → Type 0 where
  done : IsHtml []
  char : {c : ℕ} {s : Text} → IsInert c → IsHtml s → IsHtml (c ∷ s)
  tag : (t : Text) {s : Text} → includes t tags ≡ true → IsHtml s → IsHtml (t ++ s)

append-IsHtml : {s t : Text} → IsHtml s → IsHtml t → IsHtml (s ++ t)
append-IsHtml done g = g
append-IsHtml (char p h) g = char p (append-IsHtml h g)
append-IsHtml {t = u} (tag t {s} p h) g =
    subst IsHtml (sym (append_assoc t s u)) (tag t p (append-IsHtml h g))

text-IsHtml : (s : Text) → All IsInert s → IsHtml s
text-IsHtml [] h = done
text-IsHtml (c ∷ s) (p, h) = char p (text-IsHtml s h)

-- A line break is put for a newline.
break-IsHtml : (s : Text) → All IsInert s → IsHtml (replace_char 10 (codes "<br/>") s)
unfolding replace_char includes text_eq tags
break-IsHtml [] h = done
break-IsHtml (c ∷ s) (p, h) = elim (Bool-cases (c == 10)) [
  | inl newline ↦ rw (newline) (tag (codes "<br/>") refl (break-IsHtml s h))
  | inr other ↦ rw (other) (char p (break-IsHtml s h))
]

escape_html-IsHtml : (s : Text) → IsHtml (escape_html s)
unfolding escape_html
escape_html-IsHtml s = break-IsHtml (escape_html0 s) (escape_html0-IsInert s)

int_text-IsInert : (n : ℤ) → All IsInert (int_text n)
unfolding int_text
int_text-IsInert (pos n) = All-weaken (λ c d. ground arith) (to_text n) (to_text-IsDigit n)
int_text-IsInert (negsuc n) =
    (ground arith, All-weaken (λ c d. ground arith) (to_text (suc n)) (to_text-IsDigit (suc n)))

bool_text-IsInert : (b : Bool) → All IsInert (bool_text b)
bool_text-IsInert true = ground arith
bool_text-IsInert false = ground arith

-- What is shown with a type.
typed-IsHtml :
    (t s : Text) → includes t tags ≡ true → IsHtml s → IsHtml (t ++ (s ++ codes "</abbr>"))
unfolding includes text_eq tags
typed-IsHtml t s p h = tag t p (append-IsHtml h (tag (codes "</abbr>") refl done))

mutual
  unfolding fmt_amqp_value show_values fmt_table_body includes text_eq tags join

  pub fmt_amqp_value-IsHtml : (v : Value) → IsHtml (fmt_amqp_value v)
  fmt_amqp_value-IsHtml (text s) =
      typed-IsHtml (codes "<abbr class=\"type\" title=\"string\">") (escape_html s) refl
        (escape_html-IsHtml s)
  fmt_amqp_value-IsHtml (number n) =
      typed-IsHtml (codes "<abbr class=\"type\" title=\"number\">") (int_text n) refl
        (text-IsHtml (int_text n) (int_text-IsInert n))
  fmt_amqp_value-IsHtml (boolean b) =
      typed-IsHtml (codes "<abbr class=\"type\" title=\"boolean\">") (bool_text b) refl
        (text-IsHtml (bool_text b) (bool_text-IsInert b))
  fmt_amqp_value-IsHtml null =
      typed-IsHtml (codes "<abbr class=\"type\" title=\"object\">") (codes "null") refl
        (text-IsHtml (codes "null") (ground arith))
  fmt_amqp_value-IsHtml (array values) = show_values-IsHtml values
  fmt_amqp_value-IsHtml (object table) = tag (codes "<table class=\"mini\">") refl (
      append-IsHtml (fmt_table_body-IsHtml (codes ":") table (ground arith))
        (tag (codes "</table>") refl done))

  show_values-IsHtml : (values : Values) → IsHtml (join (codes "<br/>") (show_values values))
  show_values-IsHtml no_values = done
  show_values-IsHtml (value v no_values) = fmt_amqp_value-IsHtml v
  show_values-IsHtml (value v (value w values)) =
      append-IsHtml (fmt_amqp_value-IsHtml v)
        (tag (codes "<br/>") refl (show_values-IsHtml (value w values)))

  fmt_table_body-IsHtml :
      (x : Text) (table : Table) → All IsInert x → IsHtml (fmt_table_body x table)
  fmt_table_body-IsHtml x no_rows h = done
  fmt_table_body-IsHtml x (row k v table) h = tag (codes "<tr>") refl (
      tag (codes "<th>") refl (
        append-IsHtml (escape_html-IsHtml k) (
          append-IsHtml (text-IsHtml x h) (
            tag (codes "</th>") refl (
              tag (codes "<td>") refl (
                append-IsHtml (fmt_amqp_value-IsHtml v)
                  (tag (codes "</td>") refl (fmt_table_body-IsHtml x table h))))))))

-- The HTML of a table, whatever its keys and values are, is made of the tags of tables and of characters
-- that are neither angle brackets nor quotation marks.
pub fmt_table_long-IsHtml : (table : Table) → IsHtml (fmt_table_long table)
unfolding fmt_table_long includes text_eq tags
fmt_table_long-IsHtml table =
    tag (codes "<table class=\"facts\">") refl
      (append-IsHtml (fmt_table_body-IsHtml [] table tt) (tag (codes "</table>") refl done))
