-- ===== src/Tables.antt =====
-- formatters.js: tables of AMQP values, shown as HTML.
use rocketmq.Shared.{
  Bool, true, false, List, [], ◌∷◌, ◌++◌, ℤ, int_text, Text, codes, join, if◌then◌else◌,
}
use rocketmq.Markup.{escape_html}
pub mod Inert
pub mod Html

-- An AMQP value as the API's JSON has it, with whole numbers: an object is a table.
mutual
  pub data Value : Type 0 where
    text : Text → Value
    number : ℤ → Value
    boolean : Bool → Value
    null : Value
    array : Values → Value
    object : Table → Value

  pub data Values : Type 0 where
    no_values : Values
    value : Value → Values → Values

  pub data Table : Type 0 where
    no_rows : Table
    row : Text → Value → Table → Table

abbrev pub is_null : Value → Bool
is_null null = true
is_null _ = false

abbrev pub bool_text : Bool → Text
bool_text true = codes "true"
bool_text false = codes "false"

-- `'<abbr class="type" title="' + t + '">' + val + '</abbr>'`
abbrev pub typed : Text → Text → Text
typed t shown =
    codes "<abbr class=\"type\" title=\"" ++ (t ++ (codes "\">" ++ (shown ++ codes "</abbr>")))

-- `fmt_amqp_value(val)`, `fmt_table_short(table)` and, with what follows a key, `fmt_table_body(table, x)`;
-- `show_values` is what the loop over an array puts between `<br/>`.
unfoldable mutual
  pub fmt_amqp_value : Value → Text
  fmt_amqp_value (text s) = typed (codes "string") (escape_html s)
  fmt_amqp_value (number n) = typed (codes "number") (int_text n)
  fmt_amqp_value (boolean b) = typed (codes "boolean") (bool_text b)
  fmt_amqp_value null = typed (codes "object") (codes "null")
  fmt_amqp_value (array values) = join (codes "<br/>") (show_values values)
  fmt_amqp_value (object table) =
      codes "<table class=\"mini\">" ++ (fmt_table_body (codes ":") table ++ codes "</table>")

  pub show_values : Values → List Text
  show_values no_values = []
  show_values (value v values) = fmt_amqp_value v ∷ show_values values

  pub fmt_table_body : Text → Table → Text
  fmt_table_body x no_rows = []
  fmt_table_body x (row k v table) =
      codes "<tr><th>"
      ++ (escape_html k
          ++ (x
              ++ (codes "</th><td>"
                  ++ (fmt_amqp_value v ++ (codes "</td>" ++ fmt_table_body x table)))))

-- `fmt_table_short(table)`
unfoldable pub fmt_table_short : Table → Text
fmt_table_short table =
    codes "<table class=\"mini\">" ++ (fmt_table_body (codes ":") table ++ codes "</table>")

-- `fmt_table_long(table)`
unfoldable pub fmt_table_long : Table → Text
fmt_table_long table =
    codes "<table class=\"facts\">" ++ (fmt_table_body [] table ++ codes "</table>")

-- `fmt_amqp_value_flat(val)` and the entries of `fmt_table_flat(table)`. `join` puts nothing for null.
unfoldable mutual
  pub fmt_amqp_value_flat : Value → Text
  fmt_amqp_value_flat (text s) = escape_html s
  fmt_amqp_value_flat (number n) = int_text n
  fmt_amqp_value_flat (boolean b) = bool_text b
  fmt_amqp_value_flat null = codes "null"
  fmt_amqp_value_flat (array values) =
      codes "[" ++ (join (codes ",") (flat_values values) ++ codes "]")
  fmt_amqp_value_flat (object table) =
      codes "(" ++ (join (codes ", ") (flat_rows table) ++ codes ")")

  pub flat_values : Values → List Text
  flat_values no_values = []
  flat_values (value v values) =
      let shown = fmt_amqp_value_flat v in (if is_null v then [] else shown) ∷ flat_values values

  pub flat_rows : Table → List Text
  flat_rows no_rows = []
  flat_rows (row k v table) =
      (escape_html k ++ (codes ": " ++ fmt_amqp_value_flat v)) ∷ flat_rows table

-- `fmt_table_flat(table)`
unfoldable pub fmt_table_flat : Table → Text
unfolding flat_rows
fmt_table_flat table = join (codes ", ") (flat_rows table)
