-- ===== src/Requests/Cast.antt =====
-- main.js: the parameters of a form before they are sent.
use rocketmq.Shared.{
  split, join, int_text, ◌+◌, ℤ, Bool, true, false, not, ◌&&◌, ◌||◌, Option, none, some, List, [],
  ◌∷◌, ◌++◌, ◌==◌, leb, Text, codes, Dict, text_eq, starts_with, length, drop, includes, insert,
  parse_int, if◌then◌else◌,
}

-- The value of a parameter: a string, a number with `none` for NaN, a boolean, an array of strings.
pub data Value : Type 0 where
  text : Text → Value
  number : Option ℤ → Value
  boolean : Bool → Value
  array : List Text → Value

-- One parameter in the loop of `put_cast_params`: `none` where it is deleted.
unfoldable pub cast_param : List Text → List Text → List Text → Text → Text → Option Value
cast_param mandatory_keys num_keys bool_keys key value =
    if text_eq value [] && not (includes key mandatory_keys)
    then none
    else if includes key num_keys
    then some (number (parse_int value))
    else if includes key bool_keys
    then some (boolean (text_eq value (codes "true")))
    else some (text value)

abbrev keep_param : Text → Option Value → Dict Value → Dict Value
keep_param key none params = params
keep_param key (some value) params = (key, value) ∷ params

-- The loops of `put_cast_params` and `put_parameter`. They leave a parameter named `length` as it is.
unfoldable pub cast_with : (Text → Text → Option Value) → Dict Text → Dict Value
cast_with cast [] = []
cast_with cast ((key, value) ∷ params) =
    keep_param key (if text_eq key (codes "length") then some (text value) else cast key value)
      (cast_with cast params)

unfoldable pub cast_params : List Text → List Text → List Text → Dict Text → Dict Value
unfolding cast_with cast_param
cast_params mandatory_keys num_keys bool_keys =
    cast_with (cast_param mandatory_keys num_keys bool_keys)

-- `value.split(" ")`, or its one part
unfoldable pub split_value : Text → Value
split_value value = elim (split b' ' value) [
  | [] ↦ array []
  | part ∷ parts ↦ if length parts == 0 then text part else array (part ∷ parts)
]

-- One parameter in the loop of `put_parameter`.
unfoldable pub cast_parameter :
    List Text → List Text → List Text → List Text → Text → Text → Option Value
unfolding split_value
cast_parameter mandatory_keys num_keys bool_keys arrayable_keys key value =
    if text_eq value [] && not (includes key mandatory_keys)
    then none
    else if includes key num_keys
    then some (number (parse_int value))
    else if includes key bool_keys
    then some (boolean (text_eq value (codes "true")))
    else if includes key arrayable_keys
    then some (split_value value)
    else some (text value)

-- The parameters that are strings.
unfoldable pub strings : Dict Value → Dict Text
strings [] = []
strings ((key, text value) ∷ params) = (key, value) ∷ strings params
strings ((key, number n) ∷ params) = strings params
strings ((key, boolean b) ∷ params) = strings params
strings ((key, array values) ∷ params) = strings params

-- The string that a value is converted to.
unfoldable pub shown_value : Value → Text
shown_value (text value) = value
shown_value (number none) = codes "NaN"
shown_value (number (some n)) = int_text n
shown_value (boolean true) = codes "true"
shown_value (boolean false) = codes "false"
shown_value (array values) = join (codes ",") values

-- Whether a key goes on, after the prefix, with digits and underscores and then the suffix; `under`
-- says whether the last character was an underscore.
unfoldable pub is_field : Text → Bool → Text → Bool
is_field suffix under [] = false
is_field suffix under (c ∷ s) =
    let rest = is_field suffix (c == b'_') s in
    if under && text_eq (c ∷ s) suffix
    then true
    else if (leb b'0' c && leb c b'9') || c == b'_'
    then rest
    else false

-- The three patterns of `rename_multifield`: prefix, underscore, digits and underscores, suffix.
unfoldable pub is_multifield : Text → Text → Bool
unfolding is_field
is_multifield from key =
    let after = drop (length from + 1) key in
    starts_with (from ++ codes "_") key
    && (is_field (codes "mftype") false after
        || (is_field (codes "mfkey") false after || is_field (codes "mfvalue") false after))

unfoldable pub rename_key : Text → Text → Text → Text
unfolding is_multifield
rename_key from to key = if is_multifield from key then to ++ drop (length from) key else key

-- `new_params[...] = params[...]`, from the first parameter on
unfoldable pub rename_from : Text → Text → Dict Text → Dict Text → Dict Text
unfolding rename_key
rename_from from to [] new_params = new_params
rename_from from to ((key, value) ∷ params) new_params =
    rename_from from to params (insert (rename_key from to key) value new_params)

unfoldable pub rename_multifield : Dict Text → Text → Text → Dict Text
unfolding rename_from
rename_multifield params from to = rename_from from to params []
