-- ===== src/Forms/Collapse.antt =====
-- main.js: `collapse_multifields` and what follows it in `params_magic`.
use rocketmq.Shared.{
  Bool, true, false, not, ◌&&◌, ◌||◌, Option, none, some, List, [], ◌∷◌, ◌++◌, ◌==◌, length, Text,
  codes, text_eq, Dict, lookup, insert, split, join, is_some, if◌then◌else◌,
}
use rocketmq.Requests.Template.{Attempt, made, threw, ◌>>=◌, not_boolean, not_number, type_error}
use rocketmq.Requests.Cast.{Value, strings}
use rocketmq.Forms.Literal.{parse_float}
use rocketmq.Forms.Fields.{Field, match_field, sort_fields}

-- What a field holds: a string, a number as its literal, a boolean, or the list of an id.
pub data Item : Type 0 where
  text : Text → Item
  number : Text → Item
  boolean : Bool → Item
  list_at : Text → Item

-- A parameter: a value of the form, a boolean that is set, or the object of a multifield.
pub data Param : Type 0 where
  plain : Value → Param
  flag : Bool → Param
  object : Dict Item → Param

-- `params` and `id_map`. The lists are kept in `id_map` only, which an item names by the id.
pub record Collected : Type 0 where
  pub params : Dict Param
  pub lists : Dict (Dict (List Item))

-- The loop over the keys: the parameters that are no parts of fields, and the fields that have a type.
unfoldable pub plain_params : Dict Value → Dict Param
plain_params [] = []
plain_params ((key, value) ∷ params) =
    let rest = plain_params params in
    if is_some (match_field (codes "mftype") key)
      || (is_some (match_field (codes "mfkey") key) || is_some (match_field (codes "mfvalue") key))
    then rest
    else (key, plain value) ∷ rest

unfoldable pub typed_fields : Dict Text → List Field
typed_fields [] = []
typed_fields ((key, value) ∷ params) =
    let rest = typed_fields params in
    elim (match_field (codes "mftype") key) [ none ↦ rest | some f ↦ f ∷ rest ]

-- `set(x)`
unfoldable pub is_set : Option Text → Bool
is_set none = false
is_set (some []) = false
is_set (some (c ∷ s)) = true

abbrev pub first_of : List Text → Text
first_of [] = []
first_of (p ∷ parts) = p

-- `id_parts.slice(0, id_parts.length - 1)`
unfoldable pub but_last : List Text → List Text
but_last [] = []
but_last (p ∷ []) = []
but_last (p ∷ q ∷ parts) = p ∷ but_last (q ∷ parts)

unfoldable pub is_top_level : Text → Bool
is_top_level id = length (split b'_' id) == 1

unfoldable pub prefix_of : Text → Text
unfolding but_last
prefix_of id = join (codes "_") (but_last (split b'_' id))

-- The parts of a field in the form: its key, which it shares with all fields of the first part of the
-- id, its value and its type.
unfoldable pub key_of : Dict Text → Field → Option Text
key_of form (name, id) =
    lookup (name ++ (codes "_" ++ (first_of (split b'_' id) ++ codes "_mfkey"))) form

unfoldable pub value_of : Dict Text → Field → Option Text
value_of form (name, id) = lookup (name ++ (codes "_" ++ (id ++ codes "_mfvalue"))) form

unfoldable pub type_of : Dict Text → Field → Option Text
type_of form (name, id) = lookup (name ++ (codes "_" ++ (id ++ codes "_mftype"))) form

abbrev pub is_type : Text → Option Text → Bool
is_type t none = false
is_type t (some actual) = text_eq actual t

-- Whether a value, or the key of a top-level field, is filled in.
unfoldable pub is_used : Dict Text → Field → Bool
unfolding is_set
is_used form f = (is_set (key_of form f) && is_top_level f.1) || is_set (value_of form f)

-- `parseFloat(v)`, and the value of a field without a type of its own
unfoldable pub number_item : Option Text → Option Text → Attempt (Option Item)
number_item k none = threw (not_number k none)
number_item k (some s) = elim (parse_float s) [
  | none ↦ threw (not_number k (some s))
  | some n ↦ made (some (number n))
]

abbrev pub text_item : Option Text → Option Item
text_item none = none
text_item (some s) = some (text s)

-- `val` of a field that is no list, where it is not null or undefined
unfoldable pub scalar : Dict Text → Field → Attempt (Option Item)
unfolding number_item
scalar form f =
    let k = key_of form f in
    let v = value_of form f in
    if not (is_used form f)
    then made none
    else if is_type (codes "boolean") (type_of form f)
    then if is_type (codes "true") v || is_type (codes "false") v
      then made (some (boolean (is_type (codes "true") v)))
      else threw (not_boolean k v)
    else if is_type (codes "number") (type_of form f)
    then number_item k v
    else made (text_item v)

-- The object of a field's name is there, and its lists.
unfoldable pub opened : Text → Option Param → Collected → Collected
opened name none c = record {
  params = insert name (object []) c.params;
  lists = insert name [] c.lists;
}
opened name (some p) c = c

unfoldable pub open_name : Text → Collected → Collected
unfolding opened
open_name name c = opened name (lookup name c.params) c

-- `id_map[name][id] = []`
unfoldable pub started : Field → Option (Dict (List Item)) → Collected → Attempt Collected
started f none c = threw type_error
started (name, id) (some lists) c =
    made (record c { lists = insert name (insert id [] lists) c.lists })

unfoldable pub start_list : Field → Collected → Attempt Collected
unfolding started
start_list f c = started f (lookup f.0 c.lists) c

-- `params[name][k] = val`, which does nothing on a string
unfoldable pub put_in : Text → Text → Item → Option Param → Collected → Collected
put_in name key item (some (object items)) c = record c {
  params = insert name (object (insert key item items)) c.params;
}
put_in name key item (some (plain v)) c = c
put_in name key item (some (flag b)) c = c
put_in name key item none c = c

abbrev pub shown_key : Option Text → Text
shown_key none = codes "undefined"
shown_key (some k) = k

unfoldable pub put_item : Text → Option Text → Item → Collected → Collected
unfolding put_in
put_item name k item c = put_in name (shown_key k) item (lookup name c.params) c

-- `id_map[name][prefix].push(val)`
unfoldable pub push_to :
    Text → Text → Item → Dict (List Item) → Option (List Item) → Collected → Attempt Collected
push_to name prefix item lists none c = threw type_error
push_to name prefix item lists (some items) c =
    made (record c { lists = insert name (insert prefix (items ++ item ∷ []) lists) c.lists })

unfoldable pub push_in :
    Text → Text → Item → Option (Dict (List Item)) → Collected → Attempt Collected
unfolding push_to
push_in name prefix item none c = threw type_error
push_in name prefix item (some lists) c = push_to name prefix item lists (lookup prefix lists) c

unfoldable pub push_item : Text → Text → Item → Collected → Attempt Collected
unfolding push_in
push_item name prefix item c = push_in name prefix item (lookup name c.lists) c

-- Where a value goes.
unfoldable pub place : Dict Text → Field → Option Item → Collected → Attempt Collected
unfolding put_item push_item
place form f none c = made c
place form f (some item) c =
    if is_top_level f.1
    then made (put_item f.0 (key_of form f) item c)
    else push_item f.0 (prefix_of f.1) item c

-- One round of the loop over the sorted fields.
unfoldable pub collect_field : Dict Text → Field → Collected → Attempt Collected
collect_field form f c =
    if is_type (codes "list") (type_of form f)
    then (start_list f (open_name f.0 c) >>= λ d. place form f (some (list_at f.1)) d)
    else (scalar form f >>= λ val. place form f val (open_name f.0 c))

unfoldable pub collect_from : Dict Text → List Field → Collected → Attempt Collected
collect_from form [] c = made c
collect_from form (f ∷ fields) c = collect_field form f c >>= λ d. collect_from form fields d

-- `collapse_multifields(params0)`, but for the type of a queue at its end. The parts of fields are strings.
unfoldable pub collect_fields : Dict Value → Attempt Collected
collect_fields params0 =
    collect_from (strings params0) (sort_fields (typed_fields (strings params0)))
      (record { params = plain_params params0; lists = [] })
