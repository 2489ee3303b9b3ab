-- ===== src/Forms/Complaints.antt =====
-- main.js: what `collapse_multifields` can throw.
use rocketmq.Shared.{
  ◌≡◌, ◌⊎◌, refl, Bool, true, false, not, ◌||◌, Bool-cases, Option-cases, inl, inr, Option, none,
  some, List, [], ◌∷◌, is_some, Text, codes, Dict, lookup, if◌then◌else◌,
}
use rocketmq.Requests.Template.{Attempt, made, threw, Failure, not_boolean, not_number}
use rocketmq.Forms.Literal.{parse_float}
use rocketmq.Forms.Fields.{Field}
use rocketmq.Forms.Collapse.{
  Param, Item, typed_fields, is_top_level, prefix_of, key_of, value_of, type_of, is_type, is_used,
  number_item, scalar,
}
use rocketmq.Forms.Order.{In}

-- The list that a nested field belongs to.
abbrev pub parent : Field → Field
parent (name, id) = (name, prefix_of id)

-- Whether a value reads as a number.
abbrev pub is_number : Option Text → Bool
is_number none = false
is_number (some s) = is_some (parse_float s)

-- What is wrong with a field: it is filled in, and is no boolean or no number although it is to be one.
unfoldable pub complaint : Dict Text → Field → Option Failure
complaint form f =
    let v = value_of form f in
    if is_type (codes "list") (type_of form f) || not (is_used form f)
    then none
    else if is_type (codes "boolean") (type_of form f)
    then (if is_type (codes "true") v || is_type (codes "false") v
        then none
        else some (not_boolean (key_of form f) v))
    else if is_type (codes "number") (type_of form f)
    then (if is_number v then none else some (not_number (key_of form f) v))
    else none

pub complaint-list :
    (form : Dict Text) (f : Field)
    → is_type (codes "list") (type_of form f) ≡ true
    → complaint form f ≡ none
unfolding complaint
complaint-list form f is_list = rw (is_list) refl

-- The first complaint about a list of fields.
unfoldable pub first_complaint : Dict Text → List Field → Option Failure
first_complaint form [] = none
first_complaint form (f ∷ fields) =
    let later = first_complaint form fields in
    elim (complaint form f) [ none ↦ later | some why ↦ some why ]

-- What is thrown, if anything.
abbrev pub thrown : {A : Type 0} → Attempt A → Option Failure
thrown (made x) = none
thrown (threw why) = some why

-- What the form of a page sees to: no parameter is called like a group of fields, and a field that is not
-- at the top level belongs to a field of the form that is a list.
abbrev pub IsPlaced : Dict Param → Dict Text → Field → Type 0
IsPlaced params form f =
    (lookup f.0 params ≡ none)
    × ((is_top_level f.1 ≡ true)
        ⊎ (In (parent f) (typed_fields form)
            × (is_type (codes "list") (type_of form (parent f)) ≡ true)))

-- A value is made where there is no complaint, and a complaint is thrown.
abbrev pub Agrees : Attempt (Option Item) → Option Failure → Type 0
Agrees (made val) o = o ≡ none
Agrees (threw why) o = o ≡ some why

number_item-Agrees :
    (k v : Option Text)
    → Agrees (number_item k v) (if is_number v then none else some (not_number k v))
unfolding number_item
number_item-Agrees k none = refl
number_item-Agrees k (some s) = elim (Option-cases (parse_float s)) [
  | inl no_number ↦ rw (no_number, number_item) refl
  | inr (n, is_read) ↦ rw (is_read, number_item) refl
]

pub scalar-Agrees :
    (form : Dict Text) (f : Field)
    → is_type (codes "list") (type_of form f) ≡ false
    → Agrees (scalar form f) (complaint form f)
unfolding scalar complaint
scalar-Agrees form f no_list = elim (Bool-cases (is_used form f)) [
  | inr idle ↦ rw (no_list, idle) refl
  | inl used ↦ elim (Bool-cases (is_type (codes "boolean") (type_of form f))) [
    | inl boolean ↦
        elim (Bool-cases
          (is_type (codes "true") (value_of form f) || is_type (codes "false") (value_of form f))) [
            | inl either ↦ rw (no_list, used, boolean, either) refl
            | inr neither ↦ rw (no_list, used, boolean, neither) refl
          ]
    | inr other ↦ elim (Bool-cases (is_type (codes "number") (type_of form f))) [
      | inl number ↦
          rw (no_list, used, other, number) (number_item-Agrees (key_of form f) (value_of form f))
      | inr string ↦ rw (no_list, used, other, string) refl
    ]
  ]
]
