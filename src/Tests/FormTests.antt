-- ===== src/Tests/FormTests.antt =====
-- The collection of the fields of a form at concrete inputs.
use rocketmq.Shared.{
  map, flat_map, none, false, ◌≢◌, lookup, remove, some, [], ◌∷◌, ◌≡◌, refl, Text, codes, Dict,
  insert, text_eq, split, split_from, join, starts_with, includes, skip_spaces, is_space,
}
use rocketmq.Requests.Template.{made, not_boolean}
use rocketmq.Requests.Cast.{Value, strings, shown_value}
use rocketmq.Forms.Literal.{digits_of, exponent_digits, exponent, fraction, unsigned, parse_float}
use rocketmq.Forms.Fields.{
  letters, id_before, match_here, match_field, text_le, field_le, insert_field, sort_fields,
}
use rocketmq.Forms.Collapse.{
  text, number, list_at, plain, object, plain_params, typed_fields, is_set, but_last, is_top_level,
  prefix_of, key_of, value_of, type_of, is_used, number_item, scalar, opened, open_name, started,
  start_list, put_in, put_item, push_to, push_in, push_item, place, collect_field, collect_from,
  collect_fields,
}
use rocketmq.Forms.Complaints.{thrown}
use rocketmq.Response.{nothing, check_bad_response, is_good}
use rocketmq.Uri.{code_points, esc, esc_point, unreserved, percent}
use rocketmq.Requests.Template.{
  check_password, param_text, fill_name, fill_from, is_name_char, fill_path_template, confirmed,
  with_password,
}
use rocketmq.Forms.Collapse.{Collected}
use rocketmq.Forms.Magic.{
  shown_param, params_magic, collapse_multifields, with_queue_type, maybe_remove_fields,
}
use rocketmq.Requests.Sync.{Setting, Sent, sent, answer, prepare, send, sync_req}
use rocketmq.Requests.Passwords.{sync_req-IsChecked}

-- A form whose values are strings.
abbrev of_strings : Dict Text → Dict Value
of_strings = map (λ p. (p.0, Value.text p.1))

-- The form of a queue with an argument that is a list of a number and of a text, which follow it in no order.
abbrev queue_form : Dict Value
queue_form = of_strings (
    (codes "name", codes "orders")
    ∷ (codes "arguments_1_mfkey", codes "x-list")
    ∷ (codes "arguments_1_2_mfvalue", codes "eu")
    ∷ (codes "arguments_1_2_mftype", codes "string")
    ∷ (codes "arguments_1_1_mfvalue", codes "1.5e3x")
    ∷ (codes "arguments_1_1_mftype", codes "number")
    ∷ (codes "arguments_1_mftype", codes "list")
    ∷ [])

queue_form_collected :
    collect_fields queue_form
    ≡ made (record {
      params =
          (codes "name", plain (Value.text (codes "orders")))
          ∷ (codes "arguments", object ((codes "x-list", list_at (codes "1")) ∷ []))
          ∷ [];
      lists =
          (codes "arguments", (codes "1", number (codes "1.5e3") ∷ text (codes "eu") ∷ []) ∷ [])
          ∷ [];
    })
unfolding collect_fields strings collect_from collect_field sort_fields insert_field field_le
    text_le place push_item push_in push_to put_item put_in start_list started open_name opened
    scalar number_item is_used is_set type_of value_of key_of prefix_of is_top_level but_last
    typed_fields plain_params match_field match_here id_before letters parse_float unsigned fraction
    exponent exponent_digits digits_of split split_from join lookup insert text_eq starts_with
    includes skip_spaces is_space
queue_form_collected = refl

-- A boolean that is none is complained about.
refused_boolean :
    thrown (
      collect_fields (
        of_strings (
          (codes "arguments_1_mfkey", codes "x-flag")
          ∷ (codes "arguments_1_mfvalue", codes "yes")
          ∷ (codes "arguments_1_mftype", codes "boolean")
          ∷ [])))
    ≡ some (not_boolean (some (codes "x-flag")) (some (codes "yes")))
unfolding collect_fields strings collect_from collect_field sort_fields insert_field field_le
    text_le place push_item push_in push_to put_item put_in start_list started open_name opened
    scalar number_item is_used is_set type_of value_of key_of prefix_of is_top_level but_last
    typed_fields plain_params match_field match_here id_before letters parse_float unsigned fraction
    exponent exponent_digits digits_of split split_from join lookup insert text_eq starts_with
    includes skip_spaces is_space
refused_boolean = refl

-- A server that accepts every request, and the form of a user.
abbrev accepting : Setting
accepting = record {
  situation = record {
    connected = false;
    password_change = false;
    oauth_enabled = false;
    now = 0;
    last_page_error = none;
    template = codes "users";
  };
  authorization = codes "Basic Zzpn";
  queue_type = codes "default";
  controls = [];
  server = λ request. (record { status = 204; body = none; matched = none }, []);
}

abbrev user_form : Dict Value
user_form = of_strings (
    (codes "username", codes "g")
    ∷ (codes "password", codes "s")
    ∷ (codes "password_confirm", codes "s")
    ∷ [])

abbrev user_params : Collected
user_params = record {
  params =
      (codes "username", plain (Value.text (codes "g")))
      ∷ (codes "password", plain (Value.text (codes "s")))
      ∷ [];
  lists = [];
}

abbrev user_request : Sent
user_request = record {
  verb = codes "PUT";
  path = codes "api/users/g";
  headers =
      (codes "content-type", codes "application/json")
      ∷ (codes "authorization", codes "Basic Zzpn")
      ∷ [];
  body = some user_params;
}

user_sent :
    sync_req accepting (codes "PUT") user_form (codes "/users/:username") []
    ≡ sent user_request nothing
        (some (answer (record { status = 204; body = none; matched = none }) user_params []))
unfolding strings shown_param shown_value sync_req prepare send params_magic collapse_multifields
    with_queue_type maybe_remove_fields check_password with_password confirmed fill_path_template
    fill_from fill_name param_text is_name_char esc esc_point unreserved percent check_bad_response
    is_good code_points flat_map remove collect_fields collect_from collect_field sort_fields
    insert_field field_le text_le typed_fields plain_params match_field match_here id_before letters
    lookup insert text_eq starts_with
user_sent = refl

sync_req-IsChecked_example :
    (codes "s" ≢ []) × (lookup (codes "password_confirm") user_params.params ≡ none)
unfolding lookup text_eq shown_param
sync_req-IsChecked_example =
    sync_req-IsChecked accepting (codes "PUT") user_form (codes "/users/:username") [] user_request
      nothing (some (answer (record { status = 204; body = none; matched = none }) user_params []))
      user_params user_sent refl (plain (Value.text (codes "s"))) refl
