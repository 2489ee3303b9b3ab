-- ===== src/Requests/Query.antt =====
-- main.js: `apply_state`, which turns the requests of a page into paths, for the state of the page.
-- `none` is the exception of `encodeURIComponent`.
use rocketmq.Shared.{
  ℕ, ◌+◌, Bool, true, false, ◌||◌, Option, none, some, List, [], ◌∷◌, ◌++◌, Text, codes, take, drop,
  Dict, lookup, text_eq, starts_with, join, split, get_elem?, parse_int, int_text, is_some,
  if◌then◌else◌, ◌≡◌, refl,
}
use rocketmq.Uri.{esc}

-- The value of an option of a request.
pub data Setting : Type 0 where
  flag : Bool → Setting
  ranges : List Text → Setting

-- A request of `current_reqs`; one that is a string has no options.
pub record Req : Type 0 where
  pub path : Text
  pub options : Dict Setting

-- The part of the page's state that `apply_state` reads: `current_vhost`, `current_sort`,
-- `current_sort_reverse` and the preference `chart-range`.
pub record View : Type 0 where
  pub vhost : Text
  pub sort : Option Text
  pub sort_reverse : Bool
  pub chart_range : Text

infixl 5 ◌>>=◌
abbrev pub ◌>>=◌ {ℓ κ} : {A : Type ℓ} {B : Type κ} → Option A → (A → Option B) → Option B
none >>= f = none
some a >>= f = f a

-- A chain of two that gives a result has one in between.
pub some_of :
    {A B : Type 0} (o : Option A) (rest : A → Option B) {y : B}
    → (o >>= rest) ≡ some y
    → (x : A) × (o ≡ some x) × (rest x ≡ some y)
some_of none rest e = absurd cc
some_of (some x) rest e = (x, refl, e)

-- `s.indexOf(part)`
unfoldable pub index_of : Text → Text → Option ℕ
index_of part [] = if starts_with part [] then some 0 else none
index_of part (c ∷ s) =
    let later : Option ℕ = elim (index_of part s) [ none ↦ none | some i ↦ some (i + 1) ] in
    if starts_with part (c ∷ s) then some 0 else later

abbrev pub bool_text : Bool → Text
bool_text true = codes "true"
bool_text false = codes "false"

abbrev pub page_mark : Text
page_mark = codes "?page="

-- `req2`: the path with the virtual host before the query
unfoldable pub add_vhost : View → Req → Option Text
add_vhost view req =
    if is_some (lookup (codes "vhost") req.options)
    then (if text_eq view.vhost []
        then some req.path
        else (esc view.vhost >>= λ v. elim (index_of page_mark req.path) [
          | none ↦ some (req.path ++ (b'/' ∷ v))
          | some i ↦ some (take i req.path ++ ((b'/' ∷ v) ++ drop i req.path))
        ]))
    else some req.path

unfoldable pub sort_params : View → Req → List Text
sort_params view req = elim view.sort [
  | none ↦ []
  | some sort ↦
      if is_some (lookup (codes "sort") req.options)
      then (codes "sort=" ++ sort) ∷ (codes "sort_reverse=" ++ bool_text view.sort_reverse) ∷ []
      else []
]

-- The prefix of a range's parameters; an unknown range keeps the variable's last value.
unfoldable pub range_prefix : Text → Text → Text
range_prefix last type =
    if starts_with (codes "lengths-") type
    then codes "lengths"
    else if starts_with (codes "msg-rates-") type
    then codes "msg_rates"
    else if starts_with (codes "data-rates-") type
    then codes "data_rates"
    else if text_eq type (codes "node-stats")
    then codes "node_stats"
    else last

-- `"" + parseInt(range[i])`
unfoldable pub range_part : View → ℕ → Text
range_part view i = elim (get_elem? (split b'|' view.chart_range) i) [
  | none ↦ codes "NaN"
  | some s ↦ elim (parse_int s) [ none ↦ codes "NaN" | some z ↦ int_text z ]
]

unfoldable pub range_params : View → Text → List Text → Text × List Text
range_params view last [] = (last, [])
range_params view last (type ∷ types) =
    let prefix = range_prefix last type in
    let (end, params) = range_params view prefix types in
    (
      end,
      (prefix ++ (codes "_age=" ++ range_part view 0))
          ∷ (prefix ++ (codes "_incr=" ++ range_part view 1))
          ∷ params,
    )

unfoldable pub all_range_params : View → Text → Req → Text × List Text
all_range_params view last req = elim (lookup (codes "ranges") req.options) [
  | none ↦ (last, [])
  | some (flag b) ↦ (last, [])
  | some (ranges types) ↦ range_params view last types
]

-- `"" + options[key]`
abbrev setting_text : Setting → Text
setting_text (flag b) = bool_text b
setting_text (ranges types) = join (codes ",") types

abbrev is_known : Text → Bool
is_known key =
    text_eq key (codes "vhost") || (text_eq key (codes "sort") || text_eq key (codes "ranges"))

-- The options that the function does not know are parameters as they are.
unfoldable pub other_params : Dict Setting → Option (List Text)
other_params [] = some []
other_params ((key, value) ∷ options) =
    let param =
      (esc key >>= λ k. esc (setting_text value) >>= λ v.
      other_params options >>= λ ps. some ((k ++ (b'=' ∷ v)) ∷ ps)) in
    if is_known key || text_eq key [] then other_params options else param

-- `req2 + qs`
unfoldable pub add_query : Text → Text → Text
add_query req2 qs =
    if text_eq qs []
    then req2
    else if is_some (index_of page_mark req2)
    then req2 ++ (b'&' ∷ qs)
    else req2 ++ (b'?' ∷ qs)

-- One round of the loop: the path, and the variable `prefix` after it.
unfoldable pub apply_req : View → Text → Req → Option (Text × Text)
apply_req view last req = add_vhost view req >>= λ req2. other_params req.options >>= λ others.
    let (end, ranged) = all_range_params view last req in
    let qs = join (codes "&") (sort_params view req ++ (ranged ++ others)) in
    some (end, add_query req2 qs)

unfoldable pub apply_from : View → Text → Dict Req → Option (Dict Text)
apply_from view last [] = some []
apply_from view last ((k, req) ∷ reqs) =
    apply_req view last req >>= λ r. apply_from view r.0 reqs >>= λ rest. some ((k, r.1) ∷ rest)

-- `apply_state(reqs)`
unfoldable pub apply_state : View → Dict Req → Option (Dict Text)
apply_state view reqs = apply_from view (codes "undefined") reqs
