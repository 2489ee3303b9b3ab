-- ===== src/Forms/Magic.antt =====
-- main.js: the end of `collapse_multifields`, and `params_magic`.
use rocketmq.Shared.{
  Bool, true, false, not, none, some, List, [], ◌∷◌, Text, codes, text_eq, Dict, lookup, insert,
  remove, is_some, if◌then◌else◌,
}
use rocketmq.Requests.Template.{Attempt, made, threw, ◌>>=◌, type_error, check_password}
use rocketmq.Requests.Cast.{Value, shown_value}
use rocketmq.QueueTypes.{queue_types}
use rocketmq.Forms.Collapse.{text, Param, plain, flag, object, Collected, put_item, collect_fields}

-- `Object.assign(params, more)`
unfoldable pub assign_params : Dict Param → Dict Bool → Dict Param
assign_params params [] = params
assign_params params ((k, b) ∷ more) = assign_params (insert k (flag b) params) more

-- `params["arguments"]["x-queue-type"] = queue_type`
unfoldable pub put_queue_type : Text → Collected → Attempt Collected
unfolding put_item
put_queue_type queue_type c =
    if is_some (lookup (codes "arguments") c.params)
    then made (put_item (codes "arguments") (some (codes "x-queue-type")) (text queue_type) c)
    else threw type_error

-- The end of `collapse_multifields`, with the global `queue_type`.
unfoldable pub with_queue_type : Text → Collected → Attempt Collected
unfolding put_queue_type assign_params queue_types
with_queue_type queue_type c =
    if not (is_some (lookup (codes "queuetype") c.params))
    then made c
    else let d = record c { params = remove (codes "queuetype") c.params } in
      (if text_eq queue_type (codes "default") then made d else put_queue_type queue_type d)
      >>= λ e. elim (lookup queue_type queue_types) [
        | none ↦ threw type_error
        | some kind ↦ made (record e { params = assign_params e.params kind.params })
      ]

-- `collapse_multifields(params0)`
unfoldable pub collapse_multifields : Text → Dict Value → Attempt Collected
collapse_multifields queue_type form = collect_fields form >>= with_queue_type queue_type

-- A selection `.controls-appearance` of the page.
pub record Control : Type 0 where
  pub name : Text
  pub options : List Text
  pub selected : Text

unfoldable pub remove_options : Text → List Text → Dict Param → Dict Param
remove_options selected [] params = params
remove_options selected (o ∷ options) params =
    remove_options selected options (if text_eq o selected then params else remove o params)

-- `maybe_remove_fields(params)`
unfoldable pub maybe_remove_fields : List Control → Dict Param → Dict Param
unfolding remove_options
maybe_remove_fields [] params = params
maybe_remove_fields (c ∷ controls) params =
    maybe_remove_fields controls (remove c.name (remove_options c.selected c.options params))

unfoldable pub shown_param : Param → Text
unfolding shown_value
shown_param (plain v) = shown_value v
shown_param (flag true) = codes "true"
shown_param (flag false) = codes "false"
shown_param (object items) = codes "[object Object]"

-- `params_magic(params)`
unfoldable pub params_magic : Text → List Control → Dict Value → Attempt Collected
params_magic queue_type controls form = collapse_multifields queue_type form >>= λ c.
    check_password shown_param (maybe_remove_fields controls c.params) >>= λ params.
    made (record c { params = params })
