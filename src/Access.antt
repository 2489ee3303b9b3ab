-- ===== src/Access.antt =====
-- global.js: what a user may see: tags, AccessControl and DisplayControl.
use rocketmq.Shared.{
  ℕ, Bool, true, false, not, ◌&&◌, Option, none, some, List, [], ◌∷◌, ◌++◌, ltb, Text, codes,
  text_eq, includes, length, if◌then◌else◌, flat_map,
}
pub mod Tags

-- What the loop of `expand_user_tags` pushes for a tag: cases fall through to the next one.
unfoldable pub implied_tags : Text → List Text
implied_tags tag =
    if text_eq tag (codes "administrator")
    then codes "monitoring" ∷ codes "policymaker" ∷ codes "management" ∷ []
    else if text_eq tag (codes "monitoring")
    then codes "management" ∷ []
    else if text_eq tag (codes "policymaker")
    then codes "management" ∷ []
    else []

unfoldable pub expand_user_tags : List Text → List Text
expand_user_tags [] = []
expand_user_tags (tag ∷ tags) = tag ∷ implied_tags tag ++ expand_user_tags tags

-- `ui_data_model`: the names of the virtual hosts, and of each node the applications with their versions.
pub record Application : Type 0 where
  pub name : Text
  pub version : Text

pub record UiDataModel : Type 0 where
  pub vhosts : List Text
  pub nodes : List (List Application)

-- `AccessControl`, whose fields are missing before the first `update`.
pub record AccessControl : Type 0 where
  pub user_tags : Option (List Text)
  pub ui_data_model : Option UiDataModel

-- `this.update(user, ui_data_model)`, from the tags of the user
unfoldable pub update : List Text → UiDataModel → AccessControl → AccessControl
update tags model ac = record {
  user_tags = some (expand_user_tags tags);
  ui_data_model = some model;
}

abbrev has_tag : Option (List Text) → Text → Bool
has_tag none tag = false
has_tag (some tags) tag = includes tag tags

unfoldable pub is_monitoring_user : AccessControl → Bool
is_monitoring_user ac = has_tag ac.user_tags (codes "monitoring")

unfoldable pub is_administrator_user : AccessControl → Bool
is_administrator_user ac = has_tag ac.user_tags (codes "administrator")

unfoldable pub is_policy_maker_user : AccessControl → Bool
is_policy_maker_user ac = has_tag ac.user_tags (codes "policymaker")

unfoldable pub can_access_vhosts : AccessControl → Bool
can_access_vhosts ac = elim ac.ui_data_model [
  | none ↦ false
  | some model ↦ ltb 0 (length model.vhosts)
]

unfoldable pub can_list_nodes : AccessControl → Bool
unfolding is_monitoring_user
can_list_nodes ac = elim ac.ui_data_model [
  | none ↦ false
  | some model ↦ is_monitoring_user ac && ltb 1 (length model.nodes)
]

-- formatters.js, `fmt_rabbit_version`
unfoldable pub rabbit_version : List Application → Text
rabbit_version [] = codes "unknown"
rabbit_version (app ∷ apps) =
    if text_eq app.name (codes "rabbit") then app.version else rabbit_version apps

pub record DisplayControl : Type 0 where
  pub nodes : Bool
  pub vhosts : Bool
  pub rabbitmq_versions : Bool
  pub data_model : Option UiDataModel

-- The loop over the versions of the nodes: the last version read, and whether two of them differ.
unfoldable pub differing_versions : Text → Bool → List (List Application) → Bool
differing_versions v differ [] = differ
differing_versions v differ (apps ∷ nodes) =
    let v1 = rabbit_version apps in
    let skip = differing_versions v differ nodes in
    let read =
      differing_versions v1 (if not (text_eq v []) && not (text_eq v v1) then true else differ)
        nodes in
    if text_eq v1 (codes "unknown") then skip else read

-- `DisplayControl.update(overview, ui_data_model)`, which reads the global `ac`
unfoldable pub update_display : AccessControl → UiDataModel → DisplayControl → DisplayControl
unfolding can_list_nodes can_access_vhosts differing_versions
update_display ac model display = record {
  nodes = can_list_nodes ac && ltb 1 (length model.nodes);
  vhosts = can_access_vhosts ac;
  rabbitmq_versions = differing_versions [] false model.nodes;
  data_model = some model;
}
