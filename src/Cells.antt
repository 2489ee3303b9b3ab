-- ===== src/Cells.antt =====
-- formatters.js: cells, headings and inputs of the tables of objects.
use rocketmq.Requests.Query.{◌>>=◌}
use rocketmq.Shared.{
  ℕ, ◌+◌, ◌%◌, ◌≡◌, refl, arith, Bool, true, false, not, ◌&&◌, ◌||◌, Bool-cases, inl, inr, Option,
  none, some, List, [], ◌∷◌, ◌++◌, ◌==◌, ltb, length, take, length-take, map, filter, includes,
  join, is_some, to_text, Text, codes, text_eq, Dict, lookup, if◌then◌else◌,
}
use rocketmq.Markup.{escape_html}
use rocketmq.Links.Anchors.{Filter, link_policy}
use rocketmq.Prefs.Store.{Browser, show_column}
use rocketmq.States.{fmt_trunc}

-- `UNKNOWN_REPR`
abbrev pub unknown_repr : Text
unknown_repr = codes "<span class=\"unknown\">?</span>"

abbrev or_unknown : Option Text → Text
or_unknown none = unknown_repr
or_unknown (some unknown) = unknown

-- `fmt_string(str, unknown)` and `fmt_boolean(b, unknown)`
unfoldable pub fmt_string : Option Text → Option Text → Text
fmt_string none unknown = or_unknown unknown
fmt_string (some str) unknown = escape_html str

unfoldable pub fmt_boolean : Option Bool → Option Text → Text
fmt_boolean none unknown = or_unknown unknown
fmt_boolean (some true) unknown = codes "&#9679;"
fmt_boolean (some false) unknown = codes "&#9675;"

-- `obj.replace('_', ' ')`, which replaces the first one
unfoldable pub replace_first : Text → Text
replace_first [] = []
replace_first (c ∷ s) = let rest = replace_first s in if c == b'_' then b' ' ∷ s else c ∷ rest

-- `fmt_activity_status(obj, unknown)`
unfoldable pub fmt_activity_status : Option Text → Option Text → Text
unfolding replace_first
fmt_activity_status none unknown = or_unknown unknown
fmt_activity_status (some status) unknown = replace_first status

abbrev policy_abbr : Text → Text → Text → Text
policy_abbr label policy shown =
    codes "<abbr class=\"policy\" title=\""
    ++ (label ++ (escape_html policy ++ (codes "\">" ++ (shown ++ codes "</abbr> "))))

-- `fmt_policy_short(obj)`, with the virtual host and the policy of the object
unfoldable pub fmt_policy_short : Filter → Text → Option Text → Option Text
fmt_policy_short f vhost none = some []
fmt_policy_short f vhost (some []) = some []
fmt_policy_short f vhost (some (c ∷ s)) =
    link_policy f vhost (c ∷ s) >>= λ link. some (policy_abbr (codes "Policy: ") (c ∷ s) link)

-- `fmt_op_policy_short(obj)`
unfoldable pub fmt_op_policy_short : Option Text → Text
fmt_op_policy_short none = []
fmt_op_policy_short (some []) = []
fmt_op_policy_short (some (c ∷ s)) =
    policy_abbr (codes "Operator policy: ") (c ∷ s) (escape_html (c ∷ s))

-- `fmt_channel_mode(ch)`, with `transactional` and `confirm`
unfoldable pub fmt_channel_mode : Bool → Bool → Text
fmt_channel_mode transactional confirm =
    if transactional
    then codes "<abbr title=\"Transactional\">T</abbr>"
    else if confirm
    then codes "<abbr title=\"Confirm\">C</abbr>"
    else []

-- An application of a node.
pub record Application : Type 0 where
  pub name : Text
  pub version : Text

-- `get_plugins_list(node)`, with the applications and the plugins that are enabled
unfoldable pub get_plugins_list : List Application → List Text → List Application
get_plugins_list applications enabled_plugins =
    filter (λ a. includes a.name enabled_plugins) applications

-- `fmt_plugins_small(node)`, where the applications may be missing
unfoldable pub fmt_plugins_small : Option (List Application) → List Text → Text
unfolding get_plugins_list
fmt_plugins_small none enabled_plugins = []
fmt_plugins_small (some applications) enabled_plugins =
    let plugins = map (λ a. a.name) (get_plugins_list applications enabled_plugins) in
    codes "<abbr title=\"Enabled plugins: "
    ++ (join (codes ", ") plugins ++ (codes "\">" ++ (to_text (length plugins) ++ codes "</abbr>")))

-- `fmt_rabbit_version(applications)`
unfoldable pub fmt_rabbit_version : List Application → Text
fmt_rabbit_version [] = codes "unknown"
fmt_rabbit_version (a ∷ applications) =
    let later = fmt_rabbit_version applications in
    if text_eq a.name (codes "rabbit") then a.version else later

-- `alt_rows(i, args)`
unfoldable pub alt_rows : ℕ → Option (Dict Text) → Text
alt_rows i args =
    let alternative = if i % 2 == 0 then codes "alt1" else codes "alt2" in
    let internal : Bool = elim args [
      | none ↦ false
      | some a ↦ is_some (lookup (codes "x-internal-purpose") a)
    ] in
    codes " class=\""
    ++ (alternative ++ ((if internal then codes " internal-purpose" else []) ++ codes "\""))

-- `fmt_sort(display, sort)`, with `current_sort` and `current_sort_reverse`
unfoldable pub fmt_sort : Option Text → Bool → Text → Text → Text
fmt_sort current_sort current_sort_reverse display sort =
    let is_current : Bool = elim current_sort [ none ↦ false | some s ↦ text_eq s sort ] in
    let prefix : Text =
      if is_current
      then codes "<span class=\"arrow\">"
        ++ ((if current_sort_reverse then codes "&#9661; " else codes "&#9651; ")
            ++ codes "</span>")
      else [] in
    codes "<a class=\"sort\" sort=\""
    ++ (sort ++ (codes "\">" ++ (prefix ++ (display ++ codes "</a>"))))

abbrev count_true : List Bool → ℕ
count_true [] = 0
count_true (b ∷ bools) = if b then count_true bools + 1 else count_true bools

-- The columns of a group that are shown.
unfoldable pub count_columns : Bool → Text → List Text → Browser → Option ℕ
count_columns disable_stats mode [] b = some 0
count_columns disable_stats mode (column ∷ options) b =
    let rest = count_columns disable_stats mode options b in
    if text_eq mode (codes "connections")
      && (disable_stats
          && (text_eq column (codes "from_client") || text_eq column (codes "to_client")))
    then rest
    else (show_column mode column b >>= λ shown. rest >>= λ n. some (if shown then n + 1 else n))

-- `group_count(mode, group, bools)`, with the columns `COLUMNS[mode][group]`
unfoldable pub group_count : Bool → Text → List Text → List Bool → Browser → Option ℕ
unfolding count_columns
group_count disable_stats mode options bools b =
    count_columns disable_stats mode options b >>= λ n. some (count_true bools + n)

-- `group_heading(mode, group, bools)`
unfoldable pub group_heading : Bool → Text → Text → List Text → List Bool → Browser → Option Text
unfolding group_count
group_heading disable_stats mode group options bools b =
    group_count disable_stats mode options bools b >>= λ count. some (
      if count == 0
      then []
      else codes "<th colspan=\"" ++ (to_text count ++ (codes "\">" ++ (group ++ codes "</th>"))))

-- `fmt_permissions(obj, permissions, lookup, show, warning)`, with the two entries of each permission
unfoldable pub fmt_permissions : Text → List (Text × Text) → Text → Text
fmt_permissions name permissions warning =
    let res = map (λ p. escape_html p.1) (filter (λ p. text_eq p.0 name) permissions) in
    if length res == 0 then warning else join (codes ", ") res

-- `fmt_checkbox(name, text, current)`
unfoldable pub fmt_checkbox : Text → Text → Bool → Text
fmt_checkbox name label current =
    codes "<label class=\"checkbox\" for=\"checkbox-"
    ++ (name
        ++ (codes "\"><input type=\"checkbox\" id=\"checkbox-"
            ++ (name
                ++ (codes "\" name=\""
                    ++ (name
                        ++ (codes "\""
                            ++ ((if current then codes " checked=\"checked\"" else [])
                                ++ (codes ">" ++ (label ++ codes "</label>")))))))))

-- `fmt_radio(name, text, value, current)`, which counts the buttons: its text and the new `radio_id`
unfoldable pub fmt_radio : Text → Text → Text → Text → ℕ → Text × ℕ
fmt_radio name label value current radio_id =
    let id = to_text (radio_id + 1) in
    (
      codes "<label class=\"radio\" for=\"radio-"
          ++ (id
              ++ (codes "\"><input type=\"radio\" id=\"radio-"
                  ++ (id
                      ++ (codes "\" name=\""
                          ++ (name
                              ++ (codes "\" value=\""
                                  ++ (value
                                      ++ (codes "\""
                                          ++ ((if text_eq value current
                                                then codes " checked=\"checked\""
                                                else [])
                                              ++ (codes ">"
                                                  ++ (label ++ codes "</label>"))))))))))),
      radio_id + 1,
    )

-- `isNumberKey(evt)`, with the code of the key
unfoldable pub is_number_key : ℕ → Bool
is_number_key char_code = not (ltb 31 char_code && (ltb char_code 48 || ltb 57 char_code))

-- `fmt_deprecation_phase(phase, deprecation_phases)`
unfoldable pub fmt_deprecation_phase : Text → List (Text × Text) → Option Text
fmt_deprecation_phase phase [] = none
fmt_deprecation_phase phase ((p, label) ∷ phases) =
    let later = fmt_deprecation_phase phase phases in if text_eq phase p then some label else later

-- `fmt_resource(res)`, with its kind, name and virtual host
unfoldable pub fmt_resource : Text → Text → Text → Text
fmt_resource kind name virtual_host =
    kind ++ (codes " '" ++ (name ++ (codes "' in vhost '" ++ (virtual_host ++ codes "'"))))

-- The properties of a client that `fmt_client_name` reads.
pub record Client : Type 0 where
  pub product : Option Text
  pub platform : Option Text
  pub version : Option Text
  pub client_id : Option Text

abbrev part_of : (Text → Text) → Option Text → List Text
part_of shown none = []
part_of shown (some s) = shown s ∷ []

-- `fmt_client_name(properties)`. The version is given no length, which truncates nothing.
unfoldable pub fmt_client_name : Client → Text
fmt_client_name c =
    let short : Text → Text = λ s. fmt_trunc s 120 in
    let sub : (Text → Text) → Option Text → Text =
      λ shown o. join [] (part_of (λ s. codes "<sub>" ++ (shown s ++ codes "</sub>")) o) in
    join (codes " / ") (part_of short c.product ++ part_of short c.platform)
    ++ (sub escape_html c.version ++ sub short c.client_id)

-- `maybe_truncate(items)`: the warning, and the items that are left
unfoldable pub maybe_truncate : {A : Type 0} → List A → Text × List A
maybe_truncate items =
    if ltb 500 (length items)
    then (
      codes "<p class=\"warning\">Only 500 of "
          ++ (to_text (length items) ++ codes " items are shown.</p>"),
      take 500 items,
    )
    else ([], items)

-- At most 500 items are left, and all of them where there are no more.
maybe_truncate-length :
    {A : Type 0} (items : List A)
    → length (maybe_truncate items).1 ≡ (if ltb 500 (length items) then 500 else length items)
unfolding maybe_truncate
maybe_truncate-length items = elim (Bool-cases (ltb 500 (length items))) [
  | inl long ↦ rw (long) (length-take 500 items (ground arith))
  | inr short ↦ rw (short) refl
]
