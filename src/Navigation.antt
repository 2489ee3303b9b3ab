-- ===== src/Navigation.antt =====
-- global.js and main.js: the tabs of the console and the menu at its side.
use rocketmq.Shared.{
  ℕ, ◌+◌, Bool, true, false, not, ◌&&◌, ◌||◌, Option, none, some, List, [], ◌∷◌, ◌++◌, leb, Text,
  codes, text_eq, includes, is_space, map, take, if◌then◌else◌,
}
pub mod Visible

-- A value of `NAVIGATION`: a page `[url, tag]` or a menu `[children, tag]`, with its third element.
mutual
  pub data Entry : Type 0 where
    page : Text → Text → Option Bool → Entry
    menu : Children → Text → Option Bool → Entry

  pub data Children : Type 0 where
    end : Children
    item : Text → Entry → Children → Children

-- `pair[1]` and `pair[2]`
abbrev pub tag_of : Entry → Text
tag_of (page url tag third) = tag
tag_of (menu children tag third) = tag

abbrev pub third_of : Entry → Option Bool
third_of (page url tag third) = third
third_of (menu children tag third) = third

abbrev is_on : Option Bool → Bool
is_on none = false
is_on (some b) = b

abbrev is_missing : Option Bool → Bool
is_missing none = true
is_missing (some b) = false

-- What the functions read: `user_tags`, `ac.canAccessVhosts()`, `current_highlight`.
pub record Viewer : Type 0 where
  pub user_tags : List Text
  pub can_access_vhosts : Bool
  pub highlight : Text

-- `show(pair)`
unfoldable pub show : Viewer → Entry → Bool
show v e =
    let has_user_tag = includes (tag_of e) v.user_tags in
    if is_on (third_of e) then has_user_tag && v.can_access_vhosts else has_user_tag

-- The loop of `first_showable_child`, down to a leaf: the address of the page it stops at, with the page.
-- `none` is the exception on a menu without children.
unfoldable mutual
  pub leaf_of : Viewer → Entry → Option (Text × Entry)
  leaf_of v (page url tag third) = some (url, page url tag third)
  leaf_of v (menu children tag third) = first_leaf v children (head_leaf v children)

  pub first_leaf : Viewer → Children → Option (Text × Entry) → Option (Text × Entry)
  first_leaf v end head = head
  first_leaf v (item k e rest) head =
      let here = leaf_of v e in
      let later = first_leaf v rest head in if show v e then here else later

  pub head_leaf : Viewer → Children → Option (Text × Entry)
  head_leaf v end = none
  head_leaf v (item k e rest) = leaf_of v e

-- `contains_current_highlight(val)`. Of a menu the loop also visits the tag, as though it were a page at
-- its first character.
unfoldable mutual
  pub is_highlighted : Viewer → Entry → Bool
  is_highlighted v (page url tag third) = text_eq v.highlight url
  is_highlighted v (menu children tag third) =
      any_highlighted v children || text_eq v.highlight (take 1 tag)

  pub any_highlighted : Viewer → Children → Bool
  any_highlighted v end = false
  any_highlighted v (item k e rest) = is_highlighted v e || any_highlighted v rest

abbrev selected_mark : Bool → Text
selected_mark selected = if selected then codes " class=\"selected\"" else []

-- The loop of `obj_to_ul`, and what it puts between `<li>` and `</li>`.
unfoldable mutual
  pub list_items : Viewer → Children → Text
  list_items v end = []
  list_items v (item k e rest) =
      let here = list_item v k e in
      (if show v e then codes "<li>" ++ (here ++ codes "</li>") else []) ++ list_items v rest

  pub list_item : Viewer → Text → Entry → Text
  list_item v k (page url tag third) =
      codes "<a href=\""
      ++ (url
          ++ (codes "\""
              ++ (selected_mark (text_eq v.highlight url) ++ (codes ">" ++ (k ++ codes "</a>")))))
  list_item v k (menu children tag third) = codes "<ul>" ++ (list_items v children ++ codes "</ul>")

-- `obj_to_ul(val)`
unfoldable pub obj_to_ul : Viewer → Children → Text
unfolding list_items
obj_to_ul v children = codes "<ul>" ++ (list_items v children ++ codes "</ul>")

-- `navigation_tab_id(value)`, on texts of ASCII characters
unfoldable pub navigation_tab_id : Text → Text
navigation_tab_id =
    map λ c. if is_space c then b'-' else if leb b'A' c && leb c b'Z' then c + 32 else c

-- `l1` and `descend`
pub record Tabs : Type 0 where
  pub l1 : Text
  pub descend : Option Children

unfoldable pub descend_into : Viewer → Entry → Option Children → Option Children
descend_into v (page url tag third) descend = descend
descend_into v (menu children tag third) descend =
    if is_on third && v.can_access_vhosts then some children else descend

unfoldable pub tab : Text → Text → Bool → Text
tab k url selected =
    codes "<li id=\""
    ++ (navigation_tab_id k
        ++ (codes "\"><a href=\""
            ++ (url
                ++ (codes "\""
                    ++ (selected_mark selected ++ (codes ">" ++ (k ++ codes "</a></li>")))))))

-- One turn of the loop of `update_navigation`, from the leaf of the value.
unfoldable pub add_tab : Viewer → Text → Entry → Text × Entry → Tabs → Tabs
unfolding tab descend_into
add_tab v k val (url, path) tabs =
    let selected = is_highlighted v val in
    let gate = is_missing (third_of val) || (is_on (third_of val) && v.can_access_vhosts) in
    record {
      l1 = if show v path && gate then tabs.l1 ++ tab k url selected else tabs.l1;
      descend = if selected then descend_into v val tabs.descend else tabs.descend;
    }

unfoldable pub tabs_from : Viewer → Children → Tabs → Option Tabs
unfolding add_tab
tabs_from v end tabs = some tabs
tabs_from v (item k val rest) tabs = elim (leaf_of v val) [
  | none ↦ none
  | some path ↦ tabs_from v rest (add_tab v k val path tabs)
]

-- What `update_navigation` writes: the tabs, the menu at the side, and whether there is one.
pub record Shown : Type 0 where
  pub tabs : Text
  pub rhs : Text
  pub with_rhs : Bool

unfoldable pub to_shown : Viewer → Tabs → Shown
unfolding obj_to_ul
to_shown v t = elim t.descend [
  | none ↦ record { tabs = t.l1; rhs = []; with_rhs = false }
  | some children ↦ record { tabs = t.l1; rhs = obj_to_ul v children; with_rhs = true }
]

-- `update_navigation`, for the value of `NAVIGATION`
unfoldable pub update_navigation : Viewer → Children → Option Shown
unfolding tabs_from to_shown
update_navigation v navigation =
    elim (tabs_from v navigation (record { l1 = []; descend = none })) [
      | none ↦ none
      | some tabs ↦ some (to_shown v tabs)
    ]

abbrev administration : Children
administration = item (codes "Users") (page (codes "#/users") (codes "administrator") none) (
    item (codes "Virtual Hosts") (page (codes "#/vhosts") (codes "administrator") none) (
      item (codes "Feature Flags") (page (codes "#/feature-flags") (codes "administrator") none) (
        item (codes "Deprecated Features")
          (page (codes "#/deprecated-features") (codes "administrator") none)
          (item (codes "Policies") (page (codes "#/policies") (codes "management") none) (
            item (codes "Limits") (page (codes "#/limits") (codes "management") none) (
              item (codes "Cluster") (page (codes "#/cluster-name") (codes "administrator") none)
                end))))))

abbrev managed : Text → Entry
managed url = page url (codes "management") (some true)

-- `NAVIGATION`
abbrev pub navigation : Children
navigation = item (codes "Overview") (page (codes "#/") (codes "management") none) (
    item (codes "Connections") (managed (codes "#/connections")) (
      item (codes "Channels") (managed (codes "#/channels")) (
        item (codes "Exchanges") (managed (codes "#/exchanges")) (
          item (codes "Queues and Streams") (managed (codes "#/queues"))
            (item (codes "Admin") (menu administration (codes "management") (some true)) end)))))
