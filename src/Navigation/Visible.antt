-- ===== src/Navigation/Visible.antt =====
-- main.js: who sees which tabs.
use rocketmq.Shared.{
  false, Option, none, some, [], ◌≡◌, refl, sym, ◌∙◌, ap, arith, Text, includes, Option-cases, inl,
  inr,
}
use rocketmq.Navigation.{
  Entry, Children, end, item, Viewer, show, leaf_of, Tabs, add_tab, tabs_from, Shown, to_shown,
  update_navigation,
}

-- A user without tags.
abbrev pub nobody : Viewer → Viewer
nobody v = record v { user_tags = [] }

show-nobody : (v : Viewer) (e : Entry) → show (nobody v) e ≡ false
unfolding show includes
show-nobody v e = ground arith

add_tab-nobody :
    (v : Viewer) (k : Text) (val : Entry) (path : Text × Entry) (t : Tabs)
    → (add_tab (nobody v) k val path t).l1 ≡ t.l1
unfolding add_tab
add_tab-nobody v k val (url, path) t = rw (show-nobody v path) refl

-- One turn of the loop, for a rest of the loop that adds no tab.
turn-nobody :
    (v : Viewer) (k : Text) (val : Entry) (leaf : Option (Text × Entry)) (t u : Tabs)
    (go : Tabs → Option Tabs)
    → ((a b : Tabs) → go a ≡ some b → b.l1 ≡ a.l1)
    → elim leaf [ none ↦ none | some path ↦ go (add_tab (nobody v) k val path t) ] ≡ some u
    → u.l1 ≡ t.l1
turn-nobody v k val none t u go adds_none e = ground arith
turn-nobody v k val (some path) t u go adds_none e = adds_none _ u e ∙ add_tab-nobody v k val path t

tabs_from-nobody :
    (v : Viewer) (cs : Children) (t u : Tabs) → tabs_from (nobody v) cs t ≡ some u → u.l1 ≡ t.l1
unfolding tabs_from
tabs_from-nobody v end t u e = ground arith
tabs_from-nobody v (item k val rest) t u e =
    turn-nobody v k val (leaf_of (nobody v) val) t u (tabs_from (nobody v) rest)
      (tabs_from-nobody v rest) e

to_shown-tabs : (v : Viewer) (t : Tabs) → (to_shown v t).tabs ≡ t.l1
unfolding to_shown
to_shown-tabs v t = elim (Option-cases t.descend) [
  | inl absent ↦ rw (absent) refl
  | inr (children, given) ↦ rw (given) refl
]

abbrev shown_tabs : Option Shown → Text
shown_tabs none = []
shown_tabs (some shown) = shown.tabs

shown-nobody :
    (v : Viewer) (made : Option Tabs) (shown : Shown)
    → ((u : Tabs) → made ≡ some u → u.l1 ≡ [])
    → elim made [ none ↦ none | some tabs ↦ some (to_shown v tabs) ] ≡ some shown
    → shown.tabs ≡ []
shown-nobody v none shown empty e = ground arith
shown-nobody v (some tabs) shown empty e =
    sym (ap shown_tabs e) ∙ (to_shown-tabs v tabs ∙ empty tabs refl)

-- A user without tags is shown no tab, whatever the navigation is, when `update_navigation` does not
-- throw.
pub update_navigation-nobody :
    (v : Viewer) (navigation : Children) (shown : Shown)
    → update_navigation (nobody v) navigation ≡ some shown
    → shown.tabs ≡ []
unfolding update_navigation
update_navigation-nobody v navigation shown e =
    shown-nobody (nobody v) (tabs_from (nobody v) navigation (record { l1 = []; descend = none }))
      shown (λ u made. tabs_from-nobody v navigation _ u made) e
