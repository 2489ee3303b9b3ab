-- ===== src/Paging/Stored.antt =====
-- formatters.js, main.js: what the storage holds once a page is chosen.
use rocketmq.Shared.{
  ◌≡◌, refl, ap, ◌∙◌, Bool, some, ◌++◌, Text, codes, text_eq, Dict, lookup, insert, lookup-insert,
  if◌then◌else◌,
}
use rocketmq.Prefs.Store.{Browser, storage_key, store_pref}
use rocketmq.Settings.Remembered.{text_eq-append}
use rocketmq.Paging.{
  number_key, size_key, name_key, regex_key, fmt_strip_tags, Controls, stored_page_info,
}

abbrev pub regex_text : Bool → Text
regex_text on = if on then codes "checked" else codes " "

-- The entries that `stored_page_info` writes, the last one first.
abbrev pub items_after : Text → Text → Controls → Dict Text → Dict Text
items_after template page_start c items =
    insert (storage_key (size_key template)) (fmt_strip_tags c.page_size) (
      insert (storage_key (regex_key template)) (regex_text c.regex_on) (
        insert (storage_key (name_key template)) (fmt_strip_tags c.filter_name)
          (insert (storage_key (number_key template)) page_start items)))

pub stored_page_info_lem :
    (template page_start : Text) (c : Controls) (b : Browser) (items : Dict Text)
    → b.storage ≡ some items
    → stored_page_info template page_start c b
      ≡ some (record b { storage = some (items_after template page_start c items) })
unfolding stored_page_info store_pref
stored_page_info_lem template page_start c b items e = rw (e) refl

-- Two keys of a template are the same where their ends are.
key_eq :
    (template x y : Text)
    → text_eq (storage_key (template ++ x)) (storage_key (template ++ y)) ≡ text_eq x y
key_eq template x y =
    text_eq-append (codes "rabbitmq.") (template ++ x) (template ++ y) ∙ text_eq-append template x y

pub lookup-key :
    (template x y v : Text) (items : Dict Text)
    → lookup (storage_key (template ++ y)) (insert (storage_key (template ++ x)) v items)
      ≡ (if text_eq x y then some v else lookup (storage_key (template ++ y)) items)
lookup-key template x y v items =
    lookup-insert (storage_key (template ++ x)) (storage_key (template ++ y)) v items
    ∙ ap (λ t. if t then some v else lookup (storage_key (template ++ y)) items)
        (key_eq template x y)
