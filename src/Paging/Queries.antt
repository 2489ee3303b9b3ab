-- ===== src/Paging/Queries.antt =====
-- formatters.js, main.js: the query for a page is the one that was stored for it.
use rocketmq.Shared.{
  ℤ, ◌≡◌, ◌≢◌, refl, ap, ◌∙◌, Bool, true, false, Option, some, [], ◌∷◌, Text, codes, text_eq, Dict,
  lookup, replace_char, false, none, ◌++◌, if◌then◌else◌,
}
use rocketmq.Requests.Query.{◌>>=◌}
use rocketmq.Markup.{escape_html, escape_html0}
use rocketmq.Prefs.Store.{Browser, storage_key, get_pref}
use rocketmq.Paging.{
  number_key, size_key, name_key, regex_key, fmt_strip_tags, given_or, stored_value_or_default,
  limited, page_path, fmt_page_number_request, fmt_page_size_request, fmt_filter_name_request,
  fmt_regex_request, Controls, stored_page_info, url_pagination_template_context,
}
use rocketmq.Paging.Stored.{regex_text, items_after, stored_page_info_lem, lookup-key}

-- A value that is there is read, or its default where it is empty.
read_lem :
    (key v default_value : Text) (b : Browser) (items : Dict Text)
    → b.storage ≡ some items
    → lookup (storage_key key) items ≡ some v
    → stored_value_or_default key default_value b ≡ some (given_or (some v) default_value)
unfolding stored_value_or_default get_pref
read_lem key v default_value b items e found = rw (e, found) refl

module _ (template page_start : Text) (c : Controls) (items : Dict Text) where
  abbrev after : Dict Text
  after = items_after template page_start c items

  size_after : lookup (storage_key (size_key template)) after ≡ some (fmt_strip_tags c.page_size)
  unfolding text_eq
  size_after = lookup-key template (codes "_current_page_size") (codes "_current_page_size") _ _

  regex_after : lookup (storage_key (regex_key template)) after ≡ some (regex_text c.regex_on)
  unfolding text_eq
  regex_after =
      lookup-key template (codes "_current_page_size") (codes "_current_regex") _ _
      ∙ lookup-key template (codes "_current_regex") (codes "_current_regex") _ _

  name_after : lookup (storage_key (name_key template)) after ≡ some (fmt_strip_tags c.filter_name)
  unfolding text_eq
  name_after =
      lookup-key template (codes "_current_page_size") (codes "_current_filter_name") _ _
      ∙ (lookup-key template (codes "_current_regex") (codes "_current_filter_name") _ _
          ∙ lookup-key template (codes "_current_filter_name") (codes "_current_filter_name") _ _)

  number_after : lookup (storage_key (number_key template)) after ≡ some page_start
  unfolding text_eq
  number_after =
      lookup-key template (codes "_current_page_size") (codes "_current_page_number") _ _
      ∙ (lookup-key template (codes "_current_regex") (codes "_current_page_number") _ _
          ∙ (lookup-key template (codes "_current_filter_name") (codes "_current_page_number") _ _
              ∙ lookup-key template (codes "_current_page_number") (codes "_current_page_number") _
                  _))

-- A text that is not empty is no default.
given_lem : (v default_value : Text) → v ≢ [] → given_or (some v) default_value ≡ v
given_lem [] default_value h = absurd (h refl)
given_lem (x ∷ v) default_value h = refl

given_none : (v : Text) → given_or (some v) [] ≡ v
given_none [] = refl
given_none (x ∷ v) = refl

regex_lem : (on : Bool) → text_eq (escape_html (regex_text on)) (codes "checked") ≡ on
unfolding text_eq escape_html escape_html0 replace_char
regex_lem true = refl
regex_lem false = refl

number_lem :
    (k v : Text) (d : Option ℤ) (b : Browser) (items : Dict Text)
    → b.storage ≡ some items
    → lookup (storage_key (number_key k)) items ≡ some v
    → v ≢ []
    → fmt_page_number_request k d b ≡ some v
unfolding fmt_page_number_request
number_lem k v d b items e found filled =
    read_lem (number_key k) v _ b items e found ∙ ap some (given_lem v _ filled)

size_lem :
    (exceeds : Text → Bool) (k v : Text) (d : Option ℤ) (b : Browser) (items : Dict Text)
    → b.storage ≡ some items
    → lookup (storage_key (size_key k)) items ≡ some v
    → v ≢ []
    → fmt_page_size_request exceeds k d b ≡ some (limited exceeds v)
unfolding fmt_page_size_request
size_lem exceeds k v d b items e found filled =
    ap (λ o. o >>= λ size. some (limited exceeds size))
      (read_lem (size_key k) v _ b items e found ∙ ap some (given_lem v _ filled))

name_lem :
    (k v : Text) (b : Browser) (items : Dict Text)
    → b.storage ≡ some items
    → lookup (storage_key (name_key k)) items ≡ some v
    → fmt_filter_name_request k [] b ≡ some (escape_html v)
unfolding fmt_filter_name_request
name_lem k v b items e found =
    ap (λ o. o >>= λ t. some (escape_html t))
      (read_lem (name_key k) v [] b items e found ∙ ap some (given_none v))

regex_request_lem :
    (k v : Text) (b : Browser) (items : Dict Text)
    → b.storage ≡ some items
    → lookup (storage_key (regex_key k)) items ≡ some v
    → fmt_regex_request k [] b ≡ some (escape_html v)
unfolding fmt_regex_request
regex_request_lem k v b items e found =
    ap (λ o. o >>= λ t. some (escape_html t))
      (read_lem (regex_key k) v [] b items e found ∙ ap some (given_none v))

-- With local storage, once a page, its size and a filter without regular expression were stored for a list, the
-- path for the list gives this page as page, this size, or 500 where it is larger, as page_size, this filter as name
-- and false as use_regex, whatever the defaults are, where the page and the size are not empty and HTML escapes nothing in the filter.
pub url_pagination_template_context-stored_page_info :
    (is_valid exceeds : Text → Bool) (template context page_start : Text)
    (default_page default_size : Option ℤ) (c : Controls) (b : Browser) (items : Dict Text)
    → b.storage ≡ some items
    → page_start ≢ []
    → fmt_strip_tags c.page_size ≢ []
    → c.regex_on ≡ false
    → escape_html (fmt_strip_tags c.filter_name) ≡ fmt_strip_tags c.filter_name
    → (stored_page_info context page_start c b >>= λ stored.
        url_pagination_template_context is_valid exceeds template context default_page default_size
          stored)
      ≡ some (record {
        path =
            codes "/"
            ++ (template
                ++ (codes "?page="
                    ++ (page_start
                        ++ (codes "&page_size="
                            ++ ((if exceeds (fmt_strip_tags c.page_size)
                                  then codes "500"
                                  else fmt_strip_tags c.page_size)
                                ++ (codes "&name="
                                    ++ (fmt_strip_tags c.filter_name
                                        ++ codes "&use_regex=false")))))));
        popup = none;
      })
unfolding url_pagination_template_context page_path limited
url_pagination_template_context-stored_page_info is_valid exceeds template context page_start
      default_page default_size c b items e filled sized textual plain =
    let stored : Browser = record b { storage = some (items_after context page_start c items) } in
    rw
      (
        stored_page_info_lem context page_start c b items e,
        number_lem context page_start default_page stored _ refl
            (number_after context page_start c items) filled,
        size_lem exceeds context (fmt_strip_tags c.page_size) default_size stored _ refl
            (size_after context page_start c items) sized,
        name_lem context (fmt_strip_tags c.filter_name) stored _ refl
            (name_after context page_start c items),
        regex_request_lem context (regex_text c.regex_on) stored _ refl
            (regex_after context page_start c items),
        regex_lem c.regex_on,
        textual,
        plain,
      )
      refl
