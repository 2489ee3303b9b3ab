-- ===== src/Paging.antt =====
-- formatters.js, main.js: the pages of long lists, as preferences and as queries of the HTTP API.
pub mod Stored
pub mod Queries
use rocketmq.Shared.{
  ℕ, zero, suc, ◌-◌, ℤ, pos, negsuc, Bool, true, false, ◌||◌, Option, none, some, List, [], ◌∷◌,
  ◌++◌, ◌==◌, Text, codes, text_eq, int_text, if◌then◌else◌,
}
use rocketmq.Requests.Query.{◌>>=◌}
use rocketmq.Markup.{escape_html}
use rocketmq.Uri.{esc}
use rocketmq.Prefs.Store.{Browser, get_pref, store_pref}

-- The length of a tag after its `<`, with its `>`: `(?:.|\n)*?>`
unfoldable pub tag_length : Text → Option ℕ
tag_length [] = none
tag_length (c ∷ s) =
    let later : Option ℕ = elim (tag_length s) [ none ↦ none | some n ↦ some (suc n) ] in
    if c == b'>' then some 1 else if c == 13 || (c == 0x2028 || c == 0x2029) then none else later

-- The replacement of all tags, where a number of characters of one is left.
unfoldable pub strip_from : ℕ → Text → Text
unfolding tag_length
strip_from n [] = []
strip_from (suc n) (c ∷ s) = strip_from n s
strip_from zero (c ∷ s) =
    let keep = c ∷ strip_from zero s in
    let skip : Text = elim (tag_length s) [ none ↦ keep | some n ↦ strip_from n s ] in
    if c == b'<' then skip else keep

-- `fmt_strip_tags(txt)`, which takes undefined for the empty text
unfoldable pub fmt_strip_tags : Option Text → Text
unfolding strip_from
fmt_strip_tags none = []
fmt_strip_tags (some txt) = strip_from zero txt

abbrev pub given_or : Option Text → Text → Text
given_or none default_value = default_value
given_or (some []) default_value = default_value
given_or (some (c ∷ s)) default_value = c ∷ s

-- `stored_value_or_default(template, defaultValue)`
unfoldable pub stored_value_or_default : Text → Text → Browser → Option Text
stored_value_or_default template default_value b =
    get_pref template none b >>= λ v. some (given_or v default_value)

abbrev pub page_or_first : Option ℤ → Text
page_or_first none = codes "1"
page_or_first (some (pos zero)) = codes "1"
page_or_first (some (pos (suc n))) = int_text (pos (suc n))
page_or_first (some (negsuc n)) = codes "1"

abbrev pub size_or_hundred : Option ℤ → Text
size_or_hundred none = codes "100"
size_or_hundred (some (pos n)) = int_text (pos n)
size_or_hundred (some (negsuc n)) = codes "100"

abbrev pub number_key : Text → Text
number_key template = template ++ codes "_current_page_number"

abbrev pub size_key : Text → Text
size_key template = template ++ codes "_current_page_size"

abbrev pub name_key : Text → Text
name_key template = template ++ codes "_current_filter_name"

abbrev pub regex_key : Text → Text
regex_key template = template ++ codes "_current_regex"

-- `fmt_page_number_request(template, defaultPage)`
unfoldable pub fmt_page_number_request : Text → Option ℤ → Browser → Option Text
unfolding stored_value_or_default
fmt_page_number_request template default_page b =
    stored_value_or_default (number_key template) (page_or_first default_page) b

-- The hard limit, with whether the language takes a text for a number above 500.
unfoldable pub limited : (Text → Bool) → Text → Text
limited exceeds size = if exceeds size then codes "500" else size

-- `fmt_page_size_request(template, defaultPageSize)`
unfoldable pub fmt_page_size_request : (Text → Bool) → Text → Option ℤ → Browser → Option Text
unfolding stored_value_or_default limited
fmt_page_size_request exceeds template default_size b =
    stored_value_or_default (size_key template) (size_or_hundred default_size) b >>= λ size.
    some (limited exceeds size)

-- `fmt_filter_name_request(template, defaultName)` and `fmt_regex_request(template, defaultName)`
unfoldable pub fmt_filter_name_request : Text → Text → Browser → Option Text
unfolding stored_value_or_default
fmt_filter_name_request template default_name b =
    stored_value_or_default (name_key template) default_name b >>= λ v. some (escape_html v)

unfoldable pub fmt_regex_request : Text → Text → Browser → Option Text
unfolding stored_value_or_default
fmt_regex_request template default_name b =
    stored_value_or_default (regex_key template) default_name b >>= λ v. some (escape_html v)

-- A path with a query, and the warning that is shown with it.
pub record PagePath : Type 0 where
  pub path : Text
  pub popup : Option Text

abbrev query_text : Text → Text → Text → Text → Bool → Text
query_text template page size name use_regex =
    b'/' ∷ template
    ++ (codes "?page="
        ++ (page
            ++ (codes "&page_size="
                ++ (size
                    ++ (codes "&name="
                        ++ (name
                            ++ (codes "&use_regex="
                                ++ (if use_regex then codes "true" else codes "false"))))))))

abbrev refused_text : Text → Text
refused_text name = escape_html (
    codes "Filter expression '"
    ++ (name ++ codes "' is not a valid regular expression, will perform a regular text query"))

-- The path for a page, its size and a filter, with whether the language takes a text for a pattern.
unfoldable pub page_path : (Text → Bool) → Text → Text → Text → Text → Bool → Option PagePath
page_path is_valid template page size name false =
    some (record { path = query_text template page size name false; popup = none })
page_path is_valid template page size name true =
    if is_valid name
    then (esc name >>= λ n.
        some (record { path = query_text template page size n true; popup = none }))
    else some (record {
      path = query_text template page size name false;
      popup = some (refused_text name);
    })

-- `url_pagination_template_context(template, context, defaultPage, defaultPageSize)`
unfoldable pub url_pagination_template_context :
    (Text → Bool) → (Text → Bool) → Text → Text → Option ℤ → Option ℤ → Browser → Option PagePath
unfolding fmt_page_number_request fmt_page_size_request fmt_filter_name_request fmt_regex_request
    page_path
url_pagination_template_context is_valid exceeds template context default_page default_size b =
    fmt_page_number_request context default_page b >>= λ page.
    fmt_page_size_request exceeds context default_size b >>= λ size.
    fmt_filter_name_request context [] b >>= λ name. fmt_regex_request context [] b >>= λ regex.
    page_path is_valid template page size name (text_eq regex (codes "checked"))

unfoldable pub url_pagination_template :
    (Text → Bool) → (Text → Bool) → Text → Option ℤ → Option ℤ → Browser → Option PagePath
unfolding url_pagination_template_context
url_pagination_template is_valid exceeds template =
    url_pagination_template_context is_valid exceeds template template

-- The controls of a page: the values of two inputs, where these are there, and the check box.
pub record Controls : Type 0 where
  pub page_size : Option Text
  pub filter_name : Option Text
  pub regex_on : Bool

-- `stored_page_info(template, page_start)`. Neither text is null or undefined once its tags are stripped.
unfoldable pub stored_page_info : Text → Text → Controls → Browser → Option Browser
unfolding fmt_strip_tags
stored_page_info template page_start c b = store_pref (number_key template) page_start b >>= λ b1.
    store_pref (name_key template) (fmt_strip_tags c.filter_name) b1 >>= λ b2.
    store_pref (regex_key template) (if c.regex_on then codes "checked" else codes " ") b2 >>= λ b3.
    store_pref (size_key template) (fmt_strip_tags c.page_size) b3

-- The page that `update_pages(template, page_start)` renders: one of five, or that of a callback.
pub data Rendered : Type 0 where
  queues exchanges connections channels users : Rendered
  callback_of : Text → Rendered

unfoldable pub rendered_page : Text → Rendered
rendered_page template =
    if text_eq template (codes "queues")
    then queues
    else if text_eq template (codes "exchanges")
    then exchanges
    else if text_eq template (codes "connections")
    then connections
    else if text_eq template (codes "channels")
    then channels
    else if text_eq template (codes "users")
    then users
    else callback_of template

unfoldable pub update_pages : Text → Text → Controls → Browser → Option (Browser × Rendered)
unfolding stored_page_info rendered_page
update_pages template page_start c b =
    stored_page_info template page_start c b >>= λ stored. some (stored, rendered_page template)

-- `update_pages_from_ui(sender)`, with the page that the control names, its value and the current template
unfoldable pub update_pages_from_ui :
    Option Text → Option Text → Text → Controls → Browser → Option (Browser × Rendered)
unfolding update_pages
update_pages_from_ui data_page_start value current_template c b =
    let raw : Option Text = elim data_page_start [
      | none ↦ value
      | some start ↦ if text_eq start [] then value else some start
    ] in
    update_pages current_template (escape_html (fmt_strip_tags raw)) c b
