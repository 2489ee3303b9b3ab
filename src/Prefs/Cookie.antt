-- ===== src/Prefs/Cookie.antt =====
-- prefs.js: the cookie `m`, in which a dictionary is kept. An object lists keys that read as numbers before
-- the others; only the order of the entries in the text depends on this, and the model keeps the order in
-- which they were inserted.
use rocketmq.Shared.{
  Option, none, some, List, [], ◌∷◌, ◌++◌, map, Text, codes, text_eq, Dict, insert, join, split,
  trim, if◌then◌else◌,
}
use rocketmq.Prefs.Escape.{escape, unescape}

-- `kv[0]` and `kv[1]` of a split text; a text always splits into a first part.
abbrev pub first_part : List Text → Text
first_part [] = []
first_part (a ∷ parts) = a

abbrev pub second_part : List Text → Option Text
second_part [] = none
second_part (a ∷ []) = none
second_part (a ∷ b ∷ parts) = some b

-- `'' + x` of a text or `undefined`
abbrev pub shown_text : Option Text → Text
shown_text none = codes "undefined"
shown_text (some s) = s

-- The loop of `get_cookie`.
unfoldable pub find_cookie : Text → List Text → Option Text
find_cookie key [] = some []
find_cookie key (item ∷ cookies) =
    let kv = split b'=' (trim item) in
    let later = find_cookie key cookies in
    if text_eq (first_part kv) key then second_part kv else later

-- `get_cookie(key)`, from `document.cookie`. `none` is `undefined`.
unfoldable pub get_cookie : Text → Text → Option Text
unfolding find_cookie
get_cookie key document_cookie = find_cookie key (split b';' document_cookie)

-- The loop of `parse_cookie`.
unfoldable pub parse_items : List Text → Dict Text → Dict Text
parse_items [] dict = dict
parse_items (item ∷ items) dict =
    let kv = split b':' item in
    parse_items items (insert (first_part kv) (unescape (shown_text (second_part kv))) dict)

-- `parse_cookie()`, from the text of the cookie
unfoldable pub parse_text : Text → Dict Text
unfolding parse_items
parse_text [] = []
parse_text (a ∷ c) = parse_items (split b'|' (a ∷ c)) []

unfoldable pub encode_entry : Text × Text → Text
encode_entry (k, v) = k ++ (b':' ∷ escape v)

-- What `store_cookie_with_expiration` writes for a dictionary.
unfoldable pub encode_dict : Dict Text → Text
unfolding encode_entry
encode_dict dict = join (codes "|") (map encode_entry dict)
