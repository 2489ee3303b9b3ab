-- ===== src/Forms/Fields.antt =====
-- main.js: the names of the fields that `collapse_multifields` reads, and their order.
use rocketmq.Shared.{
  Bool, true, false, ◌&&◌, ◌||◌, Option, none, some, List, [], ◌∷◌, ◌++◌, ◌==◌, leb, ltb, Text,
  starts_with, if◌then◌else◌,
}

-- A field: its name and its id.
abbrev pub Field : Type 0
Field = Text × Text

-- `[a-z]*`, with what follows
unfoldable pub letters : Text → Text × Text
letters [] = ([], [])
letters (c ∷ s) =
    let (name, rest) = letters s in
    if leb b'a' c && leb c b'z' then (c ∷ name, rest) else ([], c ∷ s)

-- `[0-9_]*` before an underscore and the suffix
unfoldable pub id_before : Text → Text → Option Text
id_before suffix [] = none
id_before suffix (c ∷ s) =
    let later : Option Text = elim (id_before suffix s) [ none ↦ none | some id ↦ some (c ∷ id) ] in
    if starts_with (b'_' ∷ suffix) (c ∷ s)
    then some []
    else if (leb b'0' c && leb c b'9') || c == b'_'
    then later
    else none

-- A match of `([a-z]*)_([0-9_]*)_` and the suffix at the start of a text.
unfoldable pub match_here : Text → Text → Option Field
unfolding letters id_before
match_here suffix s =
    let (name, rest) = letters s in
    elim rest [
      | [] ↦ none
      | c ∷ r ↦
          if c == b'_'
          then elim (id_before suffix r) [ none ↦ none | some id ↦ some (name, id) ]
          else none
    ]

-- The first match in a text: `key.match(/([a-z]*)_([0-9_]*)_suffix/)`
unfoldable pub match_field : Text → Text → Option Field
unfolding match_here
match_field suffix [] = none
match_field suffix (c ∷ s) =
    let later = match_field suffix s in
    elim (match_here suffix (c ∷ s)) [ none ↦ later | some f ↦ some f ]

-- `s <= t` on strings
unfoldable pub text_le : Text → Text → Bool
text_le [] t = true
text_le (a ∷ s) [] = false
text_le (a ∷ s) (b ∷ t) = let rest = text_le s t in if a == b then rest else ltb a b

-- The string of a pair, by which `ids.sort()` compares.
abbrev pub pair_text : Field → Text
pair_text (name, id) = name ++ (b',' ∷ id)

unfoldable pub field_le : Field → Field → Bool
unfolding text_le
field_le f g = text_le (pair_text f) (pair_text g)

unfoldable pub insert_field : Field → List Field → List Field
insert_field f [] = f ∷ []
insert_field f (g ∷ fields) =
    let later = insert_field f fields in if field_le f g then f ∷ g ∷ fields else g ∷ later

-- `ids.sort()`
unfoldable pub sort_fields : List Field → List Field
unfolding insert_field field_le
sort_fields [] = []
sort_fields (f ∷ fields) = insert_field f (sort_fields fields)
