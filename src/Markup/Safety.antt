-- ===== src/Markup/Safety.antt =====
-- formatters.js: what text escaped for HTML holds.
use rocketmq.Shared.{
  ℕ, [], ◌∷◌, ◌++◌, ◌≡◌, ◌≢◌, ◌==◌, refl, arith, Text, codes, All, All-append, replace_char,
  flat_map, if◌then◌else◌, append_assoc, sym,
}
use rocketmq.Markup.{escape_html0}

-- A character that stands for itself between tags and in a quoted attribute.
abbrev pub IsInert : ℕ → Type 0
IsInert c = (c ≢ b'<') × ((c ≢ b'>') × (c ≢ b'"'))

-- The entity of a character.
unfoldable pub entity : ℕ → Text
entity c =
    if c == b'&'
    then codes "&amp;"
    else if c == b'<'
    then codes "&lt;"
    else if c == b'>'
    then codes "&gt;"
    else if c == b'"'
    then codes "&quot;"
    else c ∷ []

replace_char-append :
    (c : ℕ) (by s t : Text)
    → replace_char c by (s ++ t) ≡ replace_char c by s ++ replace_char c by t
unfolding replace_char
replace_char-append c by [] t = refl
replace_char-append c by (x ∷ s) t =
    rw (replace_char-append c by s t) (
      sym
        (append_assoc (if x == c then by else x ∷ []) (replace_char c by s) (replace_char c by t)))

escape_html0-cons : (c : ℕ) (s : Text) → escape_html0 (c ∷ s) ≡ entity c ++ escape_html0 s
unfolding escape_html0 entity replace_char
escape_html0-cons c s = ground arith

-- The four replacements, one after the other, put for each character its entity: none of them touches
-- what another one wrote.
pub escape_html0-flat_map : (s : Text) → escape_html0 s ≡ flat_map entity s
unfolding flat_map escape_html0 replace_char
escape_html0-flat_map [] = refl
escape_html0-flat_map (c ∷ s) = rw (escape_html0-cons c s, escape_html0-flat_map s) refl

entity-IsInert : (c : ℕ) → All IsInert (entity c)
unfolding entity
entity-IsInert c = ground arith

-- The text that is shown has no tag and no quotation mark of its own.
pub escape_html0-IsInert : (s : Text) → All IsInert (escape_html0 s)
unfolding escape_html0 replace_char
escape_html0-IsInert [] = tt
escape_html0-IsInert (c ∷ s) =
    rw (escape_html0-cons c s)
      (All-append IsInert (entity c) (escape_html0 s) (entity-IsInert c) (escape_html0-IsInert s))
