-- ===== src/Prefs/Escape.antt =====
-- `escape` and `unescape` of the JavaScript standard library, with which prefs.js writes cookies.
use rocketmq.Shared.{
  ℕ, zero, suc, ◌+◌, ◌*◌, ◌/◌, ◌%◌, Bool, ◌||◌, Option, none, some, [], ◌∷◌, ◌==◌, ltb, Text,
  flat_map, if◌then◌else◌,
}
use rocketmq.Uri.{is_alnum, hex, percent, unhex₂}

-- What `escape` leaves alone.
unfoldable pub is_kept : ℕ → Bool
is_kept c =
    is_alnum c
    || (c == b'@'
        || (c == b'*' || (c == b'_' || (c == b'+' || (c == b'-' || (c == b'.' || c == b'/'))))))

-- `%uXXXX`
unfoldable pub percent_u : ℕ → Text
percent_u c =
    b'%' ∷ b'u' ∷ hex (c / 4096) ∷ hex (c / 256 % 16) ∷ hex (c / 16 % 16) ∷ hex (c % 16) ∷ []

unfoldable pub escape_unit : ℕ → Text
escape_unit c = if is_kept c then c ∷ [] else if ltb c 256 then percent c else percent_u c

-- `escape(s)`
unfoldable pub escape : Text → Text
unfolding escape_unit
escape = flat_map escape_unit

-- The two hexadecimal digits at the start of a text.
unfoldable pub two_digits : Text → Option ℕ
two_digits [] = none
two_digits (a ∷ []) = none
two_digits (a ∷ b ∷ s) = unhex₂ a b

-- `uXXXX` at the start of a text.
unfoldable pub u_digits : Text → Option ℕ
u_digits (u ∷ a ∷ b ∷ c ∷ d ∷ s) =
    if u == b'u'
    then elim (unhex₂ a b) [
      | none ↦ none
      | some x ↦ elim (unhex₂ c d) [ none ↦ none | some y ↦ some (x * 256 + y) ]
    ]
    else none
u_digits _ = none

-- What a character stands for before the rest of the text, and how much of the rest it takes.
unfoldable pub decoded : ℕ → Text → ℕ × ℕ
unfolding two_digits u_digits
decoded c s =
    if c == b'%'
    then elim (u_digits s) [
      | some x ↦ (x, 5)
      | none ↦ elim (two_digits s) [ some x ↦ (x, 2) | none ↦ (c, 0) ]
    ]
    else (c, 0)

-- The scan of `unescape`, which passes over `skip` characters first.
unfoldable pub unescape_from : ℕ → Text → Text
unescape_from skip [] = []
unescape_from zero (c ∷ s) = (decoded c s).0 ∷ unescape_from (decoded c s).1 s
unescape_from (suc skip) (c ∷ s) = unescape_from skip s

-- `unescape(s)`
unfoldable pub unescape : Text → Text
unfolding unescape_from
unescape s = unescape_from 0 s
