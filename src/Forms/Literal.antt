-- ===== src/Forms/Literal.antt =====
-- `parseFloat` of the JavaScript standard library. A number is kept as the literal that it is read from.
use rocketmq.Shared.{
  Bool, true, false, ◌&&◌, ◌||◌, Option, none, some, [], ◌∷◌, ◌++◌, ◌==◌, leb, Text, codes,
  starts_with, skip_spaces, if◌then◌else◌,
}

-- The digits at the start of a text, and the rest.
unfoldable pub digits_of : Text → Text × Text
digits_of [] = ([], [])
digits_of (c ∷ s) =
    let (digits, rest) = digits_of s in
    if leb b'0' c && leb c b'9' then (c ∷ digits, rest) else ([], c ∷ s)

abbrev is_empty : Text → Bool
is_empty [] = true
is_empty (c ∷ s) = false

-- The digits of an exponent after its sign, where there are any.
unfoldable pub exponent_digits : Text → Text → Text
exponent_digits sign s =
    let (digits, rest) = digits_of s in if is_empty digits then [] else sign ++ digits

unfoldable pub exponent : Text → Text
unfolding exponent_digits
exponent [] = []
exponent (e ∷ []) = []
exponent (e ∷ c ∷ s) =
    if e == b'e' || e == b'E'
    then if c == b'-' || c == b'+'
      then exponent_digits (e ∷ c ∷ []) s
      else exponent_digits (e ∷ []) (c ∷ s)
    else []

-- The point with the digits after it, and the rest.
unfoldable pub fraction : Text → Text × Text
fraction [] = ([], [])
fraction (c ∷ s) =
    let (digits, rest) = digits_of s in if c == b'.' then (c ∷ digits, rest) else ([], c ∷ s)

-- A literal without a sign. A point alone is none.
unfoldable pub unsigned : Text → Option Text
unfolding digits_of fraction exponent
unsigned s =
    let (whole, s1) = digits_of s in
    let (part, s2) = fraction s1 in
    if starts_with (codes "Infinity") s
    then some (codes "Infinity")
    else if is_empty whole && (elim part [ [] ↦ true | c ∷ digits ↦ is_empty digits ])
    then none
    else some (whole ++ (part ++ exponent s2))

-- `parseFloat(s)`, with `none` for NaN
unfoldable pub parse_float : Text → Option Text
unfolding unsigned
parse_float s = elim (skip_spaces s) [
  | [] ↦ none
  | c ∷ t ↦
      if c == b'-'
      then elim (unsigned t) [ none ↦ none | some n ↦ some (c ∷ n) ]
      else if c == b'+'
      then unsigned t
      else unsigned (c ∷ t)
]
