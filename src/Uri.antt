-- ===== src/Uri.antt =====
-- The functions of the JavaScript standard library that the console builds URLs and credentials with:
-- `encodeURIComponent` and `unescape`; `esc` of formatters.js, and `encode_utf8` and
-- `b64_encode_utf8` of prefs.js. An exception is `none`.
pub mod Encoded
pub mod Bytes
use mathlib.Core.Option
use rocketmq.Shared.{
  ℕ, ◌+◌, ◌-◌, ◌*◌, ◌/◌, ◌%◌, Bool, ◌&&◌, ◌||◌, Option, none, some, List, [], ◌∷◌, ◌++◌, flat_map,
  Text, codes, any, length, leb, ltb, ◌==◌, if◌then◌else◌,
}
use rocketmq.Base64

abbrev is_high : ℕ → Bool
is_high c = leb 0xd800 c && leb c 0xdbff

abbrev is_low : ℕ → Bool
is_low c = leb 0xdc00 c && leb c 0xdfff

-- The code points of a string; a lone surrogate is an exception.
unfoldable pub code_points : Text → Option (List ℕ)
code_points [] = some []
code_points (c ∷ []) = if is_high c || is_low c then none else some (c ∷ [])
code_points (c ∷ d ∷ s) =
    let pair =
      if is_low d
      then Option.map (λ ps. (0x10000 + (c - 0xd800) * 0x400 + (d - 0xdc00)) ∷ ps) (code_points s)
      else none in
    let one = Option.map (λ ps. c ∷ ps) (code_points (d ∷ s)) in
    if is_low c then none else if is_high c then pair else one

-- The UTF-8 bytes of a code point.
unfoldable pub utf8 : ℕ → List ℕ
utf8 p =
    if ltb p 0x80
    then p ∷ []
    else if ltb p 0x800
    then (0xc0 + p / 64) ∷ (0x80 + p % 64) ∷ []
    else if ltb p 0x10000
    then (0xe0 + p / 4096) ∷ (0x80 + p / 64 % 64) ∷ (0x80 + p % 64) ∷ []
    else (0xf0 + p / 262144) ∷ (0x80 + p / 4096 % 64) ∷ (0x80 + p / 64 % 64) ∷ (0x80 + p % 64) ∷ []

abbrev pub is_alnum : ℕ → Bool
is_alnum c =
    (leb b'a' c && leb c b'z') || ((leb b'A' c && leb c b'Z') || (leb b'0' c && leb c b'9'))

-- What `encodeURIComponent` leaves alone.
unfoldable pub unreserved : ℕ → Bool
unreserved c =
    is_alnum c
    || (c == b'-'
        || (c == b'_'
            || (c == b'.'
                || (c == b'!'
                    || (c == b'~' || (c == b'*' || (c == b'\'' || (c == b'(' || c == b')'))))))))

abbrev pub hex : ℕ → ℕ
hex n = if ltb n 10 then b'0' + n else b'A' + (n - 10)

-- `%XX`
unfoldable pub percent : ℕ → Text
percent b = b'%' ∷ hex (b / 16) ∷ hex (b % 16) ∷ []

unfoldable pub esc_point : ℕ → Text
esc_point p = if unreserved p then p ∷ [] else flat_map percent (utf8 p)

-- `esc(str)`
unfoldable pub esc : Text → Option Text
esc s = Option.map (flat_map esc_point) (code_points s)

-- The value of a hexadecimal digit.
unfoldable pub unhex : ℕ → Option ℕ
unhex c =
    if leb b'0' c && leb c b'9'
    then some (c - b'0')
    else if leb b'A' c && leb c b'F'
    then some (c - b'A' + 10)
    else if leb b'a' c && leb c b'f'
    then some (c - b'a' + 10)
    else none

unfoldable pub unhex₂ : ℕ → ℕ → Option ℕ
unhex₂ a b = elim (unhex a) [
  | none ↦ none
  | some x ↦ elim (unhex b) [ none ↦ none | some y ↦ some (x * 16 + y) ]
]

-- `unescape` of text without `%uXXXX`, which `encodeURIComponent` does not write.
unfoldable pub unescape : Text → Text
unescape [] = []
unescape (c ∷ []) = c ∷ []
unescape (c ∷ a ∷ []) = c ∷ a ∷ []
unescape (c ∷ a ∷ b ∷ s) =
    let plain : Text = c ∷ unescape (a ∷ b ∷ s) in
    let after : Text = unescape s in
    let coded : Text = elim (unhex₂ a b) [ none ↦ plain | some x ↦ x ∷ after ] in
    if c == b'%' then coded else plain

-- `encode_utf8(str)`
unfoldable pub encode_utf8 : Text → Option Text
encode_utf8 s = Option.map unescape (esc s)

-- `b64_encode_utf8(str)`
unfoldable pub b64_encode_utf8 : Text → Option Base64.Result
b64_encode_utf8 s = Option.map Base64.encode (encode_utf8 s)
