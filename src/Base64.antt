-- ===== src/Base64.antt =====
-- base64.js: encoding and decoding of byte strings. A string is a list of code units, and a thrown
-- exception is an `err`. The operands of each `|` have no bit in common, so it is a sum here.
pub mod Alphabet
pub mod Blocks
pub mod RoundTrip
pub mod Errors
use rocketmq.Shared.{
  ℕ, ◌+◌, ◌-◌, ◌*◌, ◌/◌, ◌%◌, ◌^◌, ◌≡◌, refl, Bool, false, Option, none, some, [], ◌∷◌, ◌++◌, Text,
  codes, length, get_elem?, take, drop, ◌==◌, ltb, if◌then◌else◌,
}

-- What the two functions throw.
pub data Error : Type 0 where
  cannot_decode invalid_character : Error

pub data Result : Type 0 where
  ok : Text → Result
  err : Error → Result

infixl 5 ◌>>=◌
abbrev pub ◌>>=◌ : Result → (Text → Result) → Result
ok t >>= f = f t
err e >>= f = err e

abbrev pub padchar : ℕ
padchar = b'='

abbrev pub alpha : Text
alpha = codes "ABCDEFGHIJKLMNOPQRSTUVWXYZabcdefghijklmnopqrstuvwxyz0123456789+/"

-- `alpha.charAt(i)`, the empty string out of range
pub char_at : ℕ → Text
char_at i = elim (get_elem? alpha i) [ none ↦ [] | some c ↦ c ∷ [] ]

-- `ALPHA.indexOf(c)`, with `none` for -1
pub index_of : ℕ → Text → Option ℕ
index_of c [] = none
index_of c (x ∷ xs) =
    if x == c then some 0 else elim (index_of c xs) [ none ↦ none | some i ↦ some (i + 1) ]

-- `getbyte64(s, i)` where `c` is the character at `i`, in the chain of the block that uses it
pub with_getbyte64 : ℕ → (ℕ → Result) → Result
with_getbyte64 c k = elim (index_of c alpha) [ none ↦ err cannot_decode | some i ↦ k i ]

-- `getbyte(s, i)`
pub with_getbyte : ℕ → (ℕ → Result) → Result
with_getbyte c k = if ltb 255 c then err invalid_character else k c

-- the block of four characters for three bytes
pub quad : ℕ → ℕ → ℕ → Text
quad a b c =
    let b10 = a * 2 ^ 16 + b * 2 ^ 8 + c in
    char_at (b10 / 2 ^ 18)
    ++ (char_at (b10 / 2 ^ 12 % 64) ++ (char_at (b10 / 2 ^ 6 % 64) ++ char_at (b10 % 64)))

-- the loop of `encode`, over the part of the string that is a whole number of blocks
pub encode_blocks : Text → Result
encode_blocks (a ∷ b ∷ c ∷ s) =
    with_getbyte a
      λ x. with_getbyte b λ y. with_getbyte c λ z. encode_blocks s >>= λ t. ok (quad x y z ++ t)
encode_blocks _ = ok []

-- the `switch` after the loop, on what is left
pub encode_tail : Text → Result
encode_tail (a ∷ []) = with_getbyte a λ x.
    let b10 = x * 2 ^ 16 in
    ok (char_at (b10 / 2 ^ 18) ++ (char_at (b10 / 2 ^ 12 % 64) ++ padchar ∷ padchar ∷ []))
encode_tail (a ∷ b ∷ []) = with_getbyte a λ x. with_getbyte b λ y.
    let b10 = x * 2 ^ 16 + y * 2 ^ 8 in
    ok (
      char_at (b10 / 2 ^ 18)
      ++ (char_at (b10 / 2 ^ 12 % 64) ++ (char_at (b10 / 2 ^ 6 % 64) ++ padchar ∷ [])))
encode_tail _ = ok []

unfoldable pub encode : Text → Result
encode s =
    let imax = length s - length s % 3 in
    if length s == 0
    then ok s
    else (encode_blocks (take imax s) >>= λ x. encode_tail (drop imax s) >>= λ y. ok (x ++ y))

-- the loop of `decode`
pub decode_blocks : Text → Result
decode_blocks (a ∷ b ∷ c ∷ d ∷ s) = with_getbyte64 a λ x. with_getbyte64 b λ y.
    with_getbyte64 c λ z. with_getbyte64 d λ w.
      let b10 = x * 2 ^ 18 + y * 2 ^ 12 + z * 2 ^ 6 + w in
      decode_blocks s >>= λ t. ok ((b10 / 2 ^ 16) ∷ (b10 / 2 ^ 8 % 256) ∷ (b10 % 256) ∷ t)
decode_blocks _ = ok []

-- the `switch` after the loop: the number of padding characters, and the last block
pub decode_tail : ℕ → Text → Result
decode_tail pads (a ∷ b ∷ c ∷ s) =
    if pads == 1
    then (with_getbyte64 a λ x. with_getbyte64 b λ y. with_getbyte64 c λ z.
        let b10 = x * 2 ^ 18 + y * 2 ^ 12 + z * 2 ^ 6 in
        ok ((b10 / 2 ^ 16) ∷ (b10 / 2 ^ 8 % 256) ∷ []))
    else if pads == 2
    then (with_getbyte64 a
        λ x. with_getbyte64 b λ y. let b10 = x * 2 ^ 18 + y * 2 ^ 12 in ok ((b10 / 2 ^ 16) ∷ []))
    else ok []
decode_tail pads _ = ok []

-- `s.charAt(i) == PADCHAR`
pub is_pad : Text → ℕ → Bool
is_pad s i = elim (get_elem? s i) [ none ↦ false | some c ↦ c == padchar ]

pub count_pads : Text → ℕ
count_pads s = if is_pad s (length s - 1) then (if is_pad s (length s - 2) then 2 else 1) else 0

unfoldable pub decode : Text → Result
decode s =
    let pads = count_pads s in
    let imax = if pads == 0 then length s else length s - 4 in
    if length s == 0
    then ok s
    else if length s % 4 == 0
    then (decode_blocks (take imax s) >>= λ x. decode_tail pads (drop imax s) >>= λ y. ok (x ++ y))
    else err cannot_decode
