-- ===== src/Prefs/Hash.antt =====
-- prefs.js: `short_key`, the short names under which cookies keep their values.
use rocketmq.Shared.{
  ℕ, zero, suc, ◌+◌, ◌-◌, ◌*◌, ◌/◌, ◌%◌, ◌^◌, ◌≤◌, ◌<◌, ◌≡◌, Option, none, some, [], ◌∷◌, ◌++◌, ltb,
  Text, All, All-append, length, length-append, arith, ◌⊎◌, if◌then◌else◌, Bool-cases, Option-cases,
  subst, inl, inr,
}

-- The loop of `hashCode`, on the 32 bits of its integer.
unfoldable pub hash_from : ℕ → Text → ℕ
hash_from hash [] = hash
hash_from hash (c ∷ s) = hash_from ((31 * hash + c) % 2 ^ 32) s

-- `hashCode`: on the empty text it reads a variable that does not exist, an exception.
unfoldable pub hash_code : Text → Option ℕ
unfolding hash_from
hash_code [] = none
hash_code (c ∷ s) = some (hash_from 0 (c ∷ s))

-- `Math.abs(h << 16 >> 16)`: the low half as a signed number, without its sign
unfoldable pub low_half : ℕ → ℕ
low_half h = if ltb (h % 65536) 32768 then h % 65536 else 65536 - h % 65536

abbrev pub low_hex : ℕ → ℕ
low_hex n = if ltb n 10 then b'0' + n else b'a' + (n - 10)

-- The digits of `n.toString(16)`, with `n + 1` rounds.
unfoldable pub hex_from : ℕ → ℕ → Text
hex_from zero n = []
hex_from (suc f) n =
    let more = hex_from f (n / 16) in
    if ltb n 16 then low_hex n ∷ [] else more ++ low_hex (n % 16) ∷ []

unfoldable pub to_hex : ℕ → Text
unfolding hex_from
to_hex n = hex_from (n + 1) n

-- `short_key(k)`
unfoldable pub short_key : Text → Option Text
unfolding hash_code low_half to_hex
short_key k = elim (hash_code k) [ none ↦ none | some h ↦ some (to_hex (low_half h)) ]

-- A digit of a short key.
abbrev pub IsLowHex : ℕ → Type 0
IsLowHex c = ((48 ≤ c) × (c ≤ 57)) ⊎ ((97 ≤ c) × (c ≤ 102))

low_hex-IsLowHex : (n : ℕ) → n < 16 → IsLowHex (low_hex n)
low_hex-IsLowHex n h = ground arith

hex_from-IsLowHex : (f n : ℕ) → All IsLowHex (hex_from f n)
unfolding hex_from
hex_from-IsLowHex zero n = tt
hex_from-IsLowHex (suc f) n = elim (Bool-cases (ltb n 16)) [
  | inl small ↦ rw (small) (low_hex-IsLowHex n (ground arith), tt)
  | inr large ↦ rw (large) (
      All-append IsLowHex (hex_from f (n / 16)) (low_hex (n % 16) ∷ [])
        (hex_from-IsLowHex f (n / 16)) (low_hex-IsLowHex (n % 16) (omega arith), tt))
]

-- Numbers below `b` have at most `k` digits, whatever the count of rounds.
abbrev HasDigits : ℕ → ℕ → Type 0
HasDigits b k = (f n : ℕ) → n < b → length (hex_from f n) ≤ k

one_digit : HasDigits 16 1
unfolding hex_from
one_digit zero n h = omega arith
one_digit (suc f) n h = ground arith

more_digits : (b k : ℕ) → HasDigits b k → HasDigits (b * 16) (k + 1)
unfolding hex_from
more_digits b k few zero n h = omega arith
more_digits b k few (suc f) n h =
    let rest = few f (n / 16) (omega arith) in
    ground (arith, length-append (hex_from f (n / 16)) (low_hex (n % 16) ∷ []))

low_half-le : (h : ℕ) → low_half h ≤ 32768
unfolding low_half
low_half-le h = ground arith

to_hex-IsLowHex : (n : ℕ) → All IsLowHex (to_hex n)
unfolding to_hex
to_hex-IsLowHex n = hex_from-IsLowHex (n + 1) n

-- A short key has at most four characters, which are lower-case hexadecimal digits.
pub short_key-IsLowHex :
    (k : Text) {s : Text} → short_key k ≡ some s → (length s ≤ 4) × All IsLowHex s
unfolding short_key
short_key-IsLowHex k {s} e = elim (Option-cases (hash_code k)) [
  | inl absent ↦ absurd (ground arith)
  | inr (h, hashed) ↦
      let made : to_hex (low_half h) ≡ s = ground arith in
      let four = more_digits 4096 3 (more_digits 256 2 (more_digits 16 1 one_digit)) in
      subst (λ t. (length t ≤ 4) × All IsLowHex t) made
        (
          four (low_half h + 1) (low_half h) (let half = low_half-le h in omega arith),
          to_hex-IsLowHex (low_half h),
        )
]
