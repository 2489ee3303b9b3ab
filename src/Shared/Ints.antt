-- ===== src/Shared/Ints.antt =====
-- Integers, and `parseInt`.
use Prim.Native.Nat.{ℕ, zero, suc, ◌+◌, ◌-◌, ◌*◌}
use mathlib.Core.Bool.{Bool, ◌&&◌, ◌||◌}
use mathlib.Core.List.{[], ◌∷◌}
use mathlib.Core.Option.{Option, none, some}
use rocketmq.Shared.Tests.{leb, ltb, ◌==◌, if◌then◌else◌}
use rocketmq.Shared.Texts.{Text}
use rocketmq.Shared.Decimal.{to_text}

-- `negsuc n` is -(n + 1).
pub data ℤ : Type 0 where
  pos : ℕ → ℤ
  negsuc : ℕ → ℤ

-- -n
abbrev pub neg : ℕ → ℤ
neg zero = pos 0
neg (suc n) = negsuc n

-- `"" + z`
unfoldable pub int_text : ℤ → Text
int_text (pos n) = to_text n
int_text (negsuc n) = b'-' ∷ to_text (suc n)

-- The value of a digit in a base up to 36.
unfoldable pub digit : ℕ → ℕ → Option ℕ
digit base c =
    let v =
      if leb b'0' c && leb c b'9'
      then c - b'0'
      else if leb b'a' c && leb c b'z'
      then c - b'a' + 10
      else if leb b'A' c && leb c b'Z'
      then c - b'A' + 10
      else 36 in
    if ltb v base then some v else none

-- The digits at the start of a text after the value `acc`; `none` (NaN) where there is none.
unfoldable pub scan_digits : ℕ → Option ℕ → Text → Option ℕ
scan_digits base acc [] = acc
scan_digits base acc (c ∷ s) = elim (digit base c) [
  | none ↦ acc
  | some d ↦ scan_digits base (some (elim acc [ none ↦ d | some n ↦ n * base + d ])) s
]

unfoldable pub is_space : ℕ → Bool
is_space c =
    c == 32
    || ((leb 9 c && leb c 13) || (c == 160 || (c == 0xfeff || (c == 0x2028 || c == 0x2029))))

unfoldable pub skip_spaces : Text → Text
skip_spaces [] = []
skip_spaces (c ∷ s) = if is_space c then skip_spaces s else c ∷ s

-- The digits of `parseInt`, with the prefix `0x`.
unfoldable pub scan_number : Text → Option ℕ
scan_number [] = none
scan_number (a ∷ []) = scan_digits 10 none (a ∷ [])
scan_number (a ∷ b ∷ s) =
    if a == b'0' && (b == b'x' || b == b'X')
    then scan_digits 16 none s
    else scan_digits 10 none (a ∷ b ∷ s)

abbrev negate : Option ℕ → Option ℤ
negate none = none
negate (some n) = some (neg n)

abbrev keep : Option ℕ → Option ℤ
keep none = none
keep (some n) = some (pos n)

abbrev signed : Text → Option ℤ
signed [] = none
signed (c ∷ s) =
    if c == b'-'
    then negate (scan_number s)
    else if c == b'+'
    then keep (scan_number s)
    else keep (scan_number (c ∷ s))

-- `parseInt(s)`, with `none` for NaN.
unfoldable pub parse_int : Text → Option ℤ
parse_int s = signed (skip_spaces s)

abbrev signed_decimal : Text → Option ℤ
signed_decimal [] = none
signed_decimal (c ∷ s) =
    if c == b'-'
    then negate (scan_digits 10 none s)
    else if c == b'+'
    then keep (scan_digits 10 none s)
    else keep (scan_digits 10 none (c ∷ s))

-- `parseInt(s, 10)`
unfoldable pub parse_int_decimal : Text → Option ℤ
parse_int_decimal s = signed_decimal (skip_spaces s)
