-- ===== src/Shared/Decimal.antt =====
-- Numbers in text: `"" + n` for a natural number.
use Prim.Native.Nat.{ℕ, zero, suc, ◌+◌, ◌-◌, ◌*◌, ◌/◌, ◌%◌, ◌≤◌, ◌<◌}
use mathlib.Core.Path.{◌≡◌, refl}
use mathlib.Core.List.{[], ◌∷◌, ◌++◌}
use native.Mathlib.Omega.{arith}
use rocketmq.Shared.Tests.{ltb, if◌then◌else◌}
use rocketmq.Shared.Lists.{All, All-append}
use rocketmq.Shared.Texts.{Text}

-- The fuel bounds the number of digits.
unfoldable pub digits_from : ℕ → ℕ → Text
digits_from zero n = []
digits_from (suc f) n =
    let more = digits_from f (n / 10) ++ (b'0' + n % 10) ∷ [] in
    if ltb n 10 then (b'0' + n) ∷ [] else more

-- `"" + n`
unfoldable pub to_text : ℕ → Text
unfolding digits_from
to_text n = digits_from (n + 1) n

abbrev pub IsDigit : ℕ → Type 0
IsDigit c = (b'0' ≤ c) × (c ≤ b'9')

-- The number that digits spell after the number `n`.
unfoldable pub value : ℕ → Text → ℕ
value n [] = n
value n (c ∷ s) = value (n * 10 + (c - b'0')) s

pub value-append : (n : ℕ) (s t : Text) → value n (s ++ t) ≡ value (value n s) t
unfolding value
value-append n [] t = refl
value-append n (c ∷ s) t = value-append (n * 10 + (c - b'0')) s t

value-digits_from : (f n : ℕ) → n < f → value 0 (digits_from f n) ≡ n
unfolding digits_from value
value-digits_from zero n h = absurd (omega arith)
value-digits_from (suc f) n h = ground (
  arith,
  value-append 0 (digits_from f (n / 10)) ((b'0' + n % 10) ∷ []),
  value-digits_from f (n / 10),
)

digits_from-IsDigit : (f n : ℕ) → All IsDigit (digits_from f n)
unfolding digits_from
digits_from-IsDigit zero n = tt
digits_from-IsDigit (suc f) n =
    let more =
      All-append IsDigit (digits_from f (n / 10)) ((b'0' + n % 10) ∷ [])
        (digits_from-IsDigit f (n / 10)) ((omega arith, omega arith), tt) in
    ground arith

-- A printed number reads back, and its text holds digits only.
pub value-to_text : (n : ℕ) → value 0 (to_text n) ≡ n
unfolding to_text
value-to_text n = value-digits_from (n + 1) n (omega arith)

pub to_text-IsDigit : (n : ℕ) → All IsDigit (to_text n)
unfolding to_text
to_text-IsDigit n = digits_from-IsDigit (n + 1) n
