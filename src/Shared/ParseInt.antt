-- ===== src/Shared/ParseInt.antt =====
-- `parseInt` of a printed number.
use Prim.Native.Nat.{ℕ, ◌+◌, ◌-◌, ◌*◌, ◌/◌, ◌%◌}
use mathlib.Core.Path.{◌≡◌, refl, ap, ◌∙◌, subst}
use mathlib.Core.Logic.{◌≢◌}
use mathlib.Core.Bool.{false}
use mathlib.Core.List.{[], ◌∷◌, ◌++◌}
use mathlib.Core.Option.{none, some}
use native.Mathlib.Omega.{arith}
use rocketmq.Shared.Tests.{ltb, ◌==◌, if_elim}
use rocketmq.Shared.Lists.{All}
use rocketmq.Shared.Texts.{Text}
use rocketmq.Shared.Decimal.{to_text, value, value-to_text, to_text-IsDigit, IsDigit, digits_from}
use rocketmq.Shared.Ints.{pos, digit, scan_digits, is_space, skip_spaces, parse_int_decimal}

digit-of-IsDigit : (c : ℕ) → IsDigit c → digit 10 c ≡ some (c - b'0')
unfolding digit
digit-of-IsDigit c h = ground arith

scan_digits-value :
    (a : ℕ) (s : Text) → All IsDigit s → scan_digits 10 (some a) s ≡ some (value a s)
unfolding scan_digits value
scan_digits-value a [] h = refl
scan_digits-value a (c ∷ s) (p, h) =
    rw (digit-of-IsDigit c p, scan_digits) (scan_digits-value (a * 10 + (c - b'0')) s h)

snoc-ne-nil : (s : Text) (c : ℕ) → s ++ c ∷ [] ≢ []
snoc-ne-nil [] c = ground arith
snoc-ne-nil (a ∷ s) c = ground arith

digits_from-ne-nil : (f n : ℕ) → digits_from (Prim.Native.Nat.suc f) n ≢ []
unfolding digits_from
digits_from-ne-nil f n = if_elim (λ t. t ≢ []) (ltb n 10) _ _ (ground arith) (snoc-ne-nil _ _)

to_text-ne-nil : (n : ℕ) → to_text n ≢ []
unfolding to_text
to_text-ne-nil n =
    let more : Prim.Native.Nat.suc n ≡ n + 1 = omega arith in
    subst (λ m. digits_from m n ≢ []) more (digits_from-ne-nil n n)

digit-is-solid :
    (c : ℕ) → IsDigit c → (is_space c ≡ false) × ((c == b'-') ≡ false) × ((c == b'+') ≡ false)
unfolding is_space
digit-is-solid c h = (ground arith, ground arith, ground arith)

-- A text of digits that is not empty is read as its value.
parse_int_decimal-digits :
    (s : Text) → s ≢ [] → All IsDigit s → parse_int_decimal s ≡ some (pos (value 0 s))
unfolding parse_int_decimal skip_spaces value scan_digits
parse_int_decimal-digits [] ne h = absurd (ne refl)
parse_int_decimal-digits (c ∷ s) ne (p, h) =
    let (solid, minus, plus) = digit-is-solid c p in
    let read : scan_digits 10 none (c ∷ s) ≡ some (value (c - b'0') s) =
      rw (digit-of-IsDigit c p, scan_digits) (scan_digits-value (c - b'0') s h) in
    let start : c - b'0' ≡ 0 + (c - b'0') = omega arith in
    rw (solid, minus, plus, read, skip_spaces, parse_int_decimal)
      (ap (λ a. some (pos (value a s))) start)

pub parse_int_decimal-to_text : (n : ℕ) → parse_int_decimal (to_text n) ≡ some (pos n)
parse_int_decimal-to_text n =
    parse_int_decimal-digits (to_text n) (to_text-ne-nil n) (to_text-IsDigit n)
    ∙ ap (λ m. some (pos m)) (value-to_text n)
