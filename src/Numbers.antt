-- ===== src/Numbers.antt =====
-- formatters.js: numbers with commas between their thousands.
use rocketmq.Shared.{
  ℕ, zero, suc, ◌-◌, ◌≤◌, ◌≡◌, refl, sym, ap, ◌∙◌, arith, true, false, not, [], ◌∷◌, ◌++◌, ltb,
  ◌==◌, Text, take, drop, take-append-drop, length, filter, if◌then◌else◌, Bool-cases, inl, inr,
  Lacks,
}

-- `fmt_num_thousands_unfixed` on the text of a number, with a count of rounds that is at least its length
unfoldable pub group_from : ℕ → Text → Text
group_from zero num = num
group_from (suc f) num =
    let k = length num - 3 in
    let rest = group_from f (take k num) in
    if ltb (length num) 4 then num else rest ++ (b',' ∷ drop k num)

-- `fmt_num_thousands_unfixed(num)`
unfoldable pub fmt_num_thousands_unfixed : Text → Text
unfolding group_from
fmt_num_thousands_unfixed num = group_from (length num) num

-- A text without its commas.
abbrev pub digits_of : Text → Text
digits_of = filter λ c. not (c == b',')

filter-append : (s t : Text) → digits_of (s ++ t) ≡ digits_of s ++ digits_of t
filter-append [] t = refl
filter-append (c ∷ s) t = rw (filter-append s t) (ground arith)

digits_of-Lacks : (s : Text) → Lacks b',' s → digits_of s ≡ s
digits_of-Lacks [] h = refl
digits_of-Lacks (c ∷ s) (p, h) = rw (digits_of-Lacks s h) (ground arith)

-- Grouping adds nothing but commas, whatever the count of rounds is.
digits_of-group_from : (f : ℕ) (num : Text) → digits_of (group_from f num) ≡ digits_of num
unfolding group_from
digits_of-group_from zero num = refl
digits_of-group_from (suc f) num = elim (Bool-cases (ltb (length num) 4)) [
  | inl short ↦ rw (short) refl
  | inr long ↦
      let k = length num - 3 in
      rw (long) (
        filter-append (group_from f (take k num)) (b',' ∷ drop k num)
        ∙ (ap (λ s. s ++ digits_of (drop k num)) (digits_of-group_from f (take k num))
            ∙ (sym (filter-append (take k num) (drop k num))
                ∙ ap digits_of (take-append-drop k num))))
]

length-take_lem : (k : ℕ) (s : Text) → length (take k s) ≤ k
length-take_lem zero s = omega arith
length-take_lem (suc k) [] = omega arith
length-take_lem (suc k) (c ∷ s) = let rest = length-take_lem k s in omega arith

short_lem : (num : Text) → length num ≤ 0 → ltb (length num) 4 ≡ true
short_lem num h = ground arith

-- More rounds than the length make no difference.
group_from-enough :
    (f g : ℕ) (num : Text) → length num ≤ f → length num ≤ g → group_from f num ≡ group_from g num
unfolding group_from
group_from-enough zero zero num h k = refl
group_from-enough zero (suc g) num h k = rw (short_lem num (omega arith)) refl
group_from-enough (suc f) zero num h k = rw (short_lem num (omega arith)) refl
group_from-enough (suc f) (suc g) num h k = elim (Bool-cases (ltb (length num) 4)) [
  | inl short ↦ rw (short) refl
  | inr long ↦
      let m = length num - 3 in
      let part = length-take_lem m num in
      let four : 4 ≤ length num = ground arith in
      rw (long, group_from-enough f g (take m num) (omega arith) (omega arith)) refl
]

-- The text of a number without the commas that `fmt_num_thousands_unfixed` puts is the text of the number,
-- where this has none.
pub digits_of-fmt_num_thousands_unfixed :
    (num : Text) → Lacks b',' num → digits_of (fmt_num_thousands_unfixed num) ≡ num
unfolding fmt_num_thousands_unfixed
digits_of-fmt_num_thousands_unfixed num h =
    digits_of-group_from (length num) num ∙ digits_of-Lacks num h

-- The recursion of the source, for a text of four characters or more.
pub fmt_num_thousands_unfixed-long :
    (num : Text)
    → 4 ≤ length num
    → fmt_num_thousands_unfixed num
      ≡ fmt_num_thousands_unfixed (take (length num - 3) num) ++ (b',' ∷ drop (length num - 3) num)
unfolding fmt_num_thousands_unfixed group_from
fmt_num_thousands_unfixed-long num h =
    let k = length num - 3 in
    let part = length-take_lem k num in
    let long : ltb (length num) 4 ≡ false = ground arith in
    group_from-enough (length num) (suc (length num)) num (omega arith) (omega arith)
    ∙ rw
        (
          long,
          group_from-enough (length num) (length (take k num)) (take k num) (omega arith)
              (omega arith),
        )
        refl
