-- ===== src/Markup/Lines.antt =====
-- formatters.js: the lines that `fmt_maybe_wrap` makes.
use mathlib.Core.Option
use rocketmq.Shared.{
  some_lem, none_lem, ℕ, zero, suc, ◌+◌, ◌-◌, ◌≤◌, ◌<◌, ◌≡◌, refl, sym, ap, subst, ◌∙◌, arith, inl,
  inr, Bool-cases, Bool, true, ◌&&◌, Option, none, some, [], ◌∷◌, ◌++◌, ◌==◌, ltb, append_assoc,
  length, take, drop, take-append-drop, length-drop, Text, Lacks, if◌then◌else◌,
}
use rocketmq.Requests.Query.{◌>>=◌}
use rocketmq.Markup.Wrap.{wrap, newline_at, cut_at, smaller, round, wrap_from, wrap_text}

-- A text into which line breaks were put.
pub data IsWrapped : Text → Text → Type 0 where
  done : IsWrapped [] []
  same : (c : ℕ) {s t : Text} → IsWrapped s t → IsWrapped (c ∷ s) (c ∷ t)
  broken : {s t : Text} → IsWrapped s t → IsWrapped s (10 ∷ t)

-- Whether each line has at most 120 characters, the first one at most k.
unfoldable pub fits : ℕ → Text → Bool
fits k [] = true
fits k (c ∷ s) =
    let new = fits wrap s in let rest = fits (k - 1) s in if c == 10 then new else ltb 0 k && rest

-- A piece without line breaks, before a line break.
fits-append :
    (body : Text) (k : ℕ) (t : Text)
    → Lacks 10 body
    → length body ≤ k
    → fits wrap t ≡ true
    → fits k (body ++ 10 ∷ t) ≡ true
unfolding fits
fits-append [] k t lacks short h = h
fits-append (c ∷ body) k t (p, lacks) short h =
    ground (arith, fits-append body (k - 1) t lacks (omega arith) h)

body-IsWrapped : (body : Text) {s t : Text} → IsWrapped s t → IsWrapped (body ++ s) (body ++ t)
body-IsWrapped [] h = h
body-IsWrapped (c ∷ body) h = same c (body-IsWrapped body h)

-- A round makes one line, of a piece of the text without line breaks; what is left is shorter.
record Round (txt : Text) (line rest : Text) : Type 0 where
  body : Text
  lacks : Lacks 10 body
  short : length body ≤ wrap
  line_is : line ≡ body ++ 10 ∷ []
  shorter : length rest < length txt
  wrapped : {t : Text} → IsWrapped rest t → IsWrapped txt (body ++ 10 ∷ t)

map-suc : (o : Option ℕ) (i : ℕ) → Option.map suc o ≡ some i → (j : ℕ) × (o ≡ some j) × (suc j ≡ i)
map-suc none i e = absurd cc
map-suc (some j) i e = (j, refl, some_lem e)

-- Before the first line break there is none.
take-Lacks :
    (n : ℕ) (txt : Text) → ((i : ℕ) → newline_at txt ≡ some i → n ≤ i) → Lacks 10 (take n txt)
unfolding newline_at
take-Lacks zero txt h = tt
take-Lacks (suc n) [] h = tt
take-Lacks (suc n) (c ∷ s) h = elim (Bool-cases (c == 10)) [
  | inl here ↦ let impossible : suc n ≤ 0 = h 0 (rw (here) refl) in absurd (omega arith)
  | inr other ↦ (
    ground arith,
    take-Lacks n s
        (λ i e. let later : suc n ≤ suc i = h (suc i) (rw (other, e) refl) in omega arith),
  )
]

-- The text up to the first line break, and what follows it.
Splits : Text → ℕ → Type 0
Splits txt i =
    (txt ≡ take i txt ++ (10 ∷ drop (i + 1) txt)) × (take (i + 1) txt ≡ take i txt ++ 10 ∷ [])

here_lem : (c : ℕ) (s : Text) → c ≡ 10 → Splits (c ∷ s) 0
unfolding Splits
here_lem c s e = (ap (λ x. x ∷ s) e, ap (λ x. x ∷ []) e)

later_lem : (c : ℕ) (s : Text) (i : ℕ) → Splits s i → Splits (c ∷ s) (suc i)
unfolding Splits
later_lem c s i (e1, e2) =
    let k : suc i + 1 ≡ suc (i + 1) = omega arith in rw (k) (ap (λ t. c ∷ t) e1, ap (λ t. c ∷ t) e2)

newline_lem : (txt : Text) (i : ℕ) → newline_at txt ≡ some i → Splits txt i
unfolding newline_at
newline_lem [] i e = absurd cc
newline_lem (c ∷ s) i e = elim (Bool-cases (c == 10)) [
  | inl here ↦ subst (Splits (c ∷ s)) (some_lem (rw here at e)) (here_lem c s (ground arith))
  | inr other ↦
      let (j, found, is_suc) = map-suc (newline_at s) i (rw other at e) in
      subst (Splits (c ∷ s)) is_suc (later_lem c s j (newline_lem s j found))
]

take_short : (n : ℕ) (txt : Text) → length (take n txt) ≤ n
take_short zero txt = omega arith
take_short (suc n) [] = omega arith
take_short (suc n) (c ∷ s) = omega (arith, take_short n s)

cut-Round :
    (txt : Text) (n : ℕ)
    → 0 < n
    → n ≤ wrap
    → n ≤ length txt
    → ((i : ℕ) → newline_at txt ≡ some i → n ≤ i)
    → Round txt (cut_at n txt).0 (cut_at n txt).1
cut-Round txt n pos low within before = record {
  body = take n txt;
  lacks = take-Lacks n txt before;
  short = omega (arith, take_short n txt);
  line_is = refl;
  shorter = omega (arith, length-drop n txt);
  wrapped = λ {t} h.
      subst (λ x. IsWrapped x (take n txt ++ 10 ∷ t)) (take-append-drop n txt)
        (body-IsWrapped (take n txt) (broken h));
}

line-Round :
    (txt : Text) (i : ℕ)
    → newline_at txt ≡ some i
    → i ≤ wrap
    → 0 < length txt
    → Round txt (take (i + 1) txt) (drop (i + 1) txt)
unfolding Splits
line-Round txt i found low filled = record {
  body = take i txt;
  lacks = take-Lacks i txt (λ j e. let same : i ≡ j = some_lem (sym found ∙ e) in omega arith);
  short = omega (arith, take_short i txt);
  line_is = (newline_lem txt i found).1;
  shorter = omega (arith, length-drop (i + 1) txt);
  wrapped = λ {t} h.
      subst (λ x. IsWrapped x (take i txt ++ 10 ∷ t)) (sym (newline_lem txt i found).0)
        (body-IsWrapped (take i txt) (same 10 h));
}

smaller_lem : (m n : ℕ) → 0 < m → 0 < n → (0 < smaller m n) × (smaller m n ≤ m) × (smaller m n ≤ n)
smaller_lem m n p q = ground arith

round-Round :
    (txt : Text) (o : Option ℕ)
    → 0 < length txt
    → newline_at txt ≡ o
    → Round txt (round o txt).0 (round o txt).1
unfolding round
round-Round txt none filled e =
    let (pos, low, within) = smaller_lem wrap (length txt) (omega arith) filled in
    cut-Round txt (smaller wrap (length txt)) pos low within (λ i found. none_lem (sym e ∙ found))
round-Round txt (some i) filled e = elim (Bool-cases (ltb wrap i)) [
  | inl far ↦
      let (pos, low, within) = smaller_lem wrap (length txt) (omega arith) filled in
      rw (far) (
        cut-Round txt (smaller wrap (length txt)) pos low within
          (λ j found. let same_place : i ≡ j = some_lem (sym e ∙ found) in ground arith))
  | inr near ↦ rw (near) (line-Round txt i e (ground arith) filled)
]

added_lem :
    (o : Option Text) (line body t : Text)
    → o ≡ some t
    → line ≡ body ++ 10 ∷ []
    → (o >>= λ u. some (line ++ u)) ≡ some (body ++ 10 ∷ t)
added_lem o line body t returns line_is =
    rw (returns, line_is) (ap some (append_assoc body (10 ∷ []) t))

wrap_from-lines :
    (fuel : ℕ) (txt : Text)
    → length txt ≤ fuel
    → (t : Text) × (wrap_from fuel txt ≡ some t) × (fits wrap t ≡ true) × IsWrapped txt t
unfolding wrap_from fits
wrap_from-lines fuel [] enough = ([], refl, refl, done)
wrap_from-lines zero (c ∷ s) enough = absurd (omega arith)
wrap_from-lines (suc fuel) (c ∷ s) enough =
    let r = round-Round (c ∷ s) (newline_at (c ∷ s)) (omega arith) refl in
    let rest = (round (newline_at (c ∷ s)) (c ∷ s)).1 in
    let (t, returns, short, wrapped) = wrap_from-lines fuel rest (omega (arith, r.shorter)) in
    (
      r.body ++ 10 ∷ t,
      added_lem (wrap_from fuel rest) _ r.body t returns r.line_is,
      fits-append r.body wrap t r.lacks r.short short,
      r.wrapped wrapped,
    )

-- The loop of fmt_maybe_wrap ends on every text, with lines of at most 120 characters: the text with line
-- breaks put into it.
pub wrap_text-lines :
    (txt : Text) → (t : Text) × (wrap_text txt ≡ some t) × (fits wrap t ≡ true) × IsWrapped txt t
unfolding wrap_text
wrap_text-lines txt = wrap_from-lines (length txt) txt (omega arith)
