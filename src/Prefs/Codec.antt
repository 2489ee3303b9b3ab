-- ===== src/Prefs/Codec.antt =====
-- prefs.js: `unescape` after `escape`, and what an escaped text can hold.
use rocketmq.Shared.{
  ℕ, ◌<◌, ◌≡◌, ◌≢◌, ◌⊎◌, inl, inr, ◌∙◌, ◌+◌, ◌*◌, ◌/◌, ◌%◌, ltb, refl, ap, true, none, some, [],
  ◌∷◌, ◌++◌, flat_map, Text, All, All-append, Bool-cases, arith,
}
use rocketmq.Uri.{hex, percent, unhex, unhex₂}
use rocketmq.Uri.Encoded.{IsUnit}
use rocketmq.Prefs.Escape.{
  is_kept, percent_u, escape_unit, escape, two_digits, u_digits, decoded, unescape_from, unescape,
}

decoded-kept : (c : ℕ) (s : Text) → is_kept c ≡ true → decoded c s ≡ (c, 0)
unfolding decoded is_kept
decoded-kept c s h = ground arith

unhex-hex : (n : ℕ) → n < 16 → unhex (hex n) ≡ some n
unfolding unhex
unhex-hex n h = ground arith

unhex₂-hex : (a b : ℕ) → a < 16 → b < 16 → unhex₂ (hex a) (hex b) ≡ some (a * 16 + b)
unfolding unhex₂
unhex₂-hex a b ha hb = rw (unhex-hex a ha, unhex-hex b hb, unhex₂) refl

hex-ne-u : (n : ℕ) → n < 16 → hex n ≢ b'u'
hex-ne-u n h = ground arith

u_digits-of-ne : (u : ℕ) (s : Text) → u ≢ b'u' → u_digits (u ∷ s) ≡ none
unfolding u_digits
u_digits-of-ne u [] h = refl
u_digits-of-ne u (a ∷ []) h = refl
u_digits-of-ne u (a ∷ b ∷ []) h = refl
u_digits-of-ne u (a ∷ b ∷ c ∷ []) h = refl
u_digits-of-ne u (a ∷ b ∷ c ∷ d ∷ s) h = ground arith

decoded-percent :
    (a b : ℕ) (s : Text) → a < 16 → b < 16 → decoded b'%' (hex a ∷ hex b ∷ s) ≡ (a * 16 + b, 2)
unfolding decoded two_digits
decoded-percent a b s ha hb =
    rw (u_digits-of-ne (hex a) (hex b ∷ s) (hex-ne-u a ha), unhex₂-hex a b ha hb) refl

decoded-percent_u :
    (a b c d : ℕ) (s : Text)
    → a < 16
    → b < 16
    → c < 16
    → d < 16
    → decoded b'%' (b'u' ∷ hex a ∷ hex b ∷ hex c ∷ hex d ∷ s)
      ≡ ((a * 16 + b) * 256 + (c * 16 + d), 5)
unfolding decoded u_digits
decoded-percent_u a b c d s ha hb hc hd = rw (unhex₂-hex a b ha hb, unhex₂-hex c d hc hd) refl

unescape_from-percent :
    (c : ℕ) (s : Text) → c < 256 → unescape_from 0 (percent c ++ s) ≡ c ∷ unescape_from 0 s
unfolding unescape_from percent
unescape_from-percent c s h =
    let whole : c / 16 * 16 + c % 16 ≡ c = omega arith in
    rw (decoded-percent (c / 16) (c % 16) s (omega arith) (omega arith))
      (ap (λ x. x ∷ unescape_from 0 s) whole)

unescape_from-percent_u :
    (c : ℕ) (s : Text) → IsUnit c → unescape_from 0 (percent_u c ++ s) ≡ c ∷ unescape_from 0 s
unfolding unescape_from percent_u
unescape_from-percent_u c s h =
    let whole : (c / 4096 * 16 + c / 256 % 16) * 256 + (c / 16 % 16 * 16 + c % 16) ≡ c =
      omega arith in
    rw
      (decoded-percent_u (c / 4096) (c / 256 % 16) (c / 16 % 16) (c % 16) s (omega arith)
        (omega arith) (omega arith) (omega arith))
      (ap (λ x. x ∷ unescape_from 0 s) whole)

unescape_from-escape_unit :
    (c : ℕ) (s : Text) → IsUnit c → unescape_from 0 (escape_unit c ++ s) ≡ c ∷ unescape_from 0 s
unfolding escape_unit unescape_from
unescape_from-escape_unit c s h = elim (Bool-cases (is_kept c)) [
  | inl kept ↦ rw (kept, decoded-kept c s kept) refl
  | inr coded ↦ elim (Bool-cases (ltb c 256)) [
    | inl small ↦ rw (coded, small) (unescape_from-percent c s (ground arith))
    | inr large ↦ rw (coded, large) (unescape_from-percent_u c s h)
  ]
]

-- Unescaping an escaped text gives it back.
pub unescape-escape : (s : Text) → All IsUnit s → unescape (escape s) ≡ s
unfolding unescape escape flat_map unescape_from
unescape-escape [] h = refl
unescape-escape (c ∷ s) (p, h) =
    unescape_from-escape_unit c (flat_map escape_unit s) p ∙ ap (λ t. c ∷ t) (unescape-escape s h)

-- A character that `escape` writes.
abbrev pub IsCookieChar : ℕ → Type 0
IsCookieChar c = (c ≡ b'%') ⊎ (is_kept c ≡ true)

hex-IsCookieChar : (n : ℕ) → n < 16 → IsCookieChar (hex n)
unfolding is_kept
hex-IsCookieChar n h = inr (ground arith)

u-IsCookieChar : IsCookieChar b'u'
unfolding is_kept
u-IsCookieChar = inr refl

escape_unit-IsCookieChar : (c : ℕ) → IsUnit c → All IsCookieChar (escape_unit c)
unfolding escape_unit percent percent_u
escape_unit-IsCookieChar c h = elim (Bool-cases (is_kept c)) [
  | inl kept ↦ rw (kept) (inr kept, tt)
  | inr coded ↦ elim (Bool-cases (ltb c 256)) [
    | inl small ↦
        let byte : c < 256 = ground arith in
        rw (coded, small)
          (
            inl refl,
            (
              hex-IsCookieChar (c / 16) (omega arith),
              (hex-IsCookieChar (c % 16) (omega arith), tt),
            ),
          )
    | inr large ↦
        rw (coded, large)
          (
            inl refl,
            (
              u-IsCookieChar,
              (
                hex-IsCookieChar (c / 4096) (omega arith),
                (
                  hex-IsCookieChar (c / 256 % 16) (omega arith),
                  (
                    hex-IsCookieChar (c / 16 % 16) (omega arith),
                    (hex-IsCookieChar (c % 16) (omega arith), tt),
                  ),
                ),
              ),
            ),
          )
  ]
]

pub escape-IsCookieChar : (s : Text) → All IsUnit s → All IsCookieChar (escape s)
unfolding escape flat_map
escape-IsCookieChar [] h = tt
escape-IsCookieChar (c ∷ s) (p, h) =
    All-append IsCookieChar (escape_unit c) (escape s) (escape_unit-IsCookieChar c p)
      (escape-IsCookieChar s h)
