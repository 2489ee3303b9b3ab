-- ===== src/Uri/Encoded.antt =====
-- What `esc` can return: no character of it separates the parts of a URL.
use mathlib.Core.Option
use rocketmq.Shared.{
  ℕ, ◌<◌, ◌≡◌, subst, ◌⊎◌, inl, inr, true, Option, none, some, List, [], ◌∷◌, flat_map, Text, All,
  All-append, Bool-cases, arith, if◌then◌else◌, ◌≢◌, codes, any, ◌==◌, false, refl, clash, ap, ◌∙◌,
}
use rocketmq.Uri.{code_points, utf8, unreserved, percent, esc_point, esc, is_low, is_high}

-- A letter, a digit, `%`, or one of the marks that `encodeURIComponent` keeps.
abbrev pub IsUriChar : ℕ → Type 0
IsUriChar c = (c ≡ b'%') ⊎ (unreserved c ≡ true)

-- A UTF-16 code unit, a code point, a byte.
abbrev pub IsUnit : ℕ → Type 0
IsUnit c = c < 0x10000

abbrev pub IsPoint : ℕ → Type 0
IsPoint p = p < 0x110000

percent-IsUriChar : (b : ℕ) → b < 256 → All IsUriChar (percent b)
unfolding percent unreserved
percent-IsUriChar b h = (inl (omega arith), (inr (ground arith), (inr (ground arith), tt)))

flat_map-percent-IsUriChar :
    (bs : List ℕ) → All (λ b. b < 256) bs → All IsUriChar (flat_map percent bs)
unfolding flat_map
flat_map-percent-IsUriChar [] h = tt
flat_map-percent-IsUriChar (b ∷ bs) (p, h) =
    All-append IsUriChar (percent b) (flat_map percent bs) (percent-IsUriChar b p)
      (flat_map-percent-IsUriChar bs h)

pub utf8-IsByte : (p : ℕ) → IsPoint p → All (λ b. b < 256) (utf8 p)
unfolding utf8
utf8-IsByte p h = ground arith

esc_point-IsUriChar : (p : ℕ) → IsPoint p → All IsUriChar (esc_point p)
unfolding esc_point
esc_point-IsUriChar p h =
    let coded = flat_map-percent-IsUriChar (utf8 p) (utf8-IsByte p h) in
    elim (Bool-cases (unreserved p)) [
      | inl kept ↦ rw (kept, if◌then◌else◌) (inr kept, tt)
      | inr other ↦ rw (other, if◌then◌else◌) coded
    ]

abbrev pub AllPoints : Option (List ℕ) → Type 0
AllPoints none = Unit
AllPoints (some ps) = All IsPoint ps

map-AllPoints :
    (p : ℕ) (o : Option (List ℕ))
    → IsPoint p
    → AllPoints o
    → AllPoints (Option.map (λ ps. p ∷ ps) o)
map-AllPoints p none h k = tt
map-AllPoints p (some ps) h k = (h, k)

pub code_points-AllPoints : (s : Text) → All IsUnit s → AllPoints (code_points s)
unfolding code_points
code_points-AllPoints [] h = tt
code_points-AllPoints (c ∷ []) (p, h) = ground arith
code_points-AllPoints (c ∷ d ∷ s) (p, (q, h)) =
    let one =
      map-AllPoints c (code_points (d ∷ s)) (omega arith) (code_points-AllPoints (d ∷ s) (q, h)) in
    elim (Bool-cases (is_low c)) [
      | inl low ↦ rw (low, if◌then◌else◌) tt
      | inr high ↦ elim (Bool-cases (is_high c)) [
        | inl first ↦ elim (Bool-cases (is_low d)) [
          | inl paired ↦
              rw (high, first, paired, if◌then◌else◌)
                (map-AllPoints _ (code_points s) (ground arith) (code_points-AllPoints s h))
          | inr alone ↦ rw (high, first, alone, if◌then◌else◌) tt
        ]
        | inr plain ↦ rw (high, plain, if◌then◌else◌) one
      ]
    ]

flat_map-esc_point-IsUriChar :
    (ps : List ℕ) → All IsPoint ps → All IsUriChar (flat_map esc_point ps)
unfolding flat_map
flat_map-esc_point-IsUriChar [] h = tt
flat_map-esc_point-IsUriChar (p ∷ ps) (hp, h) =
    All-append IsUriChar (esc_point p) (flat_map esc_point ps) (esc_point-IsUriChar p hp)
      (flat_map-esc_point-IsUriChar ps h)

map_flat-IsUriChar :
    (o : Option (List ℕ)) {t : Text}
    → AllPoints o
    → Option.map (flat_map esc_point) o ≡ some t
    → All IsUriChar t
map_flat-IsUriChar none h e = cc
map_flat-IsUriChar (some ps) {t} h e =
    let same : flat_map esc_point ps ≡ t = cc in
    subst (All IsUriChar) same (flat_map-esc_point-IsUriChar ps h)

-- What `esc` returns holds only unreserved characters and percent signs.
pub esc-IsUriChar : (s : Text) {t : Text} → All IsUnit s → esc s ≡ some t → All IsUriChar t
unfolding esc
esc-IsUriChar s h e = map_flat-IsUriChar (code_points s) (code_points-AllPoints s h) e

-- What separates the parts of a URL, with what no URL and no attribute of HTML may hold.
abbrev pub delimiters : Text
delimiters = codes "/?#&=+;:@,$[]{}|^`<> \"\\"

-- A character that is none of a list.
abbrev pub IsNoneOf : Text → ℕ → Type 0
IsNoneOf ds c = any (λ d. d == c) ds ≡ false

IsUriChar-IsNoneOf :
    (ds : Text) (c : ℕ)
    → All (λ d. (d ≢ b'%') × (unreserved d ≡ false)) ds
    → IsUriChar c
    → IsNoneOf ds c
IsUriChar-IsNoneOf [] c h u = refl
IsUriChar-IsNoneOf (d ∷ ds) c ((p, q), h) u =
    let rest = IsUriChar-IsNoneOf ds c h u in
    elim (Bool-cases (d == c)) [
      | inl same ↦
          let e : d ≡ c = ground arith in
          absurd (elim u [
            | inl percent_sign ↦ p (e ∙ percent_sign)
            | inr kept ↦ clash (ap unreserved e ∙ kept) q
          ])
      | inr other ↦ rw (other) rest
    ]

delimiters-reserved : All (λ d. (d ≢ b'%') × (unreserved d ≡ false)) delimiters
unfolding unreserved
delimiters-reserved = ground arith

All-IsNoneOf : (t : Text) → All IsUriChar t → All (IsNoneOf delimiters) t
All-IsNoneOf [] h = tt
All-IsNoneOf (c ∷ t) (u, h) =
    (IsUriChar-IsNoneOf delimiters c delimiters-reserved u, All-IsNoneOf t h)

-- What `esc` returns for a text of UTF-16 code units holds none of the characters that separate the parts of a
-- URL, such as / ? # & = and +, and no space, quotation mark or angle bracket.
pub esc-IsNoneOf :
    (s : Text) {t : Text} → All IsUnit s → esc s ≡ some t → All (IsNoneOf delimiters) t
esc-IsNoneOf s {t} h e = All-IsNoneOf t (esc-IsUriChar s h e)
