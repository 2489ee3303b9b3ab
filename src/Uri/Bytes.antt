-- ===== src/Uri/Bytes.antt =====
-- `encode_utf8` and `b64_encode_utf8` of prefs.js: the bytes that they make of a string.
use mathlib.Core.Option
use rocketmq.Shared.{
  ℕ, ◌<◌, ◌≡◌, ◌≢◌, refl, ◌∙◌, ap, inl, inr, true, Option, none, some, List, [], ◌∷◌, ◌++◌,
  append_assoc, flat_map, Text, All, All-append, All-weaken, Bool-cases, arith,
}
use rocketmq.Base64.{ok, ◌>>=◌, encode, decode}
use rocketmq.Base64.Blocks.{IsByte}
use rocketmq.Base64.RoundTrip.{decode-encode}
use rocketmq.Uri.{
  code_points, utf8, unreserved, percent, esc_point, esc, unhex, unhex₂, unescape, encode_utf8,
  b64_encode_utf8,
}
use rocketmq.Uri.Encoded.{IsUnit, IsPoint, AllPoints, code_points-AllPoints, utf8-IsByte}

unescape-plain : (c : ℕ) (s : Text) → c ≢ b'%' → unescape (c ∷ s) ≡ c ∷ unescape s
unfolding unescape
unescape-plain c [] h = refl
unescape-plain c (a ∷ []) h = refl
unescape-plain c (a ∷ b ∷ s) h = ground arith

unescape-percent : (b : ℕ) (s : Text) → b < 256 → unescape (percent b ++ s) ≡ b ∷ unescape s
unfolding unescape percent unhex₂ unhex
unescape-percent b s h = ground arith

unescape-percents :
    (bs : List ℕ) (s : Text)
    → All (λ b. b < 256) bs
    → unescape (flat_map percent bs ++ s) ≡ bs ++ unescape s
unfolding flat_map
unescape-percents [] s h = refl
unescape-percents (b ∷ bs) s (p, h) =
    rw (append_assoc, unescape-percent b (flat_map percent bs ++ s) p, unescape-percents bs s h)

utf8-unreserved : (p : ℕ) → unreserved p ≡ true → utf8 p ≡ p ∷ []
unfolding utf8 unreserved
utf8-unreserved p h = let small : p < 128 = ground arith in ground arith

ne-percent-of-unreserved : (p : ℕ) → unreserved p ≡ true → p ≢ b'%'
unfolding unreserved
ne-percent-of-unreserved p h = ground arith

unescape-esc_point :
    (p : ℕ) (s : Text) → IsPoint p → unescape (esc_point p ++ s) ≡ utf8 p ++ unescape s
unfolding esc_point
unescape-esc_point p s h = elim (Bool-cases (unreserved p)) [
  | inl kept ↦
      rw (kept, utf8-unreserved p kept) (unescape-plain p s (ne-percent-of-unreserved p kept))
  | inr coded ↦ rw coded (unescape-percents (utf8 p) s (utf8-IsByte p h))
]

unescape-flat_map :
    (ps : List ℕ) → All IsPoint ps → unescape (flat_map esc_point ps) ≡ flat_map utf8 ps
unfolding flat_map unescape
unescape-flat_map [] h = refl
unescape-flat_map (p ∷ ps) (hp, h) =
    unescape-esc_point p (flat_map esc_point ps) hp ∙ rw (unescape-flat_map ps h)

map-unescape :
    (o : Option (List ℕ))
    → AllPoints o
    → Option.map unescape (Option.map (flat_map esc_point) o) ≡ Option.map (flat_map utf8) o
map-unescape none h = refl
map-unescape (some ps) h = ap some (unescape-flat_map ps h)

-- On a text of UTF-16 code units `encode_utf8` gives the UTF-8 bytes of its code points, and throws where
-- the text has none, at a lone surrogate.
pub encode_utf8-eq-utf8 :
    (s : Text) → All IsUnit s → encode_utf8 s ≡ Option.map (flat_map utf8) (code_points s)
unfolding encode_utf8 esc
encode_utf8-eq-utf8 s h = map-unescape (code_points s) (code_points-AllPoints s h)

flat_map-utf8-IsByte : (ps : List ℕ) → All IsPoint ps → All IsByte (flat_map utf8 ps)
unfolding flat_map
flat_map-utf8-IsByte [] h = tt
flat_map-utf8-IsByte (p ∷ ps) (hp, h) =
    All-append IsByte (utf8 p) (flat_map utf8 ps)
      (All-weaken (λ b k. omega arith) (utf8 p) (utf8-IsByte p hp)) (flat_map-utf8-IsByte ps h)

map-encode :
    (o : Option (List ℕ))
    → AllPoints o
    → Option.map (λ r. r >>= decode) (Option.map encode (Option.map (flat_map utf8) o))
      ≡ Option.map (λ ps. ok (flat_map utf8 ps)) o
map-encode none h = refl
map-encode (some ps) h = ap some (decode-encode (flat_map utf8 ps) (flat_map-utf8-IsByte ps h))

-- The credentials made of a text of UTF-16 code units decode to its UTF-8 bytes: `base64.encode` does
-- not throw on them.
pub decode-b64_encode_utf8 :
    (s : Text)
    → All IsUnit s
    → Option.map (λ r. r >>= decode) (b64_encode_utf8 s)
      ≡ Option.map (λ ps. ok (flat_map utf8 ps)) (code_points s)
unfolding b64_encode_utf8
decode-b64_encode_utf8 s h =
    rw (encode_utf8-eq-utf8 s h) (map-encode (code_points s) (code_points-AllPoints s h))
