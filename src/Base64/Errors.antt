-- ===== src/Base64/Errors.antt =====
-- base64.js: what `encode` refuses, and what `decode` can return.
use rocketmq.Shared.{
  ℕ, zero, suc, ◌-◌, ◌*◌, ◌/◌, ◌%◌, ◌<◌, ◌≡◌, ◌≢◌, refl, sym, subst, Bool, true, false, inl, inr,
  ◌↔◌, [], ◌∷◌, ◌++◌, Text, length, take, drop, take-append-drop, length-take, length-drop, All,
  All-append, any, ltb, ◌==◌, if◌then◌else◌, Bool-cases, some, none, Option-cases, arith,
}
use rocketmq.Base64.{
  Result, ok, err, invalid_character, cannot_decode, ◌>>=◌, alpha, index_of, encode_blocks,
  encode_tail, encode, with_getbyte, with_getbyte64, decode_blocks, decode_tail, decode,
}
use rocketmq.Base64.Alphabet.{index_of-lt-length}
use rocketmq.Base64.Blocks.{IsByte, encode_blocks-IsCoded}
use rocketmq.Base64.RoundTrip.{decode-encode}

any-append :
    (s t : Text) → any (ltb 255) (s ++ t) ≡ (if any (ltb 255) s then true else any (ltb 255) t)
any-append [] t = refl
any-append (x ∷ s) t = ground (arith, any-append s t)

All-of-any : (s : Text) → any (ltb 255) s ≡ false → All IsByte s
All-of-any [] h = tt
All-of-any (x ∷ s) h = ground (arith, All-of-any s)

encode_blocks-err :
    (k : ℕ) (p : Text)
    → length p ≡ 3 * k
    → any (ltb 255) p ≡ true
    → encode_blocks p ≡ err invalid_character
unfolding encode_blocks with_getbyte
encode_blocks-err zero [] n h = cc
encode_blocks-err zero (a ∷ p) n h = absurd (omega arith)
encode_blocks-err (suc k) (a ∷ b ∷ c ∷ p) n h = ground (arith, encode_blocks-err k p)
encode_blocks-err (suc k) p n h = absurd (omega arith)

encode_tail-err :
    (q : Text) → length q < 3 → any (ltb 255) q ≡ true → encode_tail q ≡ err invalid_character
unfolding encode_tail with_getbyte
encode_tail-err [] n h = cc
encode_tail-err (x ∷ []) n h = ground arith
encode_tail-err (x ∷ y ∷ []) n h = ground arith
encode_tail-err (x ∷ y ∷ z ∷ q) n h = absurd (omega arith)

parts-err :
    (k : ℕ) (p q : Text)
    → length p ≡ 3 * k
    → length q < 3
    → any (ltb 255) (p ++ q) ≡ true
    → (encode_blocks p >>= λ x. encode_tail q >>= λ y. ok (x ++ y)) ≡ err invalid_character
parts-err k p q n l h = elim (Bool-cases (any (ltb 255) p)) [
  | inl big ↦ rw (encode_blocks-err k p n big)
  | inr small ↦
      let (t, coded) = encode_blocks-IsCoded k p n (All-of-any p small) in
      rw (coded.coded, encode_tail-err q l (ground (arith, any-append p q)))
]

encode-err : (s : Text) → any (ltb 255) s ≡ true → encode s ≡ err invalid_character
unfolding encode
encode-err [] h = cc
encode-err (x ∷ r) h =
    let s : Text = x ∷ r in
    let imax : ℕ = length s - length s % 3 in
    let all : take imax s ++ drop imax s ≡ s = take-append-drop imax s in
    let filled : (length s == 0) ≡ false = ground arith in
    rw filled (
      parts-err (length s / 3) (take imax s) (drop imax s)
        (omega (arith, length-take imax s (omega arith))) (omega (arith, length-drop imax s))
        (rw all h))

decode-encode-err : (s : Text) → (encode s >>= decode) ≡ ok s → encode s ≢ err invalid_character
decode-encode-err s h e = cc (subst (λ r. (r >>= decode) ≡ ok s) e h)

-- `encode` throws exactly when some code unit is above 255.
pub encode-eq-err_iff : (s : Text) → (encode s ≡ err invalid_character) ↔ (any (ltb 255) s ≡ true)
encode-eq-err_iff s = (
  λ e. elim (Bool-cases (any (ltb 255) s)) [
    | inl big ↦ big
    | inr small ↦ absurd (decode-encode-err s (decode-encode s (All-of-any s small)) e)
  ],
  encode-err s,
)

-- A result that holds bytes only, if it is not an exception.
abbrev pub HoldsBytes : Result → Type 0
HoldsBytes (ok t) = All IsByte t
HoldsBytes (err e) = Unit

with_getbyte64-HoldsBytes :
    (c : ℕ) (k : ℕ → Result)
    → ((i : ℕ) → i < 64 → HoldsBytes (k i))
    → HoldsBytes (with_getbyte64 c k)
unfolding with_getbyte64
with_getbyte64-HoldsBytes c k h = elim (Option-cases (index_of c alpha)) [
  | inl missing ↦
      subst (λ o. HoldsBytes (elim o [ none ↦ err cannot_decode | some i ↦ k i ])) (sym missing) tt
  | inr (i, at) ↦
      subst (λ o. HoldsBytes (elim o [ none ↦ err cannot_decode | some i ↦ k i ])) (sym at)
        (h i (index_of-lt-length c alpha at))
]

>>=-HoldsBytes :
    (r : Result) (f : Text → Result)
    → HoldsBytes r
    → ((t : Text) → All IsByte t → HoldsBytes (f t))
    → HoldsBytes (r >>= f)
>>=-HoldsBytes (ok t) f h k = k t h
>>=-HoldsBytes (err e) f h k = tt

decode_blocks-HoldsBytes : (s : Text) → HoldsBytes (decode_blocks s)
unfolding decode_blocks
decode_blocks-HoldsBytes (a ∷ b ∷ c ∷ d ∷ s) = with_getbyte64-HoldsBytes a _ λ x hx.
    with_getbyte64-HoldsBytes b _ λ y hy. with_getbyte64-HoldsBytes c _ λ z hz.
      with_getbyte64-HoldsBytes d _ λ w hw.
        >>=-HoldsBytes (decode_blocks s) _ (decode_blocks-HoldsBytes s)
          λ t h. (omega arith, (omega arith, (omega arith, h)))
decode_blocks-HoldsBytes _ = tt

if-HoldsBytes :
    (b : Bool) (r s : Result) → HoldsBytes r → HoldsBytes s → HoldsBytes (if b then r else s)
if-HoldsBytes true r s h k = h
if-HoldsBytes false r s h k = k

decode_tail-HoldsBytes : (pads : ℕ) (s : Text) → HoldsBytes (decode_tail pads s)
unfolding decode_tail
decode_tail-HoldsBytes pads (a ∷ b ∷ c ∷ s) =
    if-HoldsBytes (pads == 1) _ _
      (with_getbyte64-HoldsBytes a _ λ x hx.
        with_getbyte64-HoldsBytes b _
          λ y hy. with_getbyte64-HoldsBytes c _ λ z hz. (omega arith, (omega arith, tt)))
      (if-HoldsBytes (pads == 2) _ _
        (with_getbyte64-HoldsBytes a _
          λ x hx. with_getbyte64-HoldsBytes b _ λ y hy. (omega arith, tt))
        tt)
decode_tail-HoldsBytes pads _ = tt

-- Whatever `decode` returns is a string of bytes.
pub decode-HoldsBytes : (s : Text) → HoldsBytes (decode s)
unfolding decode
decode-HoldsBytes [] = tt
decode-HoldsBytes (x ∷ r) =
    let filled : (length (x ∷ r) == 0) ≡ false = ground arith in
    rw (filled, if◌then◌else◌)
      (if-HoldsBytes (length (x ∷ r) % 4 == 0) _ _
        (>>=-HoldsBytes _ _ (decode_blocks-HoldsBytes _)
          λ t h. >>=-HoldsBytes _ _ (decode_tail-HoldsBytes _ _) λ u k. All-append IsByte t u h k)
        tt)
