-- ===== src/Base64/RoundTrip.antt =====
-- base64.js: `decode` after `encode`.
use rocketmq.Shared.{
  ℕ, zero, suc, ◌+◌, ◌-◌, ◌*◌, ◌/◌, ◌%◌, ◌^◌, ◌<◌, ◌≡◌, ◌≢◌, refl, ◌∙◌, ap, true, false, List, [],
  ◌∷◌, ◌++◌, append-nil, Text, length, length-append, get_elem?, take, drop, take-append-drop,
  length-take, length-drop, take-append-length, drop-append-length, All, All-append_left,
  All-append_right, ◌==◌, if◌then◌else◌, arith,
}
use rocketmq.Base64.{
  ok, ◌>>=◌, padchar, encode_blocks, encode_tail, encode, decode_blocks, decode_tail, is_pad,
  count_pads, decode,
}
use rocketmq.Base64.Alphabet.{letter}
use rocketmq.Base64.Blocks.{
  IsByte, IsPlain, with_getbyte-of-IsByte, with_getbyte64-of-IsLetter, IsCoded,
  encode_blocks-IsCoded,
}

get_elem?-append_right {ℓ} :
    {A : Type ℓ} (t u : List A) (i : ℕ) → get_elem? (t ++ u) (length t + i) ≡ get_elem? u i
get_elem?-append_right [] u i = let e : 0 + i ≡ i = omega arith in rw e
get_elem?-append_right (x ∷ t) u i =
    let e : suc (length t) + i ≡ suc (length t + i) = omega arith in
    rw e (get_elem?-append_right t u i)

is_pad-append_right : (t u : Text) (i : ℕ) → is_pad (t ++ u) (length t + i) ≡ is_pad u i
unfolding is_pad
is_pad-append_right t u i = rw (get_elem?-append_right t u i, is_pad)

is_pad-plain : (t : Text) (i : ℕ) → All IsPlain t → is_pad t i ≡ false
unfolding is_pad
is_pad-plain [] i h = refl
is_pad-plain (c ∷ t) zero (p, h) = ground arith
is_pad-plain (c ∷ t) (suc i) (p, h) = is_pad-plain t i h

-- The decoder on text whose parts before and in the last block are known.
decode_parts :
    (t u : Text) (pads : ℕ)
    → count_pads (t ++ u) ≡ pads
    → length u ≡ (if pads == 0 then 0 else 4)
    → length (t ++ u) ≢ 0
    → length (t ++ u) % 4 ≡ 0
    → decode (t ++ u) ≡ (decode_blocks t >>= λ x. decode_tail pads u >>= λ y. ok (x ++ y))
unfolding decode
decode_parts t u pads counted size some_text whole =
    let imax : (if pads == 0 then length (t ++ u) else length (t ++ u) - 4) ≡ length t =
      ground (arith, length-append t u) in
    let filled : (length (t ++ u) == 0) ≡ false = ground arith in
    let multiple : (length (t ++ u) % 4 == 0) ≡ true = ground arith in
    rw (counted, filled, multiple, imax, take-append-length t u, drop-append-length t u)

-- Text without padding: all blocks are whole.
decode_plain :
    (k : ℕ) (t p : Text)
    → length t ≡ 4 * suc k
    → All IsPlain t
    → decode_blocks t ≡ ok p
    → decode t ≡ ok p
unfolding count_pads decode_tail
decode_plain k t p size plain e =
    let nil : t ++ [] ≡ t = append-nil t in
    let counted : count_pads (t ++ []) ≡ 0 = rw (nil, is_pad-plain t (length t - 1) plain) in
    let parts = decode_parts t [] 0 counted refl (rw nil (omega arith)) (rw nil (omega arith)) in
    rw (← nil) (parts ∙ rw (e, append-nil))

count_pads-padded :
    (t : Text) (a b c : ℕ)
    → count_pads (t ++ a ∷ b ∷ c ∷ padchar ∷ []) ≡ (if c == padchar then 2 else 1)
unfolding count_pads is_pad
count_pads-padded t a b c =
    let u : Text = a ∷ b ∷ c ∷ padchar ∷ [] in
    let n : length (t ++ u) ≡ length t + 4 = length-append t u in
    let last : length (t ++ u) - 1 ≡ length t + 3 = omega arith in
    let before : length (t ++ u) - 2 ≡ length t + 2 = omega arith in
    let three : is_pad (t ++ u) (length t + 3) ≡ true = is_pad-append_right t u 3 in
    let two : is_pad (t ++ u) (length t + 2) ≡ (c == padchar) = is_pad-append_right t u 2 in
    rw (last, before, three, two)

decode_padded :
    (k : ℕ) (t p : Text) (a b c : ℕ)
    → length t ≡ 4 * k
    → decode_blocks t ≡ ok p
    → decode (t ++ a ∷ b ∷ c ∷ padchar ∷ []) ≡ (
        decode_tail (if c == padchar then 2 else 1) (a ∷ b ∷ c ∷ padchar ∷ []) >>= λ y. ok (p ++ y))
decode_padded k t p a b c size e =
    let u : Text = a ∷ b ∷ c ∷ padchar ∷ [] in
    let n : length (t ++ u) ≡ length t + 4 = length-append t u in
    let four : 4 ≡ (if (if c == padchar then 2 else 1) == 0 then 0 else 4) = ground arith in
    let parts = decode_parts t u _ (count_pads-padded t a b c) four (omega arith) (omega arith) in
    parts ∙ rw e

-- What the encoder makes of the last one or two bytes, and that the decoder reads it back.
record IsEnd (q : Text) (a b c : ℕ) : Type 0 where
  coded : encode_tail q ≡ ok (a ∷ b ∷ c ∷ padchar ∷ [])
  decoded : decode_tail (if c == padchar then 2 else 1) (a ∷ b ∷ c ∷ padchar ∷ []) ≡ ok q

one_byte : (x : ℕ) → IsByte x → (a : ℕ) × (b : ℕ) × IsEnd (x ∷ []) a b padchar
unfolding encode_tail decode_tail
one_byte x h =
    let n : ℕ = x * 2 ^ 16 in
    let (a, la) = letter (n / 2 ^ 18) (omega arith) in
    let (b, lb) = letter (n / 2 ^ 12 % 64) (omega arith) in
    let first : (n / 2 ^ 18 * 2 ^ 18 + n / 2 ^ 12 % 64 * 2 ^ 12) / 2 ^ 16 ≡ x = omega arith in
    (
      a,
      b,
      record {
        coded = rw (with_getbyte-of-IsByte x _ h, la.shown, lb.shown);
        decoded =
            rw (with_getbyte64-of-IsLetter _ a _ la, with_getbyte64-of-IsLetter _ b _ lb, first);
      },
    )

two_bytes : (x y : ℕ) → IsByte x → IsByte y → (a : ℕ) × (b : ℕ) × (c : ℕ) × IsEnd (x ∷ y ∷ []) a b c
unfolding encode_tail decode_tail
two_bytes x y h k =
    let n : ℕ = x * 2 ^ 16 + y * 2 ^ 8 in
    let (a, la) = letter (n / 2 ^ 18) (omega arith) in
    let (b, lb) = letter (n / 2 ^ 12 % 64) (omega arith) in
    let (c, lc) = letter (n / 2 ^ 6 % 64) (omega arith) in
    let m : ℕ = n / 2 ^ 18 * 2 ^ 18 + n / 2 ^ 12 % 64 * 2 ^ 12 + n / 2 ^ 6 % 64 * 2 ^ 6 in
    let first : m / 2 ^ 16 ≡ x = omega arith in
    let second : m / 2 ^ 8 % 256 ≡ y = omega arith in
    let plain : (c == padchar) ≡ false = ground (arith, lc.plain) in
    (
      a,
      b,
      c,
      record {
        coded = rw (
          with_getbyte-of-IsByte x _ h,
          with_getbyte-of-IsByte y _ k,
          la.shown,
          lb.shown,
          lc.shown,
        );
        decoded = rw (
          plain,
          with_getbyte64-of-IsLetter _ a _ la,
          with_getbyte64-of-IsLetter _ b _ lb,
          with_getbyte64-of-IsLetter _ c _ lc,
          first,
          second,
        );
      },
    )

decode-IsEnd :
    (k : ℕ) (p t q : Text) {a b c : ℕ}
    → IsCoded k p t
    → IsEnd q a b c
    → ((encode_blocks p >>= λ x. encode_tail q >>= λ y. ok (x ++ y)) >>= decode) ≡ ok (p ++ q)
decode-IsEnd k p t q {a} {b} {c} h e =
    rw (h.coded, e.coded) (decode_padded k t p a b c h.size h.decoded ∙ rw e.decoded)

-- Whole blocks, then fewer than three bytes; not both empty.
decode-parts :
    (k : ℕ) (p q : Text)
    → length p ≡ 3 * k
    → length q < 3
    → 0 < length (p ++ q)
    → All IsByte p
    → All IsByte q
    → ((encode_blocks p >>= λ x. encode_tail q >>= λ y. ok (x ++ y)) >>= decode) ≡ ok (p ++ q)
unfolding encode_tail
decode-parts zero [] [] n l s hp hq = absurd (omega arith)
decode-parts zero (x ∷ p) [] n l s hp hq = absurd (omega arith)
decode-parts (suc k) p [] n l s hp hq =
    let (t, h) = encode_blocks-IsCoded (suc k) p n hp in
    rw (h.coded, append-nil t, append-nil p) (decode_plain k t p h.size h.plain h.decoded)
decode-parts k p (x ∷ []) n l s hp (hx, _) =
    let (t, h) = encode_blocks-IsCoded k p n hp in
    let (a, b, e) = one_byte x hx in decode-IsEnd k p t (x ∷ []) h e
decode-parts k p (x ∷ y ∷ []) n l s hp (hx, (hy, _)) =
    let (t, h) = encode_blocks-IsCoded k p n hp in
    let (a, b, c, e) = two_bytes x y hx hy in decode-IsEnd k p t (x ∷ y ∷ []) h e
decode-parts k p (x ∷ y ∷ z ∷ q) n l s hp hq = absurd (omega arith)

-- Encoding a string of bytes never throws, and decoding the result gives the string back.
pub decode-encode : (s : Text) → All IsByte s → (encode s >>= decode) ≡ ok s
unfolding encode decode
decode-encode [] h = refl
decode-encode (x ∷ r) h =
    let s : Text = x ∷ r in
    let k : ℕ = length s / 3 in
    let imax : ℕ = length s - length s % 3 in
    let all : take imax s ++ drop imax s ≡ s = take-append-drop imax s in
    let parts =
      decode-parts k (take imax s) (drop imax s) (omega (arith, length-take imax s (omega arith)))
        (omega (arith, length-drop imax s)) (rw all (omega arith))
        (All-append_left IsByte (take imax s) (drop imax s) (rw all h))
        (All-append_right IsByte (take imax s) (drop imax s) (rw all h)) in
    let filled : (length s == 0) ≡ false = ground arith in rw filled (parts ∙ ap ok all)
