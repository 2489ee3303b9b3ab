-- ===== src/Base64/Blocks.antt =====
-- base64.js: the whole blocks of three bytes and four characters.
use rocketmq.Shared.{
  ℕ, zero, suc, ◌+◌, ◌*◌, ◌/◌, ◌%◌, ◌^◌, ◌≤◌, ◌≡◌, ◌≢◌, refl, [], ◌∷◌, ◌++◌, Text, length, All,
  arith,
}
use rocketmq.Base64.{
  Result, ok, ◌>>=◌, padchar, quad, with_getbyte, encode_blocks, with_getbyte64, decode_blocks,
}
use rocketmq.Base64.Alphabet.{IsLetter, letter}

abbrev pub IsByte : ℕ → Type 0
IsByte x = x ≤ 255

abbrev pub IsPlain : ℕ → Type 0
IsPlain c = c ≢ padchar

pub with_getbyte-of-IsByte : (a : ℕ) (k : ℕ → Result) → IsByte a → with_getbyte a k ≡ k a
unfolding with_getbyte
with_getbyte-of-IsByte a k h = ground arith

pub with_getbyte64-of-IsLetter :
    (i c : ℕ) (k : ℕ → Result) → IsLetter i c → with_getbyte64 c k ≡ k i
unfolding with_getbyte64
with_getbyte64-of-IsLetter i c k h = rw (h.found, with_getbyte64)

-- The four characters of a block, and the four values that they stand for.
record Quad (a b c : ℕ) : Type 0 where
  d : ℕ
  e : ℕ
  f : ℕ
  g : ℕ
  x : ℕ
  y : ℕ
  z : ℕ
  w : ℕ
  text : quad a b c ≡ d ∷ e ∷ f ∷ g ∷ []
  letter_d : IsLetter x d
  letter_e : IsLetter y e
  letter_f : IsLetter z f
  letter_g : IsLetter w g
  first : (x * 2 ^ 18 + y * 2 ^ 12 + z * 2 ^ 6 + w) / 2 ^ 16 ≡ a
  second : (x * 2 ^ 18 + y * 2 ^ 12 + z * 2 ^ 6 + w) / 2 ^ 8 % 256 ≡ b
  third : (x * 2 ^ 18 + y * 2 ^ 12 + z * 2 ^ 6 + w) % 256 ≡ c

quad_lem : (a b c : ℕ) → IsByte a → IsByte b → IsByte c → Quad a b c
unfolding quad
quad_lem a b c ha hb hc =
    let n : ℕ = a * 2 ^ 16 + b * 2 ^ 8 + c in
    let (d, ld) = letter (n / 2 ^ 18) (omega arith) in
    let (e, le) = letter (n / 2 ^ 12 % 64) (omega arith) in
    let (f, lf) = letter (n / 2 ^ 6 % 64) (omega arith) in
    let (g, lg) = letter (n % 64) (omega arith) in
    record {
      d = d;
      e = e;
      f = f;
      g = g;
      x = n / 2 ^ 18;
      y = n / 2 ^ 12 % 64;
      z = n / 2 ^ 6 % 64;
      w = n % 64;
      text = rw (ld.shown, le.shown, lf.shown, lg.shown);
      letter_d = ld;
      letter_e = le;
      letter_f = lf;
      letter_g = lg;
      first = omega arith;
      second = omega arith;
      third = omega arith;
    }

-- What the encoder makes of whole blocks, and that the decoder reads it back.
pub record IsCoded (k : ℕ) (p t : Text) : Type 0 where
  pub coded : encode_blocks p ≡ ok t
  pub size : length t ≡ 4 * k
  pub plain : All IsPlain t
  pub decoded : decode_blocks t ≡ ok p

module _ {a b c : ℕ} (ha : IsByte a) (hb : IsByte b) (hc : IsByte c) where
  encode_blocks-cons :
      (s : Text) → encode_blocks (a ∷ b ∷ c ∷ s) ≡ (encode_blocks s >>= λ t. ok (quad a b c ++ t))
  unfolding encode_blocks
  encode_blocks-cons s =
      simp (
        with_getbyte-of-IsByte a _ ha,
        with_getbyte-of-IsByte b _ hb,
        with_getbyte-of-IsByte c _ hc,
      )

  decode_blocks-cons :
      (q : Quad a b c) (t : Text)
      → decode_blocks (q.d ∷ q.e ∷ q.f ∷ q.g ∷ t) ≡ (decode_blocks t >>= λ s. ok (a ∷ b ∷ c ∷ s))
  unfolding decode_blocks
  decode_blocks-cons q t = simp (
    with_getbyte64-of-IsLetter q.x q.d _ q.letter_d,
    with_getbyte64-of-IsLetter q.y q.e _ q.letter_e,
    with_getbyte64-of-IsLetter q.z q.f _ q.letter_f,
    with_getbyte64-of-IsLetter q.w q.g _ q.letter_g,
    q.first,
    q.second,
    q.third,
  )

  IsCoded-cons :
      {k : ℕ} {p t : Text} → IsCoded k p t → IsCoded (suc k) (a ∷ b ∷ c ∷ p) (quad a b c ++ t)
  IsCoded-cons {k} {p} {t} h =
      let q = quad_lem a b c ha hb hc in
      record {
        coded = rw (encode_blocks-cons p, h.coded);
        size = rw q.text (omega (arith, h.size));
        plain =
            rw q.text (
              q.letter_d.plain,
              (q.letter_e.plain, (q.letter_f.plain, (q.letter_g.plain, h.plain))),
            );
        decoded = rw q.text (rw (decode_blocks-cons q t, h.decoded));
      }

-- A text of `3 * k` bytes is coded in `4 * k` characters.
pub encode_blocks-IsCoded :
    (k : ℕ) (p : Text) → length p ≡ 3 * k → All IsByte p → (t : Text) × IsCoded k p t
unfolding encode_blocks decode_blocks
encode_blocks-IsCoded zero [] e h =
    ([], record { coded = refl; size = refl; plain = tt; decoded = refl })
encode_blocks-IsCoded zero (a ∷ p) e h = absurd (omega arith)
encode_blocks-IsCoded (suc k) (a ∷ b ∷ c ∷ p) e (ha, (hb, (hc, h))) =
    let (t, coded) = encode_blocks-IsCoded k p (omega arith) h in
    (quad a b c ++ t, IsCoded-cons ha hb hc coded)
encode_blocks-IsCoded (suc k) p e h = absurd (omega arith)
