-- ===== src/Base64/Alphabet.antt =====
-- base64.js: the two directions of the table `ALPHA`.
use rocketmq.Shared.{
  ℕ, ◌<◌, ◌≡◌, ◌≢◌, refl, Bool, true, false, not, ◌&&◌, Option, none, some, [], ◌∷◌, Text,
  get_elem?, length, ◌==◌, all_below, all_below_sound, Option-cases, inl, inr, arith,
}
use rocketmq.Base64.{padchar, alpha, char_at, index_of}

found_at : ℕ → Option ℕ → Bool
found_at i none = false
found_at i (some j) = j == i

-- The letter for `i` is found at `i`, and is not the padding character.
is_letter : ℕ → Option ℕ → Bool
unfolding found_at
is_letter i none = false
is_letter i (some c) = not (c == padchar) && found_at i (index_of c alpha)

letters : all_below 64 (λ i. is_letter i (get_elem? alpha i)) ≡ true
unfolding all_below is_letter index_of
letters = refl

eq-some_of_found_at : (i : ℕ) (o : Option ℕ) → found_at i o ≡ true → o ≡ some i
unfolding found_at
eq-some_of_found_at i none h = cc
eq-some_of_found_at i (some j) h = ground arith

is_letter_sound :
    (i : ℕ) (o : Option ℕ)
    → is_letter i o ≡ true
    → (c : ℕ) × (o ≡ some c) × (c ≢ padchar) × (index_of c alpha ≡ some i)
unfolding is_letter
is_letter_sound i none h = cc
is_letter_sound i (some c) h =
    (c, refl, ground arith, eq-some_of_found_at i (index_of c alpha) (ground arith))

pub record IsLetter (i c : ℕ) : Type 0 where
  pub shown : char_at i ≡ c ∷ []
  pub plain : c ≢ padchar
  pub found : index_of c alpha ≡ some i

pub letter : (i : ℕ) → i < 64 → (c : ℕ) × IsLetter i c
unfolding char_at
letter i h =
    let (c, at, plain, found) =
      is_letter_sound i (get_elem? alpha i) (all_below_sound 64 _ i letters h) in
    (c, record { shown = rw at; plain = plain; found = found })

pub index_of-lt-length : (c : ℕ) (xs : Text) {i : ℕ} → index_of c xs ≡ some i → i < length xs
unfolding index_of
index_of-lt-length c [] h = cc
index_of-lt-length c (x ∷ xs) {i} h = elim (Option-cases (index_of c xs)) [
  | inl missing ↦ ground arith
  | inr (j, at) ↦ ground (arith, index_of-lt-length c xs at)
]
