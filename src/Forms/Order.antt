-- ===== src/Forms/Order.antt =====
-- main.js: the order in which the fields of a form are visited.
use rocketmq.Shared.{
  ℕ, ◌≡◌, ◌⊎◌, inl, inr, refl, sym, ◌∙◌, subst, arith, true, false, Bool-cases, List, [], ◌∷◌, ◌++◌,
  Text, All, All-weaken,
}
use rocketmq.Forms.Fields.{Field, text_le, pair_text, field_le, insert_field, sort_fields}

-- A field is one of a list.
abbrev pub In : Field → List Field → Type 0
In f [] = false ≡ true
In f (g ∷ fields) = (f ≡ g) ⊎ In f fields

-- Each field comes before those that follow it.
abbrev pub IsSorted : List Field → Type 0
IsSorted [] = Unit
IsSorted (f ∷ fields) = All (λ g. field_le f g ≡ true) fields × IsSorted fields

pub text_le_total : (s t : Text) → text_le s t ≡ false → text_le t s ≡ true
unfolding text_le
text_le_total [] t h = ground arith
text_le_total (a ∷ s) [] h = refl
text_le_total (a ∷ s) (b ∷ t) h = ground (arith, text_le_total s t)

pub text_le_trans : (s t u : Text) → text_le s t ≡ true → text_le t u ≡ true → text_le s u ≡ true
unfolding text_le
text_le_trans [] t u h k = refl
text_le_trans (a ∷ s) [] u h k = ground arith
text_le_trans (a ∷ s) (b ∷ t) [] h k = ground arith
text_le_trans (a ∷ s) (b ∷ t) (c ∷ u) h k = ground (arith, text_le_trans s t u)

-- A text comes before each longer one that starts with it, and not after it.
pub text_le-append : (s : Text) (c : ℕ) (t : Text) → text_le (s ++ (c ∷ t)) s ≡ false
unfolding text_le
text_le-append [] c t = refl
text_le-append (a ∷ s) c t = ground (arith, text_le-append s c t)

insert_field-In : (f : Field) (fields : List Field) → In f (insert_field f fields)
unfolding insert_field
insert_field-In f [] = inl refl
insert_field-In f (g ∷ fields) = elim (Bool-cases (field_le f g)) [
  | inl first ↦ rw (first) (inl refl)
  | inr later ↦ rw (later) (inr (insert_field-In f fields))
]

insert_field-In_rest :
    (f h : Field) (fields : List Field) → In h fields → In h (insert_field f fields)
unfolding insert_field
insert_field-In_rest f h [] i = absurd (ground arith)
insert_field-In_rest f h (g ∷ fields) i = elim (Bool-cases (field_le f g)) [
  | inl first ↦ rw (first) (inr i)
  | inr later ↦
      rw (later)
        (elim i [ inl same ↦ inl same | inr rest ↦ inr (insert_field-In_rest f h fields rest) ])
]

pub sort_fields-In : (h : Field) (fields : List Field) → In h fields → In h (sort_fields fields)
unfolding sort_fields
sort_fields-In h [] i = i
sort_fields-In h (f ∷ fields) (inl same) =
    subst (λ x. In x (insert_field f (sort_fields fields))) (sym same)
      (insert_field-In f (sort_fields fields))
sort_fields-In h (f ∷ fields) (inr i) =
    insert_field-In_rest f h (sort_fields fields) (sort_fields-In h fields i)

module _ (P : Field → Type 0) where
  insert_field-All :
      (f : Field) (fields : List Field) → P f → All P fields → All P (insert_field f fields)
  unfolding insert_field
  insert_field-All f [] p h = (p, tt)
  insert_field-All f (g ∷ fields) p (q, h) = elim (Bool-cases (field_le f g)) [
    | inl first ↦ rw (first) (p, (q, h))
    | inr later ↦ rw (later) (q, insert_field-All f fields p h)
  ]

  pub sort_fields-All : (fields : List Field) → All P fields → All P (sort_fields fields)
  unfolding sort_fields
  sort_fields-All [] h = tt
  sort_fields-All (f ∷ fields) (p, h) =
      insert_field-All f (sort_fields fields) p (sort_fields-All fields h)

field_le_total : (f g : Field) → field_le f g ≡ false → field_le g f ≡ true
unfolding field_le
field_le_total f g = text_le_total (pair_text f) (pair_text g)

field_le_trans : (f g h : Field) → field_le f g ≡ true → field_le g h ≡ true → field_le f h ≡ true
unfolding field_le
field_le_trans f g h = text_le_trans (pair_text f) (pair_text g) (pair_text h)

insert_field-IsSorted :
    (f : Field) (fields : List Field) → IsSorted fields → IsSorted (insert_field f fields)
unfolding insert_field
insert_field-IsSorted f [] h = (tt, tt)
insert_field-IsSorted f (g ∷ fields) (below, h) = elim (Bool-cases (field_le f g)) [
  | inl first ↦
      rw (first)
        ((first, All-weaken (λ x k. field_le_trans f g x first k) fields below), (below, h))
  | inr later ↦ rw (later) (
    insert_field-All (λ x. field_le g x ≡ true) f fields (field_le_total f g later) below,
    insert_field-IsSorted f fields h,
  )
]

pub sort_fields-IsSorted : (fields : List Field) → IsSorted (sort_fields fields)
unfolding sort_fields
sort_fields-IsSorted [] = tt
sort_fields-IsSorted (f ∷ fields) =
    insert_field-IsSorted f (sort_fields fields) (sort_fields-IsSorted fields)

text_le-prefix : (s t u : Text) → text_le (s ++ t) (s ++ u) ≡ text_le t u
unfolding text_le
text_le-prefix [] t u = refl
text_le-prefix (a ∷ s) t u = ground (arith, text_le-prefix s t u)

-- A field does not come before one whose id starts its own.
pub field_le-append :
    (name id : Text) (c : ℕ) (t : Text) → field_le (name, id ++ (c ∷ t)) (name, id) ≡ false
unfolding field_le
field_le-append name id c t =
    text_le-prefix name (b',' ∷ (id ++ (c ∷ t))) (b',' ∷ id) ∙ text_le-append (b',' ∷ id) c t

-- What holds of all fields of a list holds of each.
pub All-In :
    (P : Field → Type 0) (fields : List Field) → All P fields → (f : Field) → In f fields → P f
All-In P [] h f i = absurd (ground arith)
All-In P (g ∷ fields) (p, h) f (inl same) = subst P (sym same) p
All-In P (g ∷ fields) (p, h) f (inr i) = All-In P fields h f i

pub text_le_refl : (s : Text) → text_le s s ≡ true
unfolding text_le
text_le_refl [] = refl
text_le_refl (a ∷ s) = ground (arith, text_le_refl s)

pub field_le_refl : (f : Field) → field_le f f ≡ true
unfolding field_le
field_le_refl f = text_le_refl (pair_text f)
