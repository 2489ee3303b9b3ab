-- ===== src/Requests/Paths.antt =====
-- main.js: what `fill_path_template` guarantees about a path, whatever the parameters.
use rocketmq.Shared.{
  ℕ, ◌≡◌, refl, inl, inr, Bool, true, false, ◌||◌, Option, none, some, [], ◌∷◌, ◌++◌, Text, All,
  Dict, filter, Bool-cases, Option-cases, ◌==◌, if◌then◌else◌, arith,
}
use rocketmq.Uri.{unreserved, esc}
use rocketmq.Uri.Encoded.{IsUnit, IsUriChar, esc-IsUriChar}
use rocketmq.Requests.Template.{
  Attempt, made, threw, ◌>>=◌, is_name_char, param_text, fill_name, fill_from, fill_path_template,
}

-- The characters that separate the parts of a URL.
abbrev pub is_separator : ℕ → Bool
is_separator c = c == b'/' || (c == b'?' || (c == b'#' || (c == b'&' || c == b'=')))

abbrev pub separators : Text → Text
separators = filter is_separator

pub >>=-eq-made {ℓ κ} :
    {A : Type ℓ} {B : Type κ} (first : Attempt A) (rest : A → Attempt B) {y : B}
    → (first >>= rest) ≡ made y
    → (x : A) × (first ≡ made x) × (rest x ≡ made y)
>>=-eq-made (threw why) rest made_it = cc
>>=-eq-made (made x) rest made_it = (x, refl, made_it)

separators-append : (s t : Text) → separators (s ++ t) ≡ separators s ++ separators t
separators-append [] t = refl
separators-append (c ∷ s) t = ground (arith, separators-append s t)

separators-esc : (s : Text) → All IsUriChar s → separators s ≡ []
unfolding unreserved
separators-esc [] h = refl
separators-esc (c ∷ s) (inl p, h) = ground (arith, separators-esc s h)
separators-esc (c ∷ s) (inr p, h) = ground (arith, separators-esc s h)

separator_of_name_char : (c : ℕ) → is_name_char c ≡ true → is_separator c ≡ false
unfolding is_name_char
separator_of_name_char c h = ground arith

copy-separators :
    (m : Attempt Text) (c : ℕ) (s t : Text)
    → ((u : Text) → m ≡ made u → separators u ≡ separators s)
    → (m >>= λ u. made (c ∷ u)) ≡ made t
    → separators t ≡ separators (c ∷ s)
copy-separators (made u) c s t h e = ground (arith, h u refl)
copy-separators (threw f) c s t h e = cc

join-separators :
    (m n : Attempt Text) (s : Text) {t : Text}
    → ((v : Text) → m ≡ made v → separators v ≡ [])
    → ((u : Text) → n ≡ made u → separators u ≡ separators s)
    → (m >>= λ v. n >>= λ u. made (v ++ u)) ≡ made t
    → separators t ≡ separators s
join-separators (made v) (made u) s {t} h k e =
    let same : v ++ u ≡ t = cc in rw (← same, separators-append v u, h v refl) (k u refl)
join-separators (made v) (threw f) s h k e = cc
join-separators (threw f) n s h k e = cc

module _ (params : Dict Text) (units : (name : Text) → All IsUnit (param_text params name)) where
  fill_name-separators : (name v : Text) → fill_name params name ≡ made v → separators v ≡ []
  unfolding fill_name
  fill_name-separators name v e = elim (Option-cases (esc (param_text params name))) [
    | inl thrown ↦ ground arith
    | inr (str, found) ↦
        let same : str ≡ v = ground arith in
        rw (← same) (separators-esc str (esc-IsUriChar _ (units name) found))
  ]

  fill_from-separators :
      (open_name : Option Text) (s t : Text)
      → fill_from params open_name s ≡ made t
      → separators t ≡ separators s
  unfolding fill_from
  fill_from-separators none [] t e = ground arith
  fill_from-separators (some name) [] t e = fill_name-separators name t e
  fill_from-separators none (c ∷ s) t e =
      let start = fill_from-separators (some []) s t in
      let copy = copy-separators (fill_from params none s) c s t (fill_from-separators none s) in
      elim (Bool-cases (c == b':')) [
        | inl colon ↦ ground (arith, start)
        | inr other ↦ copy (rw other at e)
      ]
  fill_from-separators (some name) (c ∷ s) t e =
      let start = fill_from-separators (some []) s in
      elim (Bool-cases (is_name_char c)) [
        | inl longer ↦
            ground
              (arith, separator_of_name_char c, fill_from-separators (some (name ++ c ∷ [])) s t)
        | inr closed ↦
            join-separators (fill_name params name)
              (if c == b':'
                then fill_from params (some []) s
                else (fill_from params none s >>= λ t. made (c ∷ t)))
              (c ∷ s) (fill_name-separators name)
              (λ u h. elim (Bool-cases (c == b':')) [
                | inl colon ↦ ground (arith, start u)
                | inr other ↦
                    copy-separators (fill_from params none s) c s u (fill_from-separators none s)
                      (rw other at h)
              ])
              (rw closed at e)
      ]

-- A filled path has the separators of its template, in their order, whatever the parameters, which are
-- texts of UTF-16 code units: none of them opens another segment, a query or a fragment.
pub fill_path_template-separators :
    (template : Text) (params : Dict Text) (path : Text)
    → ((name : Text) → All IsUnit (param_text params name))
    → fill_path_template template params ≡ made path
    → separators path ≡ separators template
unfolding fill_path_template
fill_path_template-separators template params path units e =
    fill_from-separators params units none template path e
