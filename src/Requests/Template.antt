-- ===== src/Requests/Template.antt =====
-- main.js: `fill_path_template`, on parameters that are strings, and `check_password`.
use rocketmq.Shared.{
  ℕ, Bool, ◌&&◌, ◌||◌, Option, none, some, [], ◌∷◌, ◌++◌, Text, codes, Dict, lookup, remove,
  text_eq, leb, ◌==◌, if◌then◌else◌,
}
use rocketmq.Uri.{esc}

-- What is thrown: the complaints of the functions, the exception of `encodeURIComponent`, and the
-- exception of a property of `undefined`.
pub data Failure : Type 0 where
  required : Text → Failure
  malformed no_password no_match type_error : Failure
  not_boolean not_number : Option Text → Option Text → Failure

pub data Attempt {ℓ} (A : Type ℓ) : Type ℓ where
  made : A → Attempt A
  threw : Failure → Attempt A

infixl 5 ◌>>=◌
abbrev pub ◌>>=◌ {ℓ κ} : {A : Type ℓ} {B : Type κ} → Attempt A → (A → Attempt B) → Attempt B
threw why >>= rest = threw why
made x >>= rest = rest x

-- `[a-zA-Z_]`
unfoldable pub is_name_char : ℕ → Bool
is_name_char c = (leb b'a' c && leb c b'z') || ((leb b'A' c && leb c b'Z') || c == b'_')

-- The string that `esc` gets: a missing parameter reads "undefined".
unfoldable pub param_text : Dict Text → Text → Text
param_text params name = elim (lookup name params) [ none ↦ codes "undefined" | some v ↦ v ]

-- What the callback of `replace` returns for one match.
unfoldable pub fill_name : Dict Text → Text → Attempt Text
fill_name params name = elim (esc (param_text params name)) [
  | none ↦ threw malformed
  | some str ↦ if text_eq str [] then threw (required name) else made str
]

-- The scan for `/:[a-zA-Z_]*/g`: `some name` is the match in progress.
unfoldable pub fill_from : Dict Text → Option Text → Text → Attempt Text
fill_from params none [] = made []
fill_from params (some name) [] = fill_name params name
fill_from params none (c ∷ s) =
    let start = fill_from params (some []) s in
    let copy = (fill_from params none s >>= λ t. made (c ∷ t)) in if c == b':' then start else copy
fill_from params (some name) (c ∷ s) =
    let longer = fill_from params (some (name ++ c ∷ [])) s in
    let start = fill_from params (some []) s in
    let copy = (fill_from params none s >>= λ t. made (c ∷ t)) in
    if is_name_char c
    then longer
    else (fill_name params name >>= λ v. (if c == b':' then start else copy) >>= λ t. made (v ++ t))

-- `fill_path_template(template, params)`
unfoldable pub fill_path_template : Text → Dict Text → Attempt Text
fill_path_template template params = fill_from params none template

-- `check_password(params)`, which deletes the confirmation; values are compared as the texts that they
-- show.
unfoldable pub confirmed : {V : Type 0} → (V → Text) → Dict V → V → Option V → Attempt (Dict V)
confirmed shown params password none = threw no_match
confirmed shown params password (some confirm) =
    if text_eq (shown password) (shown confirm)
    then made (remove (codes "password_confirm") params)
    else threw no_match

unfoldable pub with_password : {V : Type 0} → (V → Text) → Dict V → Option V → Attempt (Dict V)
unfolding confirmed
with_password shown params none = made params
with_password shown params (some password) =
    if text_eq (shown password) []
    then threw no_password
    else confirmed shown params password (lookup (codes "password_confirm") params)

unfoldable pub check_password : {V : Type 0} → (V → Text) → Dict V → Attempt (Dict V)
unfolding with_password
check_password shown params = with_password shown params (lookup (codes "password") params)
