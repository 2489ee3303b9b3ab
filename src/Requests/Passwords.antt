-- ===== src/Requests/Passwords.antt =====
-- main.js: the passwords that `sync_req` sends.
use rocketmq.Shared.{
  some_lem, none_lem, ◌≡◌, ◌≢◌, refl, sym, ◌∙◌, ap, subst, arith, inl, inr, Bool-cases, false,
  Option, none, some, [], ◌∷◌, Text, codes, Dict, lookup, remove, lookup-remove, text_eq,
  if◌then◌else◌,
}
use rocketmq.Requests.Template.{
  Attempt, made, threw, Failure, confirmed, with_password, check_password, fill_path_template,
}
use rocketmq.Requests.Paths.{>>=-eq-made}
use rocketmq.Response.{Action}
use rocketmq.Forms.Collapse.{Collected}
use rocketmq.Forms.Magic.{shown_param, collapse_multifields, maybe_remove_fields, params_magic}
use rocketmq.Requests.Cast.{Value}
use rocketmq.Requests.Sync.{Setting, Sent, Result, sent, prepare, send, shown_params, sync_req}

made_lem : {A : Type 0} {x y : A} → made x ≡ made y → x ≡ y
made_lem e = cc

filled_lem : {B : Type 0} (t : Text) → t ≡ [] → text_eq t [] ≡ false → B
unfolding text_eq
filled_lem [] e h = absurd (ground arith)
filled_lem (c ∷ t) e h = absurd cc

threw_lem : {A B : Type 0} {y : A} {why : Failure} → threw why ≡ made y → B
threw_lem e = absurd cc

module _ {V : Type 0} (shown : V → Text) where
  -- A password is not empty, and its confirmation is not among the parameters.
  abbrev pub IsChecked : Dict V → Type 0
  IsChecked params =
      (p : V)
      → lookup (codes "password") params ≡ some p
      → (shown p ≢ []) × (lookup (codes "password_confirm") params ≡ none)

  removed-IsChecked :
      (params : Dict V) (password : V)
      → lookup (codes "password") params ≡ some password
      → text_eq (shown password) [] ≡ false
      → IsChecked (remove (codes "password_confirm") params)
  unfolding text_eq
  removed-IsChecked params password there filled p found =
      let kept : lookup (codes "password") params ≡ some p =
        sym (lookup-remove (codes "password_confirm") (codes "password") params) ∙ found in
      let same : password ≡ p = some_lem (sym there ∙ kept) in
      (
        λ empty. filled_lem (shown password) (ap shown same ∙ empty) filled,
        lookup-remove (codes "password_confirm") (codes "password_confirm") params,
      )

  confirmed-IsChecked :
      (params checked : Dict V) (password : V) (o : Option V)
      → lookup (codes "password") params ≡ some password
      → text_eq (shown password) [] ≡ false
      → confirmed shown params password o ≡ made checked
      → IsChecked checked
  unfolding confirmed
  confirmed-IsChecked params checked password none there filled e = cc
  confirmed-IsChecked params checked password (some c) there filled e =
      elim (Bool-cases (text_eq (shown password) (shown c))) [
        | inl same ↦
            let kept : remove (codes "password_confirm") params ≡ checked =
              made_lem (rw same at e) in
            subst IsChecked kept (removed-IsChecked params password there filled)
        | inr other ↦ threw_lem (rw other at e)
      ]

  with_password-IsChecked :
      (params checked : Dict V) (o : Option V)
      → lookup (codes "password") params ≡ o
      → with_password shown params o ≡ made checked
      → IsChecked checked
  unfolding with_password
  with_password-IsChecked params checked none missing e =
      subst IsChecked (made_lem e) (λ p there. absurd (ground arith))
  with_password-IsChecked params checked (some password) there e =
      elim (Bool-cases (text_eq (shown password) [])) [
        | inl empty ↦ threw_lem (rw empty at e)
        | inr filled ↦
            confirmed-IsChecked params checked password (lookup (codes "password_confirm") params)
              there filled (rw filled at e)
      ]

  check_password-IsChecked :
      (params checked : Dict V) → check_password shown params ≡ made checked → IsChecked checked
  unfolding check_password
  check_password-IsChecked params checked e =
      with_password-IsChecked params checked (lookup (codes "password") params) refl e

params_magic-IsChecked :
    (env : Setting) (form : Dict Value) (c : Collected)
    → params_magic env.queue_type env.controls form ≡ made c
    → IsChecked shown_param c.params
unfolding params_magic
params_magic-IsChecked env form c e =
    let (d, collected, e1) = >>=-eq-made (collapse_multifields env.queue_type form) _ e in
    let (params, checked, e2) =
      >>=-eq-made (check_password shown_param (maybe_remove_fields env.controls d.params)) _ e1 in
    subst (λ x. IsChecked shown_param x.params) (made_lem e2)
      (check_password-IsChecked shown_param (maybe_remove_fields env.controls d.params) params
        checked)

prepare-IsChecked :
    (env : Setting) (form : Dict Value) (path_template : Text) (c : Collected) (path : Text)
    → prepare env form path_template ≡ made (c, path)
    → IsChecked shown_param c.params
unfolding prepare
prepare-IsChecked env form path_template c path e =
    let (d, magic, e1) = >>=-eq-made (params_magic env.queue_type env.controls form) _ e in
    let (p, filled, e2) =
      >>=-eq-made (fill_path_template path_template (shown_params d.params)) _ e1 in
    subst (λ x. IsChecked shown_param x.params) (ap (λ x. x.0) (made_lem e2))
      (params_magic-IsChecked env form d magic)

sent_lem : {x y : Sent} {a b : Action} {r q : Option Result} → sent x a r ≡ sent y b q → x ≡ y
sent_lem e = cc

send-IsChecked :
    (env : Setting) (verb : Text) (headers : Dict Text) (r : Attempt (Collected × Text))
    → ((c : Collected) (path : Text) → r ≡ made (c, path) → IsChecked shown_param c.params)
    → (request : Sent) (action : Action) (result : Option Result) (c : Collected)
    → send env verb headers r ≡ sent request action result
    → request.body ≡ some c
    → IsChecked shown_param c.params
unfolding send
send-IsChecked env verb headers (threw why) checked request action result c e holds = absurd cc
send-IsChecked env verb headers (made (params, path)) checked request action result c e holds =
    let body : (if text_eq verb (codes "GET") then none else some params) ≡ some c =
      ap (λ x. x.body) (sent_lem e) ∙ holds in
    elim (Bool-cases (text_eq verb (codes "GET"))) [
      | inl get ↦ none_lem (rw get at body)
      | inr other ↦
          subst (λ x. IsChecked shown_param x.params) (some_lem (rw other at body))
            (checked params path refl)
    ]

-- Whatever request sync_req sends, if the parameters of its body have a password, it is not empty, and the
-- confirmation of the password is not among them.
pub sync_req-IsChecked :
    (env : Setting) (verb : Text) (form : Dict Value) (path_template : Text) (headers : Dict Text)
    (request : Sent) (action : Action) (result : Option Result) (c : Collected)
    → sync_req env verb form path_template headers ≡ sent request action result
    → request.body ≡ some c
    → IsChecked shown_param c.params
unfolding sync_req
sync_req-IsChecked env verb form path_template headers =
    send-IsChecked env verb headers (prepare env form path_template)
      (prepare-IsChecked env form path_template)
