-- ===== src/Access/Tags.antt =====
-- global.js: what expanding the tags of a user gives.
use rocketmq.Shared.{
  Bool, true, false, ◌||◌, List, [], ◌∷◌, ◌++◌, ◌≡◌, ◌⊎◌, inl, inr, refl, ap, arith, Text, codes,
  text_eq, text_eq_iff, includes, Bool-cases, append_assoc, sym, if◌then◌else◌,
}
use rocketmq.Access.{implied_tags, expand_user_tags}

includes-append :
    (t : Text) (xs ys : List Text) → includes t (xs ++ ys) ≡ (includes t xs || includes t ys)
unfolding includes
includes-append t [] ys = refl
includes-append t (x ∷ xs) ys = ground (arith, includes-append t xs ys)

expand_user_tags-append :
    (xs ys : List Text) → expand_user_tags (xs ++ ys) ≡ expand_user_tags xs ++ expand_user_tags ys
unfolding expand_user_tags
expand_user_tags-append [] ys = refl
expand_user_tags-append (x ∷ xs) ys =
    ap (λ rest. x ∷ rest)
      (rw (expand_user_tags-append xs ys)
        (sym (append_assoc (implied_tags x) (expand_user_tags xs) (expand_user_tags ys))))

abbrev management : Text
management = codes "management"

implied_tags-cases :
    (tag : Text)
    → (tag ≡ codes "administrator")
      ⊎ ((implied_tags tag ≡ management ∷ []) ⊎ (implied_tags tag ≡ []))
unfolding implied_tags
implied_tags-cases tag = elim (Bool-cases (text_eq tag (codes "administrator"))) [
  | inl e ↦ inl ((text_eq_iff tag (codes "administrator")).0 e)
  | inr e ↦ inr (ground (arith, e))
]

-- The tests for the tags of an administrator, and for those expanded.
three_tags :
    (a b c : Bool)
    → ((if a then true else if b then true else if c then true else false)
        || (if a
            then true
            else if c
            then true
            else if b
            then true
            else if c
            then true
            else if c
            then true
            else false))
      ≡ (if a then true else if b then true else if c then true else false)
three_tags a b c = ground arith

same_test :
    (b : Bool)
    → ((if b then true else false) || (if b then true else false)) ≡ (if b then true else false)
same_test b = ground arith

-- What a tag implies implies nothing else.
implied_tags-closed :
    (t tag : Text)
    → (includes t (implied_tags tag) || includes t (expand_user_tags (implied_tags tag)))
      ≡ includes t (implied_tags tag)
unfolding implied_tags expand_user_tags includes text_eq
implied_tags-closed t tag = elim (implied_tags-cases tag) [
  | inl e ↦ rw (e) (
      three_tags (text_eq (codes "monitoring") t) (text_eq (codes "policymaker") t)
        (text_eq management t))
  | inr (inl e) ↦ rw (e) (same_test (text_eq management t))
  | inr (inr e) ↦ rw (e) refl
]

-- Expanding tags again adds none.
pub expand_user_tags-idempotent :
    (t : Text) (tags : List Text)
    → includes t (expand_user_tags (expand_user_tags tags)) ≡ includes t (expand_user_tags tags)
unfolding expand_user_tags includes
expand_user_tags-idempotent t [] = refl
expand_user_tags-idempotent t (tag ∷ tags) =
    rw
      (
        expand_user_tags-append (implied_tags tag) (expand_user_tags tags),
        includes-append t (implied_tags tag) (expand_user_tags tags),
        includes-append t (implied_tags tag)
            (expand_user_tags (implied_tags tag) ++ expand_user_tags (expand_user_tags tags)),
        includes-append t (expand_user_tags (implied_tags tag))
            (expand_user_tags (expand_user_tags tags)),
        expand_user_tags-idempotent t tags,
      )
      (ground (arith, implied_tags-closed t tag))

implied_tags-administrator :
    (tag : Text) → includes (codes "administrator") (implied_tags tag) ≡ false
unfolding implied_tags includes text_eq
implied_tags-administrator tag = elim (implied_tags-cases tag) [
  | inl e ↦ rw (e) refl
  | inr (inl e) ↦ rw (e) refl
  | inr (inr e) ↦ rw (e) refl
]

-- Only a user with the tag is an administrator.
pub expand_user_tags-administrator :
    (tags : List Text)
    → includes (codes "administrator") (expand_user_tags tags)
      ≡ includes (codes "administrator") tags
unfolding expand_user_tags includes
expand_user_tags-administrator [] = refl
expand_user_tags-administrator (tag ∷ tags) =
    rw
      (
        includes-append (codes "administrator") (implied_tags tag) (expand_user_tags tags),
        implied_tags-administrator tag,
        expand_user_tags-administrator tags,
      )
      refl
