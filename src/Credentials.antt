-- ===== src/Credentials.antt =====
-- formatters.js: `fmt_uri_with_credentials`, on a string and on an array of strings.
use rocketmq.Shared.{
  ℕ, ◌≡◌, ◌≢◌, refl, arith, Bool, true, false, not, ◌&&◌, ◌||◌, Option, none, some, List, [], ◌∷◌,
  ◌++◌, ◌==◌, leb, drop, map, Text, codes, text_eq, starts_with, All, Lacks, if◌then◌else◌,
}
use rocketmq.Links.Names.{is_line_end}

-- `[a-zA-Z0-9+-.]`, where `+-.` is a range
unfoldable pub is_scheme_char : ℕ → Bool
is_scheme_char c =
    (leb b'a' c && leb c b'z')
    || ((leb b'A' c && leb c b'Z') || ((leb b'0' c && leb c b'9') || (leb b'+' c && leb c b'.')))

-- The longest start of such characters, and what follows it.
unfoldable pub scheme_of : Text → Text × Text
unfolding is_scheme_char
scheme_of [] = ([], [])
scheme_of (c ∷ s) =
    let (scheme, rest) = scheme_of s in if is_scheme_char c then (c ∷ scheme, rest) else ([], c ∷ s)

-- `(.*)@`: what follows the last `@` of the first line
unfoldable pub after_at : Text → Option Text
unfolding is_line_end
after_at [] = none
after_at (c ∷ s) =
    let later = after_at s in
    if is_line_end c
    then none
    else elim later [ some rest ↦ some rest | none ↦ if c == b'@' then some s else none ]

-- `(.*):(.*)@`: the longest first group, and what follows the match
unfoldable pub user_of : Text → Option (Text × Text)
unfolding after_at
user_of [] = none
user_of (c ∷ s) =
    let later = user_of s in
    let here : Option (Text × Text) = elim (after_at s) [
      | none ↦ none
      | some rest ↦ some ([], rest)
    ] in
    if is_line_end c then none else elim later [
      | some (user, rest) ↦ some (c ∷ user, rest)
      | none ↦ if c == b':' then here else none
    ]

-- What is put for the match, or the text where there is none.
unfoldable pub masked : Text → Text → Option (Text × Text) → Text
masked uri scheme none = uri
masked uri scheme (some (user, rest)) =
    scheme ++ (codes "://" ++ (user ++ (codes ":[redacted]@" ++ rest)))

unfoldable pub fmt_uri_with_credentials : Text → Text
unfolding scheme_of user_of masked
fmt_uri_with_credentials uri =
    let (scheme, rest) = scheme_of uri in
    if not (text_eq scheme []) && starts_with (codes "://") rest
    then masked uri scheme (user_of (drop 3 rest))
    else uri

unfoldable pub fmt_uris_with_credentials : List Text → List Text
unfolding fmt_uri_with_credentials
fmt_uris_with_credentials uris = map fmt_uri_with_credentials uris

-- A text within a line.
abbrev pub IsLine : Text → Type 0
IsLine = All (λ c. is_line_end c ≡ false)

after_at-of-Lacks : (s : Text) → Lacks b'@' s → after_at s ≡ none
unfolding after_at
after_at-of-Lacks [] h = refl
after_at-of-Lacks (c ∷ s) (p, h) = rw (after_at-of-Lacks s h) (ground arith)

after_at-append :
    (s rest : Text) → IsLine s → Lacks b'@' rest → after_at (s ++ b'@' ∷ rest) ≡ some rest
unfolding after_at is_line_end
after_at-append [] rest h lacks = rw (after_at-of-Lacks rest lacks) refl
after_at-append (c ∷ s) rest (p, h) lacks = rw (after_at-append s rest h lacks, p) refl

user_of-Lacks_at : (s : Text) → Lacks b'@' s → user_of s ≡ none
unfolding user_of
user_of-Lacks_at [] h = refl
user_of-Lacks_at (c ∷ s) (p, h) = rw (user_of-Lacks_at s h, after_at-of-Lacks s h) (ground arith)

user_of-Lacks_colon :
    (s rest : Text) → Lacks b':' s → Lacks b'@' rest → user_of (s ++ b'@' ∷ rest) ≡ none
unfolding user_of is_line_end
user_of-Lacks_colon [] rest h lacks = rw (user_of-Lacks_at rest lacks) refl
user_of-Lacks_colon (c ∷ s) rest (p, h) lacks =
    rw (user_of-Lacks_colon s rest h lacks) (ground arith)

user_of-append :
    (user password rest : Text)
    → IsLine user
    → IsLine password
    → Lacks b':' password
    → Lacks b'@' rest
    → user_of (user ++ b':' ∷ (password ++ b'@' ∷ rest)) ≡ some (user, rest)
unfolding user_of is_line_end
user_of-append [] password rest h line no_colon lacks =
    rw (user_of-Lacks_colon password rest no_colon lacks, after_at-append password rest line lacks)
      refl
user_of-append (c ∷ user) password rest (p, h) line no_colon lacks =
    rw (user_of-append user password rest h line no_colon lacks, p) refl

scheme_of-append :
    (scheme rest : Text)
    → All (λ c. is_scheme_char c ≡ true) scheme
    → scheme_of (scheme ++ b':' ∷ rest) ≡ (scheme, b':' ∷ rest)
unfolding scheme_of
scheme_of-append [] rest h = refl
scheme_of-append (c ∷ scheme) rest (p, h) = rw (scheme_of-append scheme rest h, p) refl

-- The password of an address with a user, a password within a line and without a colon, and a host without the
-- sign `@` is not shown, and the rest is.
pub fmt_uri_with_credentials-redacted :
    (scheme user password host : Text)
    → scheme ≢ []
    → All (λ c. is_scheme_char c ≡ true) scheme
    → IsLine user
    → IsLine password
    → Lacks b':' password
    → Lacks b'@' host
    → fmt_uri_with_credentials
        (scheme ++ (codes "://" ++ (user ++ b':' ∷ (password ++ b'@' ∷ host))))
      ≡ scheme ++ (codes "://" ++ (user ++ (codes ":[redacted]@" ++ host)))
unfolding fmt_uri_with_credentials text_eq starts_with
fmt_uri_with_credentials-redacted [] user password host filled chars lu lp colon at =
    absurd (filled refl)
fmt_uri_with_credentials-redacted (c ∷ scheme) user password host filled chars lu lp colon at =
    rw
      (
        scheme_of-append (c ∷ scheme) (codes "//" ++ (user ++ b':' ∷ (password ++ b'@' ∷ host)))
            chars,
        user_of-append user password host lu lp colon at,
      )
      refl
