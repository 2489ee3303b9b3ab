-- ===== src/Links/Targets.antt =====
-- formatters.js: a link is one element, whatever the names of objects are.
use rocketmq.Shared.{
  some_lem, ℕ, ◌≡◌, ◌≢◌, ◌⊎◌, inl, inr, refl, sym, ap, subst, arith, true, Option, none, some, [],
  ◌∷◌, ◌++◌, append_assoc, Text, codes, Dict, All, All-weaken, Lacks,
}
use rocketmq.Requests.Query.{some_of}
use rocketmq.Markup.{escape_html}
use rocketmq.Markup.Quoted.{escape_html-IsQuoted, append-IsQuoted}
use rocketmq.Uri.{esc, unreserved}
use rocketmq.Uri.Encoded.{IsUnit, IsUriChar, esc-IsUriChar}
use rocketmq.Links.Names.{highlight_extra_whitespace}
use rocketmq.Links.Anchors.{Filter, title_of, purpose_of, link_to, link_queue}
use rocketmq.Links.Shown.{Shows, fmt_highlight_filter-Shows}

-- No attribute, or the attribute `title` with a text that the quotation marks hold.
abbrev pub IsTitle : Text → Type 0
IsTitle t = (t ≡ []) ⊎ ((p : Text) × (t ≡ codes " title=\"" ++ (p ++ codes "\"")) × Lacks b'"' p)

-- An element `a` with an address that the quotation marks hold, and a text inside that is shown.
abbrev pub IsAnchor : Text → Text → Text → Type 0
IsAnchor href name html =
    (title shown : Text) × (html
      ≡ codes "<a href=\""
        ++ (href ++ (codes "\"" ++ (title ++ (codes ">" ++ (shown ++ codes "</a>"))))))
    × Lacks b'"' href
    × IsTitle title
    × Shows name shown

title_of-IsTitle : (o : Option Text) → IsTitle (title_of o)
unfolding title_of
title_of-IsTitle none = inl refl
title_of-IsTitle (some purpose) =
    let p =
      codes "This is used internally by the " ++ (escape_html purpose ++ codes " mechanism.") in
    inr (
      p,
      ap (λ t. codes " title=\"This is used internally by the " ++ t)
          (sym (append_assoc (escape_html purpose) (codes " mechanism.") (codes "\""))),
      append-IsQuoted (codes "This is used internally by the ")
          (escape_html purpose ++ codes " mechanism.") (ground arith)
          (append-IsQuoted (escape_html purpose) (codes " mechanism.")
            (escape_html-IsQuoted purpose) (ground arith)),
    )

link_to-IsAnchor :
    (f : Filter) (name url : Text) (args : Option (Dict Text))
    → Lacks b'"' url
    → IsAnchor url name (link_to f name url true args)
unfolding link_to
link_to-IsAnchor f name url args h = (
  title_of (purpose_of args),
  _,
  refl,
  h,
  title_of-IsTitle (purpose_of args),
  fmt_highlight_filter-Shows f name,
)

quoted_lem : (c : ℕ) → IsUriChar c → c ≢ b'"'
unfolding unreserved
quoted_lem c (inl p) q = absurd (ground arith)
quoted_lem c (inr p) q = absurd (ground arith)

uri-IsQuoted : (s : Text) → All IsUriChar s → Lacks b'"' s
uri-IsQuoted s h = All-weaken (λ c p. quoted_lem c p) s h

-- A link to the page of a queue, whose names are texts of UTF-16 code units, when esc does not throw, is one
-- element whose address is that of the page, the virtual host and the queue, each encoded without a
-- separator of addresses or a quotation mark, whose title stays within its quotation marks, and which shows
-- the whole name with its white space made visible.
pub link_queue-IsAnchor :
    (f : Filter) (vhost name : Text) (args : Option (Dict Text)) (html : Text)
    → All IsUnit vhost
    → All IsUnit name
    → link_queue f vhost name args ≡ some html
    → (v n : Text) × (esc vhost ≡ some v)
      × (esc name ≡ some n)
      × All IsUriChar v
      × All IsUriChar n
      × IsAnchor (codes "#/queues/" ++ (v ++ (b'/' ∷ n))) (highlight_extra_whitespace name) html
unfolding link_queue
link_queue-IsAnchor f vhost name args html uv un e =
    let (v, ev, e1) = some_of (esc vhost) _ e in
    let (n, en, e2) = some_of (esc name) _ e1 in
    let cv = esc-IsUriChar vhost uv ev in
    let cn = esc-IsUriChar name un en in
    (
      v,
      n,
      ev,
      en,
      cv,
      cn,
      subst (IsAnchor (codes "#/queues/" ++ (v ++ (b'/' ∷ n))) (highlight_extra_whitespace name))
          (some_lem e2)
          (link_to-IsAnchor f (highlight_extra_whitespace name)
            (codes "#/queues/" ++ (v ++ (b'/' ∷ n))) args
            (append-IsQuoted (codes "#/queues/") (v ++ (b'/' ∷ n)) (ground arith) (
              append-IsQuoted v (b'/' ∷ n) (uri-IsQuoted v cv) (ground arith, uri-IsQuoted n cn)))),
    )
