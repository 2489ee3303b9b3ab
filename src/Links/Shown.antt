-- ===== src/Links/Shown.antt =====
-- formatters.js: what `fmt_highlight_filter` shows of a text.
use rocketmq.Shared.{
  ℕ, zero, suc, ◌+◌, ◌≡◌, ◌⊎◌, inl, inr, refl, sym, ap, ◌∙◌, arith, Option, none, some, List, [],
  ◌∷◌, ◌++◌, length, take, drop, take-append-drop, Text, codes, text_eq, Bool-cases,
}
use rocketmq.Markup.{escape_html}
use rocketmq.Links.Anchors.{Filter, text_to_match, index_of, highlighted, fmt_highlight_filter}

-- A text escaped as a whole, or in three parts of which the second stands in a span.
abbrev pub Shows : Text → Text → Type 0
Shows text html =
    (html ≡ escape_html text)
    ⊎ ((a b c : Text) × (text ≡ a ++ (b ++ c))
        × (html
            ≡ escape_html a
              ++ (codes "<span class=\"filter-highlight\">"
                  ++ (escape_html b ++ (codes "</span>" ++ escape_html c)))))

drop_none : {A : Type 0} (n : ℕ) → drop {A = A} n [] ≡ []
drop_none zero = refl
drop_none (suc n) = refl

drop-drop : {A : Type 0} (n m : ℕ) (s : List A) → drop (n + m) s ≡ drop m (drop n s)
drop-drop zero m s = let e : 0 + m ≡ m = omega arith in ap (λ k. drop k s) e
drop-drop (suc n) zero [] = drop_none (suc n + 0)
drop-drop (suc n) (suc m) [] = drop_none (suc n + suc m)
drop-drop (suc n) m (x ∷ s) =
    let e : suc n + m ≡ suc (n + m) = omega arith in ap (λ k. drop k (x ∷ s)) e ∙ drop-drop n m s

parts_lem :
    (ix l : ℕ) (text : Text) → text ≡ take ix text ++ (take l (drop ix text) ++ drop (ix + l) text)
parts_lem ix l text =
    rw (drop-drop ix l text, take-append-drop l (drop ix text)) (sym (take-append-drop ix text))

highlighted-Shows : (text : Text) (l : ℕ) (o : Option ℕ) → Shows text (highlighted text l o)
unfolding highlighted
highlighted-Shows text l none = inl refl
highlighted-Shows text l (some ix) =
    inr (take ix text, take l (drop ix text), drop (ix + l) text, parts_lem ix l text, refl)

-- Whatever the filter is, its pattern finds and the language takes for lower case, the whole text is shown,
-- in order and escaped, with at most one part of it highlighted.
pub fmt_highlight_filter-Shows :
    (f : Filter) (text : Text) → Shows text (fmt_highlight_filter f text)
unfolding fmt_highlight_filter
fmt_highlight_filter-Shows f text = elim (Bool-cases (text_eq f.current_filter [])) [
  | inl off ↦ rw (off) (inl refl)
  | inr on ↦ rw (on) (
      highlighted-Shows text (length (text_to_match f text))
        (index_of (text_to_match f text) (f.lower text)))
]
