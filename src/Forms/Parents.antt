-- ===== src/Forms/Parents.antt =====
-- main.js: the list of a nested field is that of the id without its last part.
use rocketmq.Shared.{
  ℕ, ◌≡◌, refl, sym, ap, ◌∙◌, arith, false, Bool-cases, inl, inr, List, [], ◌∷◌, ◌++◌, ◌==◌,
  append_assoc, length, Text, codes, split, split_from, join,
}
use rocketmq.Forms.Collapse.{but_last, is_top_level, prefix_of}

join-cons :
    (sep c : ℕ) (part : Text) (parts : List Text)
    → join (sep ∷ []) ((c ∷ part) ∷ parts) ≡ c ∷ join (sep ∷ []) (part ∷ parts)
unfolding join
join-cons sep c part [] = refl
join-cons sep c part (q ∷ parts) = refl

join-split_from :
    (sep : ℕ) (s : Text) → join (sep ∷ []) ((split_from sep s).0 ∷ (split_from sep s).1) ≡ s
unfolding split_from join
join-split_from sep [] = refl
join-split_from sep (c ∷ s) = elim (Bool-cases (c == sep)) [
  | inl here ↦ rw (here, join-split_from sep s) (ground arith)
  | inr other ↦ rw (other) (
      join-cons sep c (split_from sep s).0 (split_from sep s).1
      ∙ ap (λ t. c ∷ t) (join-split_from sep s))
]

last_of : Text → List Text → Text
last_of p [] = p
last_of p (q ∷ parts) = last_of q parts

join-but_last :
    (sep : ℕ) (p q : Text) (parts : List Text)
    → join (sep ∷ []) (p ∷ q ∷ parts)
      ≡ join (sep ∷ []) (but_last (p ∷ q ∷ parts)) ++ (sep ∷ last_of q parts)
unfolding join but_last last_of
join-but_last sep p q [] = refl
join-but_last sep p q (r ∷ parts) =
    let rest = join (sep ∷ []) (but_last (q ∷ r ∷ parts)) in
    ap (λ t. p ++ (sep ∷ t)) (join-but_last sep q r parts)
    ∙ sym (append_assoc p (sep ∷ rest) (sep ∷ last_of r parts))

longer_lem :
    (id part : Text) (parts : List Text)
    → join (codes "_") (part ∷ parts) ≡ id
    → (length (part ∷ parts) == 1) ≡ false
    → (last : Text) × (id ≡ join (codes "_") (but_last (part ∷ parts)) ++ (b'_' ∷ last))
longer_lem id part [] e h = absurd (ground arith)
longer_lem id part (q ∷ parts) e h = (last_of q parts, sym e ∙ join-but_last b'_' part q parts)

-- The id of a field that is not at the top level starts with the id of its list.
pub prefix_of-append :
    (id : Text) → is_top_level id ≡ false → (last : Text) × (id ≡ prefix_of id ++ (b'_' ∷ last))
unfolding is_top_level prefix_of split
prefix_of-append id h =
    longer_lem id (split_from b'_' id).0 (split_from b'_' id).1 (join-split_from b'_' id) h
