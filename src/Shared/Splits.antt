-- ===== src/Shared/Splits.antt =====
-- Splitting and trimming texts: `split` after `join`, and `trim`.
use Prim.Native.Nat.{ℕ}
use mathlib.Core.Path.{◌≡◌, refl}
use mathlib.Core.Bool.{false}
use mathlib.Core.List.{List, [], ◌∷◌, ◌++◌}
use native.Mathlib.Omega.{arith}
use rocketmq.Shared.Tests.{if◌then◌else◌}
use rocketmq.Shared.Lists.{All}
use rocketmq.Shared.Texts.{Text, join, split, split_from, Lacks}
use rocketmq.Shared.Ints.{is_space, skip_spaces}

pub split_from-of-Lacks : (sep : ℕ) (a : Text) → Lacks sep a → split_from sep a ≡ (a, [])
unfolding split_from
split_from-of-Lacks sep [] h = refl
split_from-of-Lacks sep (c ∷ a) (p, h) = rw (split_from-of-Lacks sep a h) (ground arith)

split_from-append :
    (sep : ℕ) (a t : Text) → Lacks sep a → split_from sep (a ++ (sep ∷ t)) ≡ (a, split sep t)
unfolding split_from split
split_from-append sep [] t h = ground arith
split_from-append sep (c ∷ a) t (p, h) = rw (split_from-append sep a t h) (ground arith)

pub split-of-Lacks : (sep : ℕ) (a : Text) → Lacks sep a → split sep a ≡ a ∷ []
unfolding split
split-of-Lacks sep a h = rw (split_from-of-Lacks sep a h) refl

pub split-append :
    (sep : ℕ) (a t : Text) → Lacks sep a → split sep (a ++ (sep ∷ t)) ≡ a ∷ split sep t
unfolding split
split-append sep a t h = rw (split_from-append sep a t h) refl

-- Parts without the separator are what splitting their join gives.
pub split-join :
    (sep : ℕ) (a : Text) (parts : List Text)
    → All (Lacks sep) (a ∷ parts)
    → split sep (join (sep ∷ []) (a ∷ parts)) ≡ a ∷ parts
unfolding join
split-join sep a [] (p, h) = split-of-Lacks sep a p
split-join sep a (b ∷ parts) (p, h) =
    rw (split-append sep a (join (sep ∷ []) (b ∷ parts)) p, split-join sep b parts h) refl

-- The spaces at the end.
abbrev drop_if_blank : ℕ → Text → Text
drop_if_blank c [] = if is_space c then [] else c ∷ []
drop_if_blank c (d ∷ s) = c ∷ d ∷ s

unfoldable pub trim_end : Text → Text
trim_end [] = []
trim_end (c ∷ s) = drop_if_blank c (trim_end s)

-- `s.trim()`
unfoldable pub trim : Text → Text
unfolding trim_end
trim s = trim_end (skip_spaces s)

trim_end-of-IsSolid : (s : Text) → All (λ c. is_space c ≡ false) s → trim_end s ≡ s
unfolding trim_end
trim_end-of-IsSolid [] h = refl
trim_end-of-IsSolid (c ∷ []) (p, h) = rw p refl
trim_end-of-IsSolid (c ∷ d ∷ s) (p, h) = rw (trim_end-of-IsSolid (d ∷ s) h) refl

-- A text without spaces is its own trim.
pub trim-of-IsSolid : (s : Text) → All (λ c. is_space c ≡ false) s → trim s ≡ s
unfolding trim skip_spaces
trim-of-IsSolid [] h = refl
trim-of-IsSolid (c ∷ s) (p, h) = rw p (trim_end-of-IsSolid (c ∷ s) (p, h))
