-- ===== src/Shared/Texts.antt =====
-- JavaScript strings as lists of UTF-16 code units, with the methods that the source calls.
use Prim.Native.Nat.{ℕ}
use Prim.Native.Char.{code}
use Prim.Native.String.{String}
use mathlib.Core.Path.{◌≡◌, refl}
use mathlib.Core.Logic.{◌↔◌, ◌≢◌}
use mathlib.Core.Bool.{Bool, true, false, ◌&&◌}
use mathlib.Core.List.{List, [], ◌∷◌, ◌++◌}
use native.Mathlib.Omega.{arith}
use rocketmq.Shared.Tests.{◌==◌, ==_iff, if◌then◌else◌}
use rocketmq.Shared.Lists.{All}

abbrev pub Text : Type 0
Text = List ℕ

-- A literal of the source. All of them lie in the basic plane: code points are code units.
abbrev pub codes : String → Text
codes String.[] = []
codes (String.◌∷◌ c s) = code c ∷ codes s

-- `s == t` on strings.
unfoldable pub text_eq : Text → Text → Bool
text_eq [] [] = true
text_eq [] (b ∷ t) = false
text_eq (a ∷ s) [] = false
text_eq (a ∷ s) (b ∷ t) = a == b && text_eq s t

pub text_eq_iff : (s t : Text) → (text_eq s t ≡ true) ↔ (s ≡ t)
unfolding text_eq
text_eq_iff [] [] = ground arith
text_eq_iff [] (b ∷ t) = ground arith
text_eq_iff (a ∷ s) [] = ground arith
text_eq_iff (a ∷ s) (b ∷ t) = ground (arith, ==_iff a b, text_eq_iff s t)

pub text_eq_refl : (s : Text) → text_eq s s ≡ true
text_eq_refl s = (text_eq_iff s s).1 refl

-- `list.includes(s)`, `jQuery.inArray(s, list) != -1`
unfoldable pub includes : Text → List Text → Bool
includes s [] = false
includes s (t ∷ ts) = if text_eq t s then true else includes s ts

-- `s.startsWith(prefix)`, `s.substring(0, k) == prefix` with `k` the length of the prefix
unfoldable pub starts_with : Text → Text → Bool
starts_with [] s = true
starts_with (p ∷ ps) [] = false
starts_with (p ∷ ps) (c ∷ s) = p == c && starts_with ps s

-- `list.join(sep)`
unfoldable pub join : Text → List Text → Text
join sep [] = []
join sep (t ∷ []) = t
join sep (t ∷ u ∷ ts) = t ++ (sep ++ join sep (u ∷ ts))

-- `s.split(c)` for a separator of one character: the part before the first one, and the others.
abbrev pub split_step : ℕ → ℕ → Text × List Text → Text × List Text
split_step sep c (part, parts) = if c == sep then ([], part ∷ parts) else (c ∷ part, parts)

unfoldable pub split_from : ℕ → Text → Text × List Text
split_from sep [] = ([], [])
split_from sep (c ∷ s) = split_step sep c (split_from sep s)

unfoldable pub split : ℕ → Text → List Text
unfolding split_from
split sep s = let (part, parts) = split_from sep s in part ∷ parts

-- `s.replace(/c/g, by)`
unfoldable pub replace_char : ℕ → Text → Text → Text
replace_char c by [] = []
replace_char c by (x ∷ s) = (if x == c then by else x ∷ []) ++ replace_char c by s

abbrev pub Lacks : ℕ → Text → Type 0
Lacks c = All (λ x. x ≢ c)
