-- ===== src/Prelude/Text.antt =====
-- The functions of Go's package strings that the program calls. A text is a list of code points.
use Prim.Native.Nat.{ℕ}
use Prim.Native.Char.{code}
use Prim.Native.String.{String, [], ◌∷◌}
use mathlib.Core.Bool.{Bool, ◌&&◌, ◌||◌}
use mathlib.Core.Option.{Option, none, some}
use package.ai_aggregator.Prelude.Tests.{if◌then◌else◌, leb, ◌==◌ as nat_eq}
use text.Mathlib.Text.{◌==◌, starts_with}

-- unicode.IsSpace
abbrev pub is_space : ℕ → Bool
is_space c =
    (leb 9 c && leb c 13)
    || nat_eq c 32
    || nat_eq c 0x85
    || nat_eq c 0xa0
    || nat_eq c 0x1680
    || (leb 0x2000 c && leb c 0x200a)
    || nat_eq c 0x2028
    || nat_eq c 0x2029
    || nat_eq c 0x202f
    || nat_eq c 0x205f
    || nat_eq c 0x3000

unfoldable pub trim_left : String → String
trim_left [] = []
trim_left (c ∷ s) = if is_space (code c) then trim_left s else c ∷ s

-- Drops the spaces at the end: a character stays if something after it stays.
unfoldable pub trim_right : String → String
trim_right [] = []
trim_right (c ∷ s) =
    let rest = trim_right s in if rest == [] && is_space (code c) then [] else c ∷ rest

-- strings.TrimSpace
unfoldable pub trim_space : String → String
unfolding trim_left trim_right
trim_space s = trim_right (trim_left s)

-- strings.SplitN(s, " ", 2), with `none` where it has one part.
unfoldable pub split_space : String → Option (String × String)
split_space [] = none
split_space (c ∷ s) =
    if nat_eq (code c) 32
    then some ([], s)
    else elim (split_space s) [ none ↦ none | some (a, b) ↦ some (c ∷ a, b) ]

-- strings.HasPrefix(s, p)
abbrev pub has_prefix : String → String → Bool
has_prefix s p = starts_with s p
