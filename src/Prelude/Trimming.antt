-- ===== src/Prelude/Trimming.antt =====
-- strings.TrimSpace of a text that is trimmed (Prelude/Text.antt).
use Prim.Native.Char.{Char, code}
use Prim.Native.String.{String, [], ◌∷◌}
use mathlib.Core.Path.{◌≡◌, refl, ◌∙◌, ap}
use mathlib.Core.Logic.{inl, inr}
use mathlib.Core.Bool.{false, ◌&&◌}
use text.Mathlib.Text.{◌==◌}
use package.ai_aggregator.Prelude.Tests.{Bool-cases}
use package.ai_aggregator.Prelude.Text.{is_space, trim_left, trim_right, trim_space}

trim_right-trim_right : (s : String) → trim_right (trim_right s) ≡ trim_right s
unfolding trim_right
trim_right-trim_right [] = refl
trim_right-trim_right (c ∷ s) =
    let again : trim_right (trim_right s) ≡ trim_right s = trim_right-trim_right s in
    elim (Bool-cases (trim_right s == [] && is_space (code c))) [
      | inl dropped ↦ rw dropped refl
      | inr stays ↦ rw (stays, again, stays) refl
    ]

trim_right-keeps :
    (c : Char) (s : String) → is_space (code c) ≡ false → trim_right (c ∷ s) ≡ c ∷ trim_right s
unfolding trim_right
trim_right-keeps c s black = elim (Bool-cases (trim_right s == [])) [
  | inl blank ↦ rw (blank, black) refl
  | inr more ↦ rw more refl
]

-- Leading spaces are gone.
trim_left-trim_right-trim_left :
    (s : String) → trim_left (trim_right (trim_left s)) ≡ trim_right (trim_left s)
unfolding trim_left trim_right
trim_left-trim_right-trim_left [] = refl
trim_left-trim_right-trim_left (c ∷ s) = elim (Bool-cases (is_space (code c))) [
  | inl blank ↦ rw blank (trim_left-trim_right-trim_left s)
  | inr black ↦ rw (black, trim_right-keeps c s black, black) refl
]

pub trim_space-trim_space : (s : String) → trim_space (trim_space s) ≡ trim_space s
unfolding trim_space
trim_space-trim_space s =
    ap trim_right (trim_left-trim_right-trim_left s) ∙ trim_right-trim_right (trim_left s)
