-- ===== src/Prelude/Best.antt =====
-- The first row of least rank, as ORDER BY rank LIMIT 1 returns it; rows without a rank are those
-- that WHERE drops.
use mathlib.Core.List.{Memᴰ}
use Prim.Native.Nat.{ℕ, ◌≤◌}
use mathlib.Core.Path.{◌≡◌, refl}
use mathlib.Core.Logic.{inl, inr}
use mathlib.Core.Option.{Option, none, some}
use mathlib.Core.List.{List, [], ◌∷◌}
use native.Mathlib.Omega.{arith}
use package.ai_aggregator.Prelude.Tests.{if◌then◌else◌, leb, leb→le, leb-false→le, Bool-cases}
use package.ai_aggregator.Prelude.Lists.{All}

-- A rank that is not better than `r`.
abbrev pub AtLeast : ℕ → Option ℕ → Type 0
AtLeast r none = Unit
AtLeast r (some k) = r ≤ k

AtLeast-none : (r : ℕ) (k : Option ℕ) → k ≡ none → AtLeast r k
AtLeast-none r none e = tt
AtLeast-none r (some k) e = cc

AtLeast-trans : (r s : ℕ) (k : Option ℕ) → r ≤ s → AtLeast s k → AtLeast r k
AtLeast-trans r s none p h = tt
AtLeast-trans r s (some k) p h = omega arith

module _ {A : Type 0} where
  abbrev pub better : Option (ℕ × A) → Option ℕ → A → Option (ℕ × A)
  better old none row = old
  better none (some r) row = some (r, row)
  better (some (s, old)) (some r) row = if leb r s then some (r, row) else some (s, old)

module _ {A : Type 0} (rank : A → Option ℕ) where
  -- The fold is from the last row, so of two rows with one rank the first wins.
  unfoldable pub best : List A → Option (ℕ × A)
  best [] = none
  best (row ∷ rows) = better (best rows) (rank row) row

  -- No row has a better rank.
  abbrev pub IsBest : ℕ → List A → Type 0
  IsBest r rows = All (λ row. AtLeast r (rank row)) rows

  IsBest-none : (r : ℕ) (rows : List A) → All (λ row. rank row ≡ none) rows → IsBest r rows
  IsBest-none r [] h = tt
  IsBest-none r (row ∷ rows) (e, h) = (AtLeast-none r (rank row) e, IsBest-none r rows h)

  IsBest-trans : (r s : ℕ) (rows : List A) → r ≤ s → IsBest s rows → IsBest r rows
  IsBest-trans r s [] p h = tt
  IsBest-trans r s (row ∷ rows) p (q, h) =
      (AtLeast-trans r s (rank row) p q, IsBest-trans r s rows p h)

  -- A result of `best`: a row of the list, at its rank, and the best one; or no row has a rank.
  abbrev pub Chosen : List A → Option (ℕ × A) → Type 0
  Chosen rows none = All (λ row. rank row ≡ none) rows
  Chosen rows (some (r, row)) = Memᴰ row rows × (rank row ≡ some r) × IsBest r rows

  Chosen-better :
      (row : A) (rows : List A) (old : Option (ℕ × A)) (k : Option ℕ)
      → rank row ≡ k
      → Chosen rows old
      → Chosen (row ∷ rows) (better old k row)
  Chosen-better row rows none none e h = (e, h)
  Chosen-better row rows none (some r) e h =
      (Memᴰ.head refl, e, (rw e (omega arith), IsBest-none r rows h))
  Chosen-better row rows (some (s, old)) none e (m, at, h) = (Memᴰ.tail m, at, (rw e tt, h))
  Chosen-better row rows (some (s, old)) (some r) e (m, at, h) = elim (Bool-cases (leb r s)) [
    | inl newer ↦
        rw newer
          (Memᴰ.head refl, e, (rw e (omega arith), IsBest-trans r s rows (leb→le r s newer) h))
    | inr older ↦ rw older (Memᴰ.tail m, at, (rw e (leb-false→le r s older), h))
  ]

  pub best-Chosen : (rows : List A) → Chosen rows (best rows)
  unfolding best
  best-Chosen [] = tt
  best-Chosen (row ∷ rows) = Chosen-better row rows (best rows) (rank row) refl (best-Chosen rows)
