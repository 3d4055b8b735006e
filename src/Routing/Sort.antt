-- ===== src/Routing/Sort.antt =====
-- sort.SliceStable, by insertion: an element goes before the first later one that is not less.
-- For a comparison that is a strict weak order, this is the one stable order.
use mathlib.Core.List.{Perm}
use mathlib.Core.List.Perm
use ai_aggregator.Prelude.{
  ◌≡◌, Bool, true, false, List, [], ◌∷◌, if◌then◌else◌, All, inl, inr, Bool-cases,
}

module _ {ℓ} {A : Type ℓ} (less : A → A → Bool) where
  unfoldable pub insert_stable : A → List A → List A
  insert_stable x [] = x ∷ []
  insert_stable x (y ∷ ys) =
      let later = y ∷ insert_stable x ys in if less y x then later else x ∷ y ∷ ys

  unfoldable pub stable_sort : List A → List A
  unfolding insert_stable
  stable_sort [] = []
  stable_sort (x ∷ xs) = insert_stable x (stable_sort xs)

  insert_stable-perm : (x : A) (ys : List A) → Perm (insert_stable x ys) (x ∷ ys)
  unfolding insert_stable
  insert_stable-perm x [] = Perm.refl _
  insert_stable-perm x (y ∷ ys) = elim (Bool-cases (less y x)) [
    | inl before ↦ rw before (Perm.trans (Perm.cons y (insert_stable-perm x ys)) (Perm.swap x y ys))
    | inr here ↦ rw here (Perm.refl _)
  ]

  pub stable_sort-perm : (xs : List A) → Perm (stable_sort xs) xs
  unfolding stable_sort
  stable_sort-perm [] = Perm.refl _
  stable_sort-perm (x ∷ xs) =
      Perm.trans (insert_stable-perm x (stable_sort xs)) (Perm.cons x (stable_sort-perm xs))

  -- No element is less than one before it.
  abbrev pub IsSorted : List A → Type ℓ
  IsSorted [] = Unit
  IsSorted (x ∷ xs) = All (λ y. less y x ≡ false) xs × IsSorted xs

  -- The comparison is a strict weak order on the values with the property `P`.
  pub record IsWeakOrder {κ} (P : A → Type κ) : Type (ℓ ⊔ κ) where
    pub asym : (a b : A) → P a → P b → less a b ≡ true → less b a ≡ false
    pub cotrans :
        (a b c : A) → P a → P b → P c → less a b ≡ false → less b c ≡ false → less a c ≡ false

  pub All-insert_stable {μ} :
      (Q : A → Type μ) (x : A) (ys : List A) → Q x → All Q ys → All Q (insert_stable x ys)
  unfolding insert_stable
  All-insert_stable Q x [] q h = (q, tt)
  All-insert_stable Q x (y ∷ ys) q (r, h) = elim (Bool-cases (less y x)) [
    | inl before ↦ rw before (r, All-insert_stable Q x ys q h)
    | inr here ↦ rw here (q, (r, h))
  ]

  pub All-stable_sort {μ} : (Q : A → Type μ) (xs : List A) → All Q xs → All Q (stable_sort xs)
  unfolding stable_sort
  All-stable_sort Q [] h = tt
  All-stable_sort Q (x ∷ xs) (q, h) =
      All-insert_stable Q x (stable_sort xs) q (All-stable_sort Q xs h)

  module _ {κ} (P : A → Type κ) (order : IsWeakOrder P) where
    not-less-All :
        (x y : A) (ys : List A)
        → P x
        → P y
        → All P ys
        → less y x ≡ false
        → All (λ z. less z y ≡ false) ys
        → All (λ z. less z x ≡ false) ys
    not-less-All x y [] px py h e k = tt
    not-less-All x y (z ∷ ys) px py (pz, h) e (l, k) =
        (order.cotrans z y x pz py px l e, not-less-All x y ys px py h e k)

    insert_stable-IsSorted :
        (x : A) (ys : List A) → P x → All P ys → IsSorted ys → IsSorted (insert_stable x ys)
    unfolding insert_stable
    insert_stable-IsSorted x [] px h s = (tt, tt)
    insert_stable-IsSorted x (y ∷ ys) px (py, h) (below, s) = elim (Bool-cases (less y x)) [
      | inl before ↦ rw before (
        All-insert_stable (λ z. less z y ≡ false) x ys (order.asym y x py px before) below,
        insert_stable-IsSorted x ys px h s,
      )
      | inr here ↦ rw here ((here, not-less-All x y ys px py h here below), (below, s))
    ]

    pub stable_sort-IsSorted : (xs : List A) → All P xs → IsSorted (stable_sort xs)
    unfolding stable_sort
    stable_sort-IsSorted [] h = tt
    stable_sort-IsSorted (x ∷ xs) (px, h) =
        insert_stable-IsSorted x (stable_sort xs) px (All-stable_sort P xs h)
          (stable_sort-IsSorted xs h)
