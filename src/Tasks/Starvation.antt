-- ===== src/Tasks/Starvation.antt =====
-- Which tasks a round polls (pollTasks in backend/internal/task/engine.go, GetPendingTasks in
-- backend/internal/storage/store.go).
use ai_aggregator.Prelude.{
  ℕ, ◌≤◌, ◌≡◌, refl, ◌∙◌, ap, Bool, true, false, none, List, [], ◌∷◌, ◌++◌, length, All, arith, inl,
  inr, Bool-cases,
}
use ai_aggregator.Routing.Registry.{Router}
use ai_aggregator.Tasks.{
  Task, Services, is_pending, filter, take, get_pending_tasks, poll, poll_each, poll_tasks,
}

filter-append :
    (olds rest : List Task)
    → filter is_pending (olds ++ rest) ≡ filter is_pending olds ++ filter is_pending rest
filter-append [] rest = refl
filter-append (t ∷ olds) rest = elim (Bool-cases (is_pending t)) [
  | inl waits ↦ rw waits (ap (λ ts. t ∷ ts) (filter-append olds rest))
  | inr over ↦ rw over (filter-append olds rest)
]

take-append : (n : ℕ) (xs ys : List Task) → n ≤ length xs → take n (xs ++ ys) ≡ take n xs
take-append ℕ.zero xs ys h = refl
take-append (ℕ.suc n) [] ys h = absurd (omega arith)
take-append (ℕ.suc n) (x ∷ xs) ys h = ap (λ ts. x ∷ ts) (take-append n xs ys (omega arith))

All-take : (P : Task → Type 0) (n : ℕ) (xs : List Task) → All P xs → All P (take n xs)
All-take P ℕ.zero xs h = tt
All-take P (ℕ.suc n) [] h = tt
All-take P (ℕ.suc n) (x ∷ xs) (p, h) = (p, All-take P n xs h)

All-filter :
    (P : Task → Type 0) (xs : List Task)
    → All (λ t. is_pending t ≡ true → P t) xs
    → All P (filter is_pending xs)
All-filter P [] h = tt
All-filter P (x ∷ xs) (p, h) = elim (Bool-cases (is_pending x)) [
  | inl waits ↦ rw waits (p waits, All-filter P xs h)
  | inr over ↦ rw over (All-filter P xs h)
]

module _ (services : Services) {F : Type 0} (r : Router F) where
  poll_each-idle :
      (olds ts : List Task)
      → All (λ t. poll services r t ≡ none) olds
      → poll_each services r olds ts ≡ ts
  unfolding poll_each
  poll_each-idle [] ts h = refl
  poll_each-idle (t ∷ olds) ts (p, h) = rw (p, poll_each) (poll_each-idle olds ts h)

  -- Where at least five tasks of `olds` are pending, whatever finished tasks stand among them, and
  -- a poll of a pending one gives no final status, because it runs on, cannot be polled or lost its
  -- adapter, a round changes nothing: the tasks created after them are not polled, finished or not.
  pub poll_tasks-starved :
      (query_fails : Bool) (olds rest : List Task)
      → 5 ≤ length (filter is_pending olds)
      → All (λ t. is_pending t ≡ true → poll services r t ≡ none) olds
      → poll_tasks services r query_fails (olds ++ rest) ≡ olds ++ rest
  unfolding poll_tasks get_pending_tasks
  poll_tasks-starved true olds rest five idle = refl
  poll_tasks-starved false olds rest five idle =
      let chosen : take 5 (filter is_pending (olds ++ rest)) ≡ take 5 (filter is_pending olds) =
        ap (take 5) (filter-append olds rest)
        ∙ take-append 5 (filter is_pending olds) (filter is_pending rest) five in
      ap (λ ts. poll_each services r ts (olds ++ rest)) chosen
      ∙ poll_each-idle (take 5 (filter is_pending olds)) (olds ++ rest) (
          All-take _ 5 (filter is_pending olds)
            (All-filter (λ t. poll services r t ≡ none) olds idle))
