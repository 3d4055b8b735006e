-- ===== src/Workflows/Semantics.antt =====
-- What a workflow means: its steps one after the other, each on the state that the one before it
-- left (executeWorkflow in backend/internal/gateway/router.go).
use ai_aggregator.Prelude.{
  ℕ, suc, ◌+◌, ◌≡◌, refl, sym, ◌∙◌, ap, Bool, false, String, List, [], ◌∷◌, ◌++◌, arith, inl, inr,
  ◌⊎◌,
}
use mathlib.Core.List.{append_assoc, append-nil}
use ai_aggregator.Float.{Float}
use ai_aggregator.Routing.Registry.{Store, Router}
use ai_aggregator.Workflows.{
  Step, State, StepRecord, Services, Performed, produced, broke, perform, completed_record,
  failed_record,
}
use ai_aggregator.Workflows.Runs.{
  Run, Stop, finished, step_failed, record_failed, add_step, run_steps,
}

module _ (services : Services) (fl : Float) (db : Store fl.F) (r : Router fl.F) where
  -- The meaning of the steps from the index `i` on a state: the records of the steps in order, and
  -- the state at the end with the sum of the costs, or the first step that failed.
  pub data Means : ℕ → List Step → State → List StepRecord → Stop → Type 0 where
    ends : {i : ℕ} {s : State} → Means i [] s [] (finished s 0)
    breaks :
        {i : ℕ} {step : Step} {rest : List Step} {s : State} (message : String)
        → perform services fl db r i step s ≡ broke message
        → Means i
            (step ∷ rest)
            s
            (failed_record services fl db r step message s ∷ [])
            (step_failed step.name message)
    completes :
        {i : ℕ} {step : Step} {rest : List Step} {s s' : State} {recs : List StepRecord} (out : _)
        (cost : ℕ) (last : State) (total : ℕ)
        → perform services fl db r i step s ≡ produced out cost s'
        → Means (suc i) rest s' recs (finished last total)
        → Means i
            (step ∷ rest)
            s
            (completed_record services fl db r step out cost s' ∷ recs)
            (finished last (cost + total))
    goes_on :
        {i : ℕ} {step : Step} {rest : List Step} {s s' : State} {recs : List StepRecord} (out : _)
        (cost : ℕ) (name message : String)
        → perform services fl db r i step s ≡ produced out cost s'
        → Means (suc i) rest s' recs (step_failed name message)
        → Means i
            (step ∷ rest)
            s
            (completed_record services fl db r step out cost s' ∷ recs)
            (step_failed name message)

pub no_record_failed :
    {services : Services} {fl : Float} {db : Store fl.F} {r : Router fl.F} {i : ℕ}
    {steps : List Step} {s : State} {recs : List StepRecord}
    → Means services fl db r i steps s recs record_failed
    → ⊥
no_record_failed m = elim m [ ]

performed-cases :
    (p : Performed)
    → ((m : String) × (p ≡ broke m))
      ⊎ ((out : _) × (cost : ℕ) × (s : State) × (p ≡ produced out cost s))
performed-cases (broke m) = inl (m, refl)
performed-cases (produced out cost s) = inr (out, cost, s, refl)

-- A total before the steps.
abbrev pub add_total : ℕ → Stop → Stop
add_total t (finished s c) = finished s (t + c)
add_total t (step_failed name message) = step_failed name message
add_total t record_failed = record_failed

abbrev pub with_steps : List StepRecord → Run → Run
with_steps recs run = record run { steps = run.steps ++ recs }

add_total_assoc : (t c : ℕ) (stop : Stop) → add_total (t + c) stop ≡ add_total t (add_total c stop)
add_total_assoc t c (finished s d) = ap (finished s) (omega arith)
add_total_assoc t c (step_failed name message) = refl
add_total_assoc t c record_failed = refl

pub add_total_zero : (stop : Stop) → add_total 0 stop ≡ stop
add_total_zero (finished s d) = ap (finished s) (omega arith)
add_total_zero (step_failed name message) = refl
add_total_zero record_failed = refl

with_steps-nil : (run : Run) → with_steps [] run ≡ run
with_steps-nil run = ap (λ ss. record run { steps = ss }) (append-nil run.steps)

with_steps-add :
    (recs : List StepRecord) (rec : StepRecord) (run : Run)
    → with_steps recs (add_step rec run) ≡ with_steps (rec ∷ recs) run
with_steps-add recs rec run =
    ap (λ ss. record run { steps = ss }) (append_assoc run.steps (rec ∷ []) recs)

module _ (services : Services) (fl : Float) (db : Store fl.F) (r : Router fl.F)
    (record_fails : ℕ → Bool) (ok : (i : ℕ) → record_fails i ≡ false) where
  -- The meaning of the steps, and the run of the loop that follows it.
  pub record Refines (i : ℕ) (steps : List Step) (s : State) (total : ℕ) (run : Run) : Type 0 where
    pub recs : List StepRecord
    pub stop : Stop
    pub means : Means services fl db r i steps s recs stop
    pub runs :
        run_steps services record_fails fl db r i steps s total run
        ≡ (add_total total stop, with_steps recs run)

  extend :
      (i : ℕ) (step : Step) (rest : List Step) (s s' : State) (out : _) (cost : ℕ)
      (recs : List StepRecord) (stop : Stop)
      → perform services fl db r i step s ≡ produced out cost s'
      → Means services fl db r (suc i) rest s' recs stop
      → Means services fl db r i
          (step ∷ rest)
          s
          (completed_record services fl db r step out cost s' ∷ recs)
          (add_total cost stop)
  extend i step rest s s' out cost recs (finished last total) h m =
      completes out cost last total h m
  extend i step rest s s' out cost recs (step_failed name message) h m =
      goes_on out cost name message h m
  extend i step rest s s' out cost recs record_failed h m = absurd (no_record_failed m)

  step_runs :
      (i : ℕ) (step : Step) (rest : List Step) (s s' : State) (out : _) (cost total : ℕ) (run : Run)
      → perform services fl db r i step s ≡ produced out cost s'
      → run_steps services record_fails fl db r i (step ∷ rest) s total run
        ≡ run_steps services record_fails fl db r
            (suc i)
            rest
            s'
            (total + cost)
            (add_step (completed_record services fl db r step out cost s') run)
  unfolding run_steps
  step_runs i step rest s s' out cost total run h = rw (h, ok i, run_steps) refl

  pub run_steps-Refines :
      (i : ℕ) (steps : List Step) (s : State) (total : ℕ) (run : Run) → Refines i steps s total run
  unfolding run_steps
  run_steps-Refines i [] s total run = record {
    recs = [];
    stop = finished s 0;
    means = ends;
    runs = sym (
        ap (λ n. (finished s n, with_steps [] run)) (omega arith)
        ∙ ap (λ q. (finished s total, q)) (with_steps-nil run));
  }
  run_steps-Refines i (step ∷ rest) s total run =
      elim (performed-cases (perform services fl db r i step s)) [
        | inl (m, h) ↦ record {
          recs = failed_record services fl db r step m s ∷ [];
          stop = step_failed step.name m;
          means = breaks m h;
          runs = rw (h, ok i, run_steps) refl;
        }
        | inr (out, cost, s', h) ↦
            let rec = completed_record services fl db r step out cost s' in
            let ih = run_steps-Refines (suc i) rest s' (total + cost) (add_step rec run) in
            record {
              recs = rec ∷ ih.recs;
              stop = add_total cost ih.stop;
              means = extend i step rest s s' out cost ih.recs ih.stop h ih.means;
              runs =
                  step_runs i step rest s s' out cost total run h
                  ∙ ih.runs
                  ∙ ap (λ a. (a, with_steps ih.recs (add_step rec run)))
                      (add_total_assoc total cost ih.stop)
                  ∙ ap (λ b. (add_total total (add_total cost ih.stop), b))
                      (with_steps-add ih.recs rec run);
            }
      ]
