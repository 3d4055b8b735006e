-- ===== src/Routing/Tests.antt =====
-- Runs of the router, and its laws applied at a concrete registry.
use mathlib.Core.List.{Perm}
use ai_aggregator.Prelude.{
  ℕ, ◌+◌, ◌*◌, ◌≡◌, refl, ◌≢◌, Bool, true, false, not, ◌||◌, String, some, List, [], ◌∷◌, ◌++◌,
  arith, eq_iff,
}
use ai_aggregator.Prelude.Int.{ℤ, pos, ltb_ℤ, ◌+ℤ◌, ◌*ℤ◌}
use ai_aggregator.Float.{Float}
use ai_aggregator.Routing.Candidates.{Binding, Policy, sort_candidates}
use ai_aggregator.Routing.Cost.{IsExact, HasPrice, IsByCost, sort_candidates-IsByCost}
use ai_aggregator.Routing.Registry.{Store, Router, refresh_registry}
use ai_aggregator.Routing.Registry.Adapter.{mock}
use ai_aggregator.Routing.Selection.{route_all_for_request}
use ai_aggregator.Routing.Guarantees.{IsRouting, route_all_for_request-IsRouting}
use ai_aggregator.Routing.Workspace.{with_policies, route_all_for_request-policy}

-- Whole numbers are floats without rounding and without NaN.
abbrev eq_ℤ : ℤ → ℤ → Bool
eq_ℤ a b = not (ltb_ℤ a b || ltb_ℤ b a)

pub ltb_ℤ-asym : (a b : ℤ) → ltb_ℤ a b ≡ true → ltb_ℤ b a ≡ false
ltb_ℤ-asym a b h = ground arith

pub ltb_ℤ-cotrans : (a b c : ℤ) → ltb_ℤ a b ≡ false → ltb_ℤ b c ≡ false → ltb_ℤ a c ≡ false
ltb_ℤ-cotrans a b c h k = ground arith

abbrev pub whole : Float
whole = record {
  F = ℤ;
  add = ◌+ℤ◌;
  mul = ◌*ℤ◌;
  of_ℤ = λ n. n;
  flt = ltb_ℤ;
  feq = eq_ℤ;
  IsNumber = λ _. Unit;
  flt_asym = λ a b _ _ h. ltb_ℤ-asym a b h;
  feq_def = λ a b _ _. refl;
  flt_cotrans = λ a b c _ _ _ h k. ltb_ℤ-cotrans a b c h k;
}

abbrev binding : String → ℕ → ℕ → Binding ℤ
binding id priority cost = record {
  provider_id = id;
  priority = pos priority;
  upstream_model = "up";
  cost_multiplier = pos cost;
  is_enabled = true;
  health_status = "healthy";
}

abbrev cheapest : Policy ℤ
cheapest = record {
  scope = "global";
  scope_id = "";
  strategy = "cost";
  latency_weight = pos 0;
  cost_weight = pos 0;
  error_weight = pos 0;
  is_enabled = true;
}

abbrev of_workspace : Policy ℤ
of_workspace = record cheapest { scope = "workspace"; scope_id = "w1" }

abbrev pub db : Store ℤ
db = record {
  providers = some [];
  models =
      some
        (record { model_id = "m1"; modality = "text"; display_name = "M"; is_async = false } ∷ []);
  bindings = λ _. some (binding "p1" 1 9 ∷ binding "p2" 2 3 ∷ []);
  policies = some [];
  stats = λ _. some [];
  keys = some [];
  env = λ _. [];
}

abbrev pub router : Router ℤ
router = record {
  adapters = ("p1", mock "p1") ∷ ("p2", mock "p2") ∷ [];
  providers = [];
  models = [];
  mock_mode = true;
}

pos-add : (a b : ℕ) → pos a +ℤ pos b ≡ pos (a + b)
unfolding ◌+ℤ◌
pos-add a b = ground arith

pos-mul : (a b : ℕ) → pos a *ℤ pos b ≡ pos (a * b)
unfolding ◌*ℤ◌
pos-mul a b = ground arith

whole-IsExact : IsExact whole
whole-IsExact = record {
  is_number = λ a h. tt;
  add_exact = λ a b h. pos-add a b;
  mul_exact = λ a b h. pos-mul a b;
  flt_exact = λ a b h k. ground arith;
}

abbrev bindings : List (Binding ℤ)
bindings = binding "p1" 1 9 ∷ binding "p2" 2 3 ∷ []

priced : (id : String) → HasPrice whole (binding id 1 9)
priced id = (
  9,
  1,
  record {
    multiplier = refl;
    rank = refl;
    positive = omega arith;
    cost_bound = omega arith;
    priority_bound = omega arith;
  },
)

cheap : HasPrice whole (binding "p2" 2 3)
cheap = (
  3,
  2,
  record {
    multiplier = refl;
    rank = refl;
    positive = omega arith;
    cost_bound = omega arith;
    priority_bound = omega arith;
  },
)

sort_candidates-IsByCost_example :
    Perm (sort_candidates whole (some cheapest) (some []) bindings) bindings
    × IsByCost whole (sort_candidates whole (some cheapest) (some []) bindings)
sort_candidates-IsByCost_example =
    sort_candidates-IsByCost whole whole-IsExact cheapest [] refl bindings
      (priced "p1", (cheap, tt))

route_all_for_request-IsRouting_example :
    IsRouting whole db
      (refresh_registry db router).1
      "m1"
      "u1"
      "w1"
      (route_all_for_request whole db "m1" "u1" "w1" router).0
route_all_for_request-IsRouting_example =
    route_all_for_request-IsRouting whole db router "m1" "u1" "w1"

false-true : false ≡ true → ⊥
false-true e = cc

route_all_for_request-policy_example :
    route_all_for_request whole (with_policies ([] ++ of_workspace ∷ []) db) "m1" "u1" "w1" router
    ≡ route_all_for_request whole (with_policies ([] ++ []) db) "m1" "u1" "w1" router
route_all_for_request-policy_example =
    route_all_for_request-policy whole db of_workspace [] [] router "m1" "u1" "w1" refl w1-not_empty
  where
    w1-not_empty : ◌≢◌ {A = String} "w1" ""
    w1-not_empty e = false-true ((eq_iff "w1" "").1 e)
