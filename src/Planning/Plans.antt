-- ===== src/Planning/Plans.antt =====
-- core/planning/planner.py and core/planning/recommend.py: the base plan, its alternatives, their ranks.
use Prim.Native.String.{◌++◌ as append}
use guardmcp.Prelude.{
  ℕ, suc, String, Bool, true, false, Option, none, some, List, [], ◌∷◌, ◌&&◌, ◌||◌, elem, leb, ltb,
  ◌===◌, if◌then◌else◌, map,
}
use guardmcp.Json.{Fields, field, end, negative}
use guardmcp.Domain.{DecisionStatus, allowed, denied, approval_required, Reason}
use guardmcp.Cost.{CostLevel, CostEstimate}
use guardmcp.Capability.{Capability}
use guardmcp.Planning.{PlanRequest, Interpretation, Plan, Index, indexed_fields}
use guardmcp.Planning.Intent.{detect_limit, detect_sort}

abbrev pub filter_of : Option Interpretation → Option Fields
filter_of none = none
filter_of (some i) = some (field i.name i.value end)

abbrev pub descending : Option String → Option Fields
descending none = none
descending (some name) = some (field name (negative 0) end)

abbrev pub uses_index : (indexed : List String) → Option Interpretation → Option Bool
uses_index indexed none = none
uses_index indexed (some i) = some (elem i.name indexed)

-- `if index_used` of an optional Boolean
abbrev pub holds : Option Bool → Bool
holds none = false
holds (some b) = b

-- A plan that is not costed, governed or ranked yet.
abbrev pub bare_plan :
    (strategy : String)
    → PlanRequest
    → (complexity : String) → Option Bool
    → (tradeoff : String) → Plan
bare_plan strategy request complexity index_used tradeoff = record {
  strategy = strategy;
  request = request;
  est_cost = none;
  complexity = complexity;
  index_used = index_used;
  risk_level = none;
  governance = none;
  rank = 0;
  tradeoff = tradeoff;
}

-- `QueryPlanner.build`
unfoldable pub build :
    (intent resource : String)
    → (schema_fields : List String) → List Index
    → Option Interpretation
    → Plan
build intent resource schema_fields indexes interpretation =
    let index_used = uses_index (indexed_fields indexes) interpretation in
    bare_plan (if holds index_used then "index_scan" else "collection_scan")
      (record {
        capability = Capability.read;
        resource = resource;
        filter = filter_of interpretation;
        pipeline = none;
        limit = detect_limit intent;
        sort = descending (detect_sort intent schema_fields);
      })
      (if holds index_used then "low" else "high") index_used ""

-- `AlternativeRequest`
pub record AlternativeRequest : Type 0 where
  pub request : PlanRequest
  pub strategy : String
  pub complexity : String
  pub tradeoff : String

abbrev pub alternative : AlternativeRequest → Plan
alternative a = bare_plan a.strategy a.request a.complexity none a.tradeoff

-- `AlternativePlanner.expand`; `none` for a plugin without the method.
unfoldable pub expand : Plan → Option (PlanRequest → List AlternativeRequest) → List Plan
expand base none = base ∷ []
expand base (some alternatives) = base ∷ map alternative (alternatives base.request)

-- `_GOV_PENALTY`, `_COST_RANK`
abbrev pub penalty : Option (DecisionStatus × Reason) → ℕ
penalty none = 0
penalty (some (allowed, _)) = 0
penalty (some (approval_required, _)) = 1
penalty (some (denied, _)) = 2

abbrev pub cost_rank : CostLevel → ℕ
cost_rank CostLevel.low = 0
cost_rank CostLevel.medium = 1
cost_rank CostLevel.high = 2
cost_rank CostLevel.critical = 3
cost_rank CostLevel.unknown = 2

abbrev pub cost_of : Option CostEstimate → ℕ
cost_of none = 2
cost_of (some est) = cost_rank est.estimated_cost

abbrev pub scan_of : Option Bool → ℕ
scan_of index_used = if holds index_used then 0 else 1

-- Tuples in their order.
abbrev pub leb_score : ℕ × ℕ × ℕ → ℕ × ℕ × ℕ → Bool
leb_score (a, b, c) (x, y, z) = ltb a x || (leb a x && (ltb b y || (leb b y && leb c z)))

abbrev pub score : Plan → ℕ × ℕ × ℕ
score plan = (penalty plan.governance, cost_of plan.est_cost, scan_of plan.index_used)

-- By score, and by position among equals.
unfoldable pub insert_plan : Plan → List Plan → List Plan
insert_plan x [] = x ∷ []
insert_plan x (y ∷ ys) =
    let rest = insert_plan x ys in if leb_score (score x) (score y) then x ∷ y ∷ ys else y ∷ rest

unfoldable pub sort_plans : List Plan → List Plan
unfolding insert_plan
sort_plans [] = []
sort_plans (x ∷ xs) = insert_plan x (sort_plans xs)

abbrev pub level_name : CostLevel → String
level_name CostLevel.low = "LOW"
level_name CostLevel.medium = "MEDIUM"
level_name CostLevel.high = "HIGH"
level_name CostLevel.critical = "CRITICAL"
level_name CostLevel.unknown = "UNKNOWN"

-- `_tradeoff`
abbrev pub tradeoff_of : Plan → String
tradeoff_of plan = append (if holds plan.index_used then "index-backed" else "collection scan") (
    append ", " (
      append (elim plan.est_cost [ none ↦ "UNKNOWN" | some est ↦ level_name est.estimated_cost ])
        " cost"))

-- `enumerate(ordered, start=1)`
unfoldable pub number : ℕ → List Plan → List Plan
number n [] = []
number n (p ∷ ps) =
    record p { rank = n; tradeoff = if p.tradeoff === "" then tradeoff_of p else p.tradeoff }
    ∷ number (suc n) ps

-- `RecommendationEngine.rank`
unfoldable pub rank : List Plan → List Plan
unfolding sort_plans number
rank plans = number 1 (sort_plans plans)

abbrev pub is_refused : Option (DecisionStatus × Reason) → Bool
is_refused none = false
is_refused (some (denied, _)) = true
is_refused (some (_, _)) = false

-- The first plan of a ranking that is not denied.
unfoldable pub first_open : List Plan → Option Plan
first_open [] = none
first_open (p ∷ ps) = let rest = first_open ps in if is_refused p.governance then rest else some p
