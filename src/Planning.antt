-- ===== src/Planning.antt =====
-- core/planning: what a plan is made of (models.py). Its modules read the intent, detect ambiguity, build
-- and rank the plans, and run the planning pipeline.
pub mod Intent
pub mod Ambiguity
pub mod Plans
pub mod Pipeline
pub mod Ranked
pub mod Recommended
use guardmcp.Prelude.{ℕ, String, Bool, true, false, Option, none, some, List, [], ◌∷◌, ◌++◌}
use guardmcp.Json.{Value, str, natural, obj, arr, Items, Fields, end, field}
use guardmcp.Dict.{Dict}
use guardmcp.Domain.{DecisionStatus, RiskLevel, Reason}
use guardmcp.Cost.{CostEstimate}
use guardmcp.Capability.{Capability}

-- Of a `CapabilityRequest`, the fields that the planner and the plugins' alternatives fill.
pub record PlanRequest : Type 0 where
  pub capability : Capability
  pub resource : String
  pub filter : Option Fields
  pub pipeline : Option Items
  pub limit : Option ℕ
  pub sort : Option Fields

-- A confidence in hundredths.
pub record Interpretation : Type 0 where
  pub name : String
  pub operator : String
  pub value : Value
  pub confidence : ℕ
  pub concept : String

pub record AmbiguityReport : Type 0 where
  pub ambiguous : Bool
  pub confidence : ℕ
  pub interpretations : List Interpretation

-- `ExecutionPlan` and `AlternativePlan`, whose rank and tradeoff have defaults. The governance is the
-- decision with its reason, once there is one.
pub record Plan : Type 0 where
  pub strategy : String
  pub request : PlanRequest
  pub est_cost : Option CostEstimate
  pub complexity : String
  pub index_used : Option Bool
  pub risk_level : Option RiskLevel
  pub governance : Option (DecisionStatus × Reason)
  pub rank : ℕ
  pub tradeoff : String

-- An index: the fields of its key.
abbrev pub Index : Type 0
Index = List String

-- `indexed_fields`, as a list
unfoldable pub indexed_fields : List Index → List String
indexed_fields [] = []
indexed_fields (key ∷ rest) = key ++ indexed_fields rest
