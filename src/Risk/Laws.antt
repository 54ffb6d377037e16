-- ===== src/Risk/Laws.antt =====
-- What the risk engine guarantees.
use guardmcp.Prelude.{◌≤◌, ◌≡◌, ◌↔◌, ◌⊎◌, ◌≢◌, true, refl, none, Option, none, some, arith}
use guardmcp.Json.{Fields}
use guardmcp.Domain.{Action, is_write, delete_many, drop, RiskLevel, low, critical}
use guardmcp.Cost.{CostEstimate}
use guardmcp.Risk.{
  base_risk, is_scope_sensitive, is_unscoped, classify, order, cost_to_min_risk, raise_to,
  escalate_for_cost,
}

-- An action is classified critical exactly when it deletes many, drops a collection, or is a
-- mutation by filter whose given params have no filter or a falsy one.
pub classify-eq-critical_iff :
    (a : Action) (params : Fields)
    → (classify a (some params) ≡ critical) ↔ (
        (a ≡ delete_many)
        ⊎ (a ≡ drop)
        ⊎ ((is_scope_sensitive a ≡ true) × (is_unscoped params ≡ true)))
unfolding classify base_risk is_scope_sensitive
classify-eq-critical_iff a params = ground arith

-- Given params, the risk is never below the risk of the action alone.
pub classify-le :
    (a : Action) (params : Fields) → order (base_risk a) ≤ order (classify a (some params))
unfolding classify base_risk
classify-le a params = ground arith

-- A write is never classified low.
pub classify-write :
    (a : Action) (params : Option Fields) → is_write a ≡ true → classify a params ≢ low
unfolding classify base_risk is_write
classify-write a none h = ground arith
classify-write a (some params) h = ground arith

raise_to-least :
    (base : RiskLevel) (floor : Option RiskLevel) (r : RiskLevel)
    → (order (raise_to base floor) ≤ order r)
      ↔ ((order base ≤ order r) × ((f : RiskLevel) → floor ≡ some f → order f ≤ order r))
raise_to-least base none r = ((λ h. (h, λ f q. cc)), (λ h. h.0))
raise_to-least base (some f) r =
    ((λ h. (ground arith, λ g q. ground arith)), (λ h. ground (arith, h.0, h.1 f refl)))

-- The escalated risk is the least level that is at least the base and at least the floor of the
-- cost, if the cost has one.
pub escalate_for_cost-least :
    (base : RiskLevel) (cost : CostEstimate) (r : RiskLevel)
    → (order (escalate_for_cost base cost) ≤ order r) ↔ (
        (order base ≤ order r)
        × ((f : RiskLevel) → cost_to_min_risk cost.estimated_cost ≡ some f → order f ≤ order r))
unfolding escalate_for_cost
escalate_for_cost-least base cost r = raise_to-least base (cost_to_min_risk cost.estimated_cost) r
