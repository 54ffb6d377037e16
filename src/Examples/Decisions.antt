-- ===== src/Examples/Decisions.antt =====
-- Evaluations: the gates, the engine, the risk and the cost.
use guardmcp.Prelude.{
  ℕ, ◌≤◌, String, ◌≡◌, ◌≢◌, ◌↔◌, ◌⊎◌, refl, inl, inr, Bool, true, false, Option, none, some, List,
  [], ◌∷◌, elem, ◌||◌, arith, Member,
}
use guardmcp.Json.{Value, get, Fields, end, field}
use guardmcp.Domain.{Action, value, DecisionStatus, RiskLevel, Request, Decision, is_write}
use guardmcp.Risk.{classify, is_scope_sensitive, is_unscoped, base_risk}
use guardmcp.Policy.{Policy, scope_for, mask_fields_for, bucket, buckets, MaskFields}
use guardmcp.Policy.Engine
use guardmcp.Policy.Engine.{TraceStep}
use guardmcp.Policy.Engine.Laws.{IsClear, NeedsApproval, evaluate-denied_iff, evaluate-allowed_iff}
use guardmcp.Pipeline.{evaluate, check_temporal}
use guardmcp.Pipeline.Evaluation.{Admitted, evaluate-Admitted_iff}
use guardmcp.Pipeline.Evaluation.Mongo.{ReachesOnly, evaluate-pipeline}
use guardmcp.Examples.{analyst, env, find_users, join_orders, lookup_orders}

abbrev drop_users : Request
drop_users = record find_users { action = Action.drop }

find_users-allowed : (evaluate env find_users none none).0.decision.status ≡ DecisionStatus.allowed
unfolding evaluate check_temporal guardmcp.Policy.database_permitted
    guardmcp.Pipeline.guard_aggregation get Engine.evaluate guardmcp.Domain.is_db_level
    Engine.collection_permitted elem scope_for value classify is_scope_sensitive base_risk
find_users-allowed = refl

join_orders-asks :
    (evaluate env join_orders none none).0.decision.status ≡ DecisionStatus.approval_required
unfolding evaluate check_temporal guardmcp.Policy.database_permitted
    guardmcp.Pipeline.guard_aggregation get guardmcp.Json.is_truthy
    guardmcp.Pipeline.first_forbidden guardmcp.Backend.referenced_collections
    guardmcp.Guard.extract_pipeline_collections elem Engine.collection_permitted scope_for
    guardmcp.Backend.masked_field_references guardmcp.Guard.find_masked_field_references
    mask_fields_for guardmcp.Guard.check_str Engine.evaluate guardmcp.Dict.lookup
    guardmcp.Domain.is_db_level is_write value guardmcp.Guard.head_field guardmcp.Guard.hits
    Engine.add guardmcp.Policy.seen_add guardmcp.Policy.seen_add_all guardmcp.Prelude.before
    guardmcp.Prelude.lstrip base_risk classify is_scope_sensitive is_unscoped
join_orders-asks = refl

evaluate-Admitted_example : Admitted env find_users (some analyst)
evaluate-Admitted_example =
    (evaluate-Admitted_iff env find_users none none).0 (λ e. cc (find_users-allowed, e))

evaluate-pipeline_example :
    (policy : Policy) × (some analyst ≡ some policy) × ReachesOnly policy join_orders lookup_orders
unfolding get guardmcp.Json.is_truthy
evaluate-pipeline_example =
    evaluate-pipeline env join_orders none none lookup_orders refl refl refl refl
      (λ e. cc (join_orders-asks, e))

evaluate-denied_example : ¬ IsClear drop_users analyst (scope_for analyst none)
unfolding Engine.evaluate guardmcp.Domain.is_db_level Engine.collection_permitted elem scope_for
    value
evaluate-denied_example =
    (evaluate-denied_iff drop_users analyst RiskLevel.critical none none).0 refl

evaluate-allowed_example :
    IsClear find_users analyst (scope_for analyst none) × (¬ NeedsApproval analyst RiskLevel.low)
unfolding Engine.evaluate guardmcp.Domain.is_db_level Engine.collection_permitted elem scope_for
    value
evaluate-allowed_example = (evaluate-allowed_iff find_users analyst RiskLevel.low none none).0 refl

-- A policy with a global bucket and one of a collection.
abbrev bucketed : Policy
bucketed = record analyst {
  mask_fields = buckets (("*", "ssn" ∷ []) ∷ ("users", "email" ∷ []) ∷ []);
}
