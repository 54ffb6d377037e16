-- ===== src/Pipeline/Execute.antt =====
-- core/pipeline.py, the execution: auditing, cost escalation, `run`, `execute_approved` and the
-- masked response. Audit records and backend calls are kept as one history, the latest first.
pub mod Escalation
use guardmcp.Prelude.{
  ℕ, String, Bool, true, false, Option, none, some, List, [], ◌∷◌, ◌&&◌, ◌||◌, not, is_some,
  is_empty, ltb, leb, if◌then◌else◌,
}
use guardmcp.Json.{
  Value, str, arr, obj, null, bool, natural, negative, scalar, Items, Fields, end, field, get, put,
  of_texts,
}
use guardmcp.Domain.{
  Action, value, explain, find, collection_schema, is_no_mask, RiskLevel, high, critical, is_high,
  is_critical, DecisionStatus, Request, ErrorCode, Reason, Decision,
}
use guardmcp.Cost.{CostLevel, CostEstimate}
use guardmcp.Risk.{classify, escalate_for_cost, order}
use guardmcp.Policy.{Policy, scope_for, mask_fields_for}
use guardmcp.Masking.{Rules, split_mask_entries, mask_result, transform_result}
use guardmcp.Approvals.{ApprovalStore, Status, Op, Draft, create, wait_for_decision}
use guardmcp.Capability.{Capability, action_to_capability}
use guardmcp.Neutral.{Neutral, neutralize}
use guardmcp.Backend.{Backend, Plugin, Execution, returned, type_marshal_error, failed}
use guardmcp.Pipeline.{Env, EvalResult, evaluate}

pub data AuditStatus : Type 0 where
  allowed denied approval_required approved error : AuditStatus

-- `decision.status.value`
abbrev pub audit_status : DecisionStatus → AuditStatus
audit_status DecisionStatus.allowed = allowed
audit_status DecisionStatus.denied = denied
audit_status DecisionStatus.approval_required = approval_required

-- The time, the node and the trace id are left out.
pub record AuditRecord : Type 0 where
  pub agent : String
  pub collection : String
  pub action : String
  pub status : AuditStatus
  pub reason : Option Reason
  pub risk : Option RiskLevel
  pub request_id : Option String
  pub params : Option Value
  pub database : Option String

pub data Event : Type 0 where
  audited : AuditRecord → Event
  executed : (collection : String) → Action → (params : Fields) → (database : Option String) → Event

pub data Response : Type 0 where
  denial : Reason → Option ErrorCode → Response
  failure : Reason → ErrorCode → Response
  success : Value → Neutral → Response

pub record State : Type 0 where
  pub approvals : ApprovalStore
  pub history : List Event

abbrev pub M : Type 0 → Type 0
M A = State → A × State

infixl 5 ◌>>=◌ ◌>>◌
abbrev pub ◌>>=◌ : {A B : Type 0} → M A → (A → M B) → M B
◌>>=◌ m f s = let (a, s') = m s in f a s'

abbrev pub ◌>>◌ : {A B : Type 0} → M A → M B → M B
m >> k = m >>= λ _. k

abbrev pub pure : {A : Type 0} → A → M A
pure a s = (a, s)

abbrev pub emit : Event → M (Unit {0})
emit e s = (tt, record s { history = e ∷ s.history })

-- `policy.audit_masker(…)` and `policy.result_transformer(…)`, with their rules and allow-list
abbrev pub rules_for : Policy → String → Option String → Rules
rules_for policy collection database =
    split_mask_entries (mask_fields_for policy collection database)

abbrev is_end : Fields → Bool
is_end end = true
is_end (field k v fs) = false

-- `_audit_params`
unfoldable pub audit_params : Request → Option Policy → Value
audit_params req none = obj req.params
audit_params req (some policy) =
    if is_end req.params || is_empty (mask_fields_for policy req.collection req.database)
    then obj req.params
    else mask_result (rules_for policy req.collection req.database) (obj req.params)

-- `_audit_event`, as `run`, `execute_approved` and `_execute_and_build` call it: none of them gives
-- the database.
abbrev pub audit_event :
    Request → Option Policy → AuditStatus → Reason → Option RiskLevel → M (Unit {0})
audit_event req policy status reason risk = emit (
    audited (record {
      agent = req.agent;
      collection = req.collection;
      action = value req.action;
      status = status;
      reason = some reason;
      risk = risk;
      request_id = some req.request_id;
      params = some (audit_params req policy);
      database = none;
    }))

-- `action in _SCAN_LIKE_ACTIONS`
abbrev pub is_scan_like : Action → Bool
is_scan_like Action.update_one = true
is_scan_like Action.update_many = true
is_scan_like Action.delete_one = true
is_scan_like Action.delete_many = true
is_scan_like _ = false

-- The capability whose cost is estimated for the action, if it is a read or an aggregation.
abbrev pub estimable : Capability → Bool
estimable Capability.read = true
estimable Capability.aggregate = true
estimable _ = false

abbrev pub cost_capability : Action → Capability
cost_capability action =
    if is_scan_like action then Capability.read else action_to_capability action

-- `_COST_ORDER.get`
abbrev pub cost_order : CostLevel → Option ℕ
cost_order CostLevel.low = some 0
cost_order CostLevel.medium = some 1
cost_order CostLevel.high = some 2
cost_order CostLevel.critical = some 3
cost_order CostLevel.unknown = none

-- Whether an estimate reaches the threshold. The source raises `KeyError` where the policy's
-- threshold is UNKNOWN and the estimate is not; that is `none`.
abbrev pub reaches : Option ℕ → Option ℕ → Option Bool
reaches none threshold = some false
reaches (some c) none = none
reaches (some c) (some t) = some (leb t c)

abbrev pub same_risk : RiskLevel → RiskLevel → Bool
same_risk a b = leb (order a) (order b) && leb (order b) (order a)

abbrev pub base_risk_of : Option RiskLevel → Request → RiskLevel
base_risk_of (some r) req = r
base_risk_of none req = classify req.action (some req.params)

abbrev pub is_allowed : DecisionStatus → Bool
is_allowed DecisionStatus.allowed = true
is_allowed _ = false

-- The decision at the escalated risk.
unfoldable pub at_risk : Decision → Policy → RiskLevel → Decision
at_risk decision policy new_risk =
    if is_allowed decision.status
      && ((is_high new_risk && policy.approval.high)
          || (is_critical new_risk && policy.approval.critical))
    then record {
      status = DecisionStatus.approval_required;
      reason = Reason.cost_escalated decision.reason new_risk;
      risk = some new_risk;
      code = decision.code;
    }
    else record decision { risk = some new_risk }

abbrev pub is_denied : DecisionStatus → Bool
is_denied DecisionStatus.denied = true
is_denied _ = false

-- `if new_risk == base_risk: return decision`
with_risk : Decision → Policy → (base new_risk : RiskLevel) → Decision
with_risk decision policy base new_risk =
    if same_risk new_risk base then decision else at_risk decision policy new_risk

-- By whether the estimate reaches the threshold.
with_reached : Decision → Policy → Request → CostEstimate → Option Bool → Option Decision
with_reached decision policy req estimate none = none
with_reached decision policy req estimate (some false) = some decision
with_reached decision policy req estimate (some true) =
    let base = base_risk_of decision.risk req in
    some (with_risk decision policy base (escalate_for_cost base estimate))

with_estimate : Decision → Policy → CostLevel → Request → Option CostEstimate → Option Decision
with_estimate decision policy max_cost req none = some decision
with_estimate decision policy max_cost req (some estimate) =
    with_reached decision policy req estimate
      (reaches (cost_order estimate.estimated_cost) (cost_order max_cost))

with_plugin : Decision → Policy → CostLevel → Request → Option Plugin → Option Decision
with_plugin decision policy max_cost req none = some decision
with_plugin decision policy max_cost req (some plugin) =
    with_estimate decision policy max_cost req (
      plugin.estimate (cost_capability req.action) req.collection (get "filter" req.params)
        (get "pipeline" req.params))

with_max_cost : Env → Decision → Policy → Request → Option CostLevel → Option Decision
with_max_cost env decision policy req none = some decision
with_max_cost env decision policy req (some max_cost) =
    if is_denied decision.status || not (estimable (cost_capability req.action))
    then some decision
    else with_plugin decision policy max_cost req env.plugin

-- `_maybe_escalate_for_cost`; `none` where it raises.
unfoldable pub maybe_escalate_for_cost : Env → Decision → Policy → Request → Option Decision
unfolding with_max_cost with_plugin with_estimate with_reached with_risk
maybe_escalate_for_cost env decision policy req =
    with_max_cost env decision policy req policy.max_cost
