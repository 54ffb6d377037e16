-- ===== src/Pipeline.antt =====
-- core/pipeline.py, the evaluation: `GuardPipeline.evaluate`, with its temporal window, database gate
-- and aggregation guard.
pub mod Temporal
pub mod Clear
pub mod Evaluation
pub mod Execute
pub mod Run
use guardmcp.Prelude.{
  ℕ, String, Bool, true, false, Option, none, some, List, [], ◌∷◌, ◌||◌, not, is_some, is_empty,
  ltb, if◌then◌else◌,
}
use guardmcp.Json.{Value, Fields, get, truthy_option}
use guardmcp.Domain.{
  Action, find, RiskLevel, DecisionStatus, denied, Request, ErrorCode, Reason, Decision,
}
use guardmcp.Risk.{classify}
use guardmcp.Policy.{
  Policy, DateTime, aware, naive, DatabaseScope, scope_for, database_permitted, mask_fields_for,
}
use guardmcp.Policy.Engine
use guardmcp.Policy.Engine.{Trace, add, matched, passed, collection_permitted}
use guardmcp.Capability.{Capability, capability_to_action}
use guardmcp.Backend.{Backend, Plugin}

-- `_aware`: a naive time is read as UTC.
abbrev pub instant : DateTime → ℕ
instant (aware t) = t
instant (naive t) = t

abbrev pub before_start : ℕ → Option DateTime → Bool
before_start now none = false
before_start now (some nb) = ltb now (instant nb)

abbrev pub after_end : ℕ → Option DateTime → Bool
after_end now none = false
after_end now (some na) = ltb (instant na) now

abbrev deny : Reason → ErrorCode → Decision
deny reason code = record { status = denied; reason = reason; risk = none; code = some code }

has_window : Policy → Bool
has_window policy = is_some policy.not_before || is_some policy.not_after

-- `_check_temporal`; the clock is read once.
unfoldable pub check_temporal : ℕ → String → Policy → Option Decision
unfolding has_window
check_temporal now agent policy =
    if not (has_window policy)
    then none
    else if before_start now policy.not_before || after_end now policy.not_after
    then some (deny (Reason.not_active agent) ErrorCode.policy_denied)
    else none

-- The first referenced collection that the scope does not permit; the order is that of a set.
unfoldable pub first_forbidden : DatabaseScope → List String → Option String
first_forbidden scope [] = none
first_forbidden scope (ref ∷ refs) =
    let rest = first_forbidden scope refs in
    if collection_permitted ref scope.collections.allow scope.collections.deny
    then rest
    else some ref

-- What the backend finds; one without the method has nothing to find.
abbrev pub refs_of : Backend → Fields → List String
refs_of backend params = elim backend.referenced_collections [ none ↦ [] | some f ↦ f params ]

abbrev pub leaks_of : Backend → Fields → List String → List String
leaks_of backend params fields = elim backend.masked_field_references [
  | none ↦ []
  | some f ↦ f params fields
]

guard_leaks : List String → Option Decision
guard_leaks leaked =
    if is_empty leaked
    then none
    else some (deny (Reason.references_masked leaked) ErrorCode.policy_denied)

guard_refs : Option String → Option Decision → Option Decision
guard_refs none next = next
guard_refs (some ref) next =
    some (deny (Reason.references_collection ref) ErrorCode.collection_not_allowed)

-- `_guard_aggregation`
unfoldable pub guard_aggregation : Backend → Request → Policy → Option Decision
unfolding guard_leaks guard_refs
guard_aggregation backend request policy =
    let refs = refs_of backend request.params in
    let leaked =
      leaks_of backend request.params
        (mask_fields_for policy request.collection request.database) in
    if truthy_option (get "pipeline" request.params)
    then guard_refs (first_forbidden (scope_for policy request.database) refs) (guard_leaks leaked)
    else none

-- What surrounds an evaluation: the loaded policies, the time, the active executor and plugin.
pub record Env : Type 0 where
  pub policies : String → Option Policy
  pub now : ℕ
  pub executor : Backend
  pub plugin : Option Plugin

pub record EvalResult : Type 0 where
  pub request : Request
  pub decision : Decision
  pub policy : Option Policy

-- An early return, with the trace as it stands.
abbrev stop : Request → Option Policy → Decision → Trace → EvalResult × Trace
stop request policy decision trace =
    (record { request = request; decision = decision; policy = policy }, trace)

-- The last step: the risk, then the engine.
decide : Request → Policy → Trace → EvalResult × Trace
decide request policy trace =
    let (decision, trace') =
      Engine.evaluate request policy (classify request.action (some request.params)) trace
        request.database in
    stop request (some policy) decision trace'

after_guard : Request → Policy → Option Decision → Trace → EvalResult × Trace
after_guard request policy (some d) trace =
    stop request (some policy) d (add "pipeline" "aggregation_guard" matched trace)
after_guard request policy none trace = decide request policy (
    if truthy_option (get "pipeline" request.params)
    then add "pipeline" "aggregation_guard" passed trace
    else trace)

after_window : Env → Request → Policy → Trace → EvalResult × Trace
after_window env request policy trace =
    if database_permitted policy request.database
    then after_guard request policy (guard_aggregation env.executor request policy) trace
    else stop request (some policy)
        (deny (Reason.database_denied request.database) ErrorCode.database_not_allowed)
        (add "policy" "database_access" matched trace)

after_temporal : Env → Request → Policy → Option Decision → Trace → EvalResult × Trace
after_temporal env request policy (some d) trace =
    stop request (some policy) d (add "pipeline" "temporal_window" matched trace)
after_temporal env request policy none trace =
    after_window env request policy
      (if has_window policy then add "pipeline" "temporal_window" passed trace else trace)

with_policy : Env → Request → Option Policy → Trace → EvalResult × Trace
with_policy env request none trace =
    stop request none (deny (Reason.no_policy request.agent) ErrorCode.policy_denied)
      (add "policy" "policy_lookup" matched trace)
with_policy env request (some policy) trace =
    after_temporal env request policy (check_temporal env.now request.agent policy) trace

abbrev pub chosen : Option Policy → Option Policy → Option Policy
chosen (some p) loaded = some p
chosen none loaded = loaded

-- `evaluate`, of a request that is built from its arguments.
unfoldable pub evaluate :
    Env → Request → (trace : Trace) → (policy_override : Option Policy) → EvalResult × Trace
unfolding with_policy after_temporal after_window after_guard decide has_window
evaluate env request trace policy_override =
    with_policy env request (chosen policy_override (env.policies request.agent)) trace

-- `evaluate_capability`: the pinned action, or the one that stands for the capability. The request
-- carries the resource and the dumped params.
unfoldable pub evaluate_capability :
    Env → Request → Capability → (pinned : Option Action) → EvalResult
evaluate_capability env request capability (some action) =
    (evaluate env (record request { action = action; database = none }) none none).0
evaluate_capability env request capability none = elim (capability_to_action capability) [
  | some action ↦ (evaluate env (record request { action = action; database = none }) none none).0
  | none ↦ record {
    request = record request { action = find; database = none };
    decision = record {
      status = denied;
      reason = Reason.message "no representative action";
      risk = none;
      code = some ErrorCode.unsupported_capability;
    };
    policy = none;
  }
]
