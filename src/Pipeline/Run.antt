-- ===== src/Pipeline/Run.antt =====
-- core/pipeline.py: the masked response, `_execute_and_build`, `run` and `execute_approved`.
pub mod Courses
pub mod Audited
pub mod Success
pub mod Refused
pub mod Shown
use guardmcp.Prelude.{ℕ, String, Bool, true, false, Option, none, some, List, not, if◌then◌else◌}
use guardmcp.Json.{Value, arr, obj, Fields, get, put, of_texts}
use guardmcp.Domain.{
  Action, value, explain, collection_schema, is_no_mask, RiskLevel, high, DecisionStatus, Request,
  ErrorCode, Reason, Decision,
}
use guardmcp.Policy.{Policy, scope_for, mask_fields_for}
use guardmcp.Masking.{mask_result, transform_result}
use guardmcp.Approvals
use guardmcp.Approvals.{Status, Op, Draft}
use guardmcp.Neutral.{neutralize}
use guardmcp.Backend.{Backend, Execution, returned, type_marshal_error, failed}
use guardmcp.Pipeline.{Env, EvalResult, evaluate}
use guardmcp.Pipeline.Execute.{
  AuditStatus, audit_status, approved, error, Event, executed, Response, denial, failure, success,
  State, M, ◌>>=◌, ◌>>◌, pure, emit, rules_for, audit_event, maybe_escalate_for_cost,
}

-- `_with_neutral`
abbrev pub with_neutral : Action → Value → Response
with_neutral action data_ = success data_ (neutralize action data_)

abbrev pub is_explain : Action → Bool
is_explain explain = true
is_explain _ = false

-- `{**raw, "documents": transform(raw["documents"])}`
abbrev pub transform_documents : (Value → Value) → Fields → Option Value → Value
transform_documents transform raw none = transform (obj raw)
transform_documents transform raw (some documents) = obj (put "documents" (transform documents) raw)

abbrev pub transform_raw : (Value → Value) → Value → Value
transform_raw transform (obj raw) = transform_documents transform raw (get "documents" raw)
transform_raw transform raw = transform raw

-- What a response shows of a raw result under a policy.
unfoldable pub masked_data : Value → Action → Policy → String → Option String → Value
masked_data raw action policy collection database =
    let rules = rules_for policy collection database in
    if is_explain action
    then mask_result rules raw
    else if is_no_mask action
    then raw
    else transform_raw (transform_result rules (scope_for policy database).fields_allow) raw

-- `_build_success`
unfoldable pub build_success : Value → Action → Option Policy → String → Option String → Response
unfolding masked_data
build_success raw action none collection database = with_neutral action raw
build_success raw action (some policy) collection database =
    with_neutral action (masked_data raw action policy collection database)

abbrev pub is_schema : Action → Bool
is_schema collection_schema = true
is_schema _ = false

-- The mask fields of the policy go to schema inference.
abbrev pub inject : Request → Option Policy → Fields
inject req none = req.params
inject req (some policy) =
    if is_schema req.action
    then put "mask_fields" (arr (of_texts (mask_fields_for policy req.collection req.database)))
        req.params
    else req.params

abbrev pub safe_message : Backend → String → String
safe_message backend text = elim backend.sanitize_error [
  | none ↦ "Operation failed. Check parameters and try again."
  | some sanitize ↦ sanitize text
]

-- What follows the call of the backend.
abbrev pub conclude : Env → Request → Option Policy → Execution → M Response
conclude env req policy (returned raw) =
    pure (build_success raw req.action policy req.collection req.database)
conclude env req policy (type_marshal_error text) = do
  audit_event req policy error (Reason.message text) none
  pure (failure (Reason.message text) ErrorCode.type_mismatch)
conclude env req policy (failed text) = do
  audit_event req policy error (Reason.message (safe_message env.executor text)) none
  pure (failure (Reason.message (safe_message env.executor text)) ErrorCode.backend_error)

-- `_execute_and_build`
unfoldable pub execute_and_build : Env → Request → Option Policy → M Response
unfolding build_success
execute_and_build env req policy = do
  let params = inject req policy
  emit (executed req.collection req.action params req.database)
  conclude env req policy (env.executor.execute req.collection req.action params req.database)

-- What the source draws while a request runs: whether the limiter lets it pass (`none` without one),
-- the id and the time of an approval request, and what other tasks do while it waits.
pub record Draws : Type 0 where
  pub limiter : Option Bool
  pub approval_id : String
  pub created_at : ℕ
  pub waiting : List Op

abbrev pub limited : Draws → Bool
limited d = elim d.limiter [ none ↦ false | some passes ↦ not passes ]

-- `self._approvals.create` and `wait_for_decision`
abbrev pub ask_human : Request → Decision → Draws → M Status
ask_human req decision d s =
    let (created, approvals) =
      Approvals.create
        (record {
          approval_id = d.approval_id;
          agent = req.agent;
          action = value req.action;
          collection = req.collection;
          risk = elim decision.risk [ none ↦ high | some r ↦ r ];
          reason = decision.reason;
          params = req.params;
          created_at = d.created_at;
        })
        s.approvals in
    let (status, approvals') = Approvals.wait_for_decision d.approval_id d.waiting approvals in
    (status, record s { approvals = approvals' })

abbrev pub after_human : Env → Request → Option Policy → Decision → Status → M Response
after_human env req policy decision Status.approved = do
  audit_event req policy approved Reason.human_approved decision.risk
  execute_and_build env req policy
after_human env req policy decision _ = do
  audit_event req policy AuditStatus.denied Reason.declined_or_timed_out decision.risk
  pure (denial Reason.declined_or_timed_out (some ErrorCode.approval_declined))

-- What `run` does by the status of the decision, once that is audited.
by_status : Env → Request → Option Policy → Decision → Draws → DecisionStatus → M Response
by_status env req policy decision d DecisionStatus.denied =
    pure (denial decision.reason decision.code)
by_status env req policy decision d DecisionStatus.approval_required = do
  status ← ask_human req decision d
  after_human env req policy decision status
by_status env req policy decision d DecisionStatus.allowed = execute_and_build env req policy

settle : Env → EvalResult → Draws → Decision → M Response
settle env result d decision = do
  audit_event result.request result.policy (audit_status decision.status) decision.reason
      decision.risk
  by_status env result.request result.policy decision d decision.status

abbrev pub escalated : Env → EvalResult → Option Decision
escalated env result = elim result.policy [
  | none ↦ some result.decision
  | some policy ↦ maybe_escalate_for_cost env result.decision policy result.request
]

escalate : Env → EvalResult → Draws → Option Decision → M (Option Response)
escalate env result d none = pure none
escalate env result d (some decision) = do
  response ← settle env result d decision
  pure (some response)

-- `run`; `none` where the escalation raises.
unfoldable pub run : Env → Request → Draws → M (Option Response)
unfolding by_status settle escalate
run env request d =
    if limited d
    then pure (some (failure (Reason.rate_limit_exceeded request.agent) ErrorCode.rate_limited))
    else let result = (evaluate env request none none).0 in
      escalate env result d (escalated env result)

approve : Env → Request → Decision → Option Policy → DecisionStatus → M Response
approve env req decision policy DecisionStatus.denied = do
  audit_event req policy AuditStatus.denied (Reason.policy_changed decision.reason) none
  pure (denial decision.reason decision.code)
approve env req decision policy _ = do
  audit_event req policy approved Reason.approved_by_user decision.risk
  execute_and_build env req policy

-- `execute_approved`: the policy is evaluated anew.
unfoldable pub execute_approved : Env → EvalResult → M Response
unfolding approve
execute_approved env eval_result =
    let fresh = (evaluate env eval_result.request none none).0 in
    approve env eval_result.request fresh.decision fresh.policy fresh.decision.status
