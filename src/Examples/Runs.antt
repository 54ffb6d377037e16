-- ===== src/Examples/Runs.antt =====
-- Whole requests.
use guardmcp.Prelude.{
  ℕ, String, ◌≡◌, ◌≢◌, refl, inl, inr, Bool, true, false, Option, none, some, List, [], ◌∷◌, elem,
}
use guardmcp.Json
use guardmcp.Json.{Value, str, arr, obj, Items, nil, cons, Fields, end, field, get, is_truthy}
use guardmcp.Domain.{Action, DecisionStatus, Decision, Reason, RiskLevel, Request, is_no_mask}
use guardmcp.Neutral.{neutralize}
use guardmcp.Policy
use guardmcp.Policy.{Policy}
use guardmcp.Policy.Engine
use guardmcp.Risk
use guardmcp.Masking
use guardmcp.Masking.Occurrence.{OccursIn}
use guardmcp.Approvals
use guardmcp.Approvals.{Op, resolves}
use guardmcp.Pipeline
use guardmcp.Pipeline.{Env, EvalResult, evaluate, check_temporal, guard_aggregation}
use guardmcp.Pipeline.Execute
use guardmcp.Pipeline.Execute.{Response, success, denial, State, Event}
use guardmcp.Pipeline.Run.{
  Draws, run, execute_approved, masked_data, execute_and_build, build_success,
}
use guardmcp.Pipeline.Run.Courses.{Adds}
use guardmcp.Pipeline.Run.Audited.{run-Course}
use guardmcp.Pipeline.Run.Courses.{Course}
use guardmcp.Cost.{CostLevel}
use guardmcp.Pipeline.Run.Refused.{Refuses, run-denied, execute_approved-denied}
use guardmcp.Pipeline.Run.Shown.{masked_data-Written}
use guardmcp.Masking.Redaction.{Written}
use guardmcp.Pipeline.Run.Success.{Answered, run-success, execute_approved-success}
use guardmcp.Examples.{
  analyst, ann_masked, ann, env, find_users, insert_user, stranger, draws, fresh,
}

abbrev masked_users : Value
masked_users = arr (cons (obj ann_masked) nil)

abbrev found : Decision
found = record {
  status = DecisionStatus.allowed;
  reason = Reason.permitted;
  risk = some RiskLevel.low;
  code = none;
}

abbrev raised : Decision
raised = record {
  status = DecisionStatus.approval_required;
  reason = Reason.cost_escalated Reason.permitted RiskLevel.critical;
  risk = some RiskLevel.critical;
  code = none;
}

find_users_evaluates :
    (evaluate env find_users none none).0.decision.status ≡ DecisionStatus.allowed
unfolding evaluate check_temporal Policy.database_permitted guard_aggregation get Engine.evaluate
    guardmcp.Domain.is_db_level Engine.collection_permitted elem Policy.scope_for
    guardmcp.Domain.value Risk.classify Risk.is_scope_sensitive Risk.base_risk
find_users_evaluates = refl

abbrev find_users_result : EvalResult
find_users_result = (record { request = find_users; decision = found; policy = some analyst })

abbrev stranger_result : EvalResult
stranger_result = (record { request = stranger; decision = found; policy = none })

abbrev costly : Policy
costly = record analyst { max_cost = some CostLevel.high }

abbrev broken : Policy
broken = record analyst { max_cost = some CostLevel.unknown }

find_users_returns :
    (run env find_users (draws []) fresh).0
    ≡ some (success masked_users (neutralize Action.find masked_users))
unfolding run evaluate check_temporal Policy.database_permitted guard_aggregation get
    Execute.maybe_escalate_for_cost Engine.evaluate guardmcp.Domain.is_db_level
    Engine.collection_permitted elem Policy.scope_for guardmcp.Domain.value Risk.classify
    Risk.is_scope_sensitive Risk.base_risk execute_and_build is_no_mask Masking.transform_result
    Approvals.await_event Approvals.create Approvals.deny_all Approvals.ids_where Approvals.perform
    Approvals.prune Approvals.remove_all Approvals.resolve Approvals.shutdown
    Approvals.wait_for_decision guardmcp.Capability.action_to_capability guardmcp.Dict.insert
    guardmcp.Dict.lookup guardmcp.Dict.modify guardmcp.Dict.remove guardmcp.Domain.is_write
    is_truthy Json.put Masking.elem_path Masking.mask Masking.mask_result Masking.path_eq
    Masking.split_mask_entries Masking.transform_doc neutralize Execute.at_risk Execute.audit_params
    build_success masked_data Pipeline.first_forbidden Engine.add Policy.mask_fields_for
    Policy.seen_add Policy.seen_add_all guardmcp.Prelude.has_char guardmcp.Prelude.split
    Risk.escalate_for_cost Risk.is_unscoped
find_users_returns = refl

run-success_example : Answered env find_users masked_users (neutralize Action.find masked_users)
run-success_example =
    run-success env find_users (draws []) fresh masked_users (neutralize Action.find masked_users)
      find_users_returns

execute_approved-success_example :
    Answered env find_users masked_users (neutralize Action.find masked_users)
unfolding execute_approved evaluate check_temporal Policy.database_permitted guard_aggregation get
    Engine.evaluate guardmcp.Domain.is_db_level Engine.collection_permitted elem Policy.scope_for
    guardmcp.Domain.value Risk.classify Risk.is_scope_sensitive Risk.base_risk execute_and_build
    is_no_mask guardmcp.Dict.lookup guardmcp.Domain.is_write is_truthy Json.put Masking.elem_path
    Masking.mask Masking.mask_result Masking.path_eq Masking.split_mask_entries
    Masking.transform_doc Masking.transform_result neutralize Execute.audit_params build_success
    masked_data Pipeline.first_forbidden Engine.add Policy.mask_fields_for Policy.seen_add
    Policy.seen_add_all guardmcp.Prelude.has_char guardmcp.Prelude.split Risk.is_unscoped
execute_approved-success_example =
    execute_approved-success env find_users_result fresh masked_users
      (neutralize Action.find masked_users) refl

-- An insert by the analyst needs a human, who approves it while it waits.
abbrev approving : Draws
approving = draws (resolves "a1" true ∷ [])

run-Course_example :
    Adds (Course insert_user "a1" approving.waiting) (run env insert_user approving) fresh
run-Course_example = run-Course env insert_user approving fresh

run-denied_example :
    Refuses stranger fresh
      (some (
        denial
          (evaluate env stranger none none).0.decision.reason
          (evaluate env stranger none none).0.decision.code))
      (run env stranger (draws []) fresh)
unfolding evaluate
run-denied_example = run-denied env stranger (draws []) fresh refl refl

execute_approved-denied_example :
    Refuses stranger fresh
      (denial
        (evaluate env stranger none none).0.decision.reason
        (evaluate env stranger none none).0.decision.code)
      (execute_approved env stranger_result fresh)
unfolding evaluate
execute_approved-denied_example = execute_approved-denied env stranger_result fresh refl

masked_data-Written_example : Written "email" (str "***masked***")
unfolding elem Masking.split_mask_entries Policy.mask_fields_for Policy.scope_for
    guardmcp.Prelude.has_char is_no_mask OccursIn masked_data Masking.transform_result
    Masking.elem_path Masking.path_eq guardmcp.Prelude.split Masking.transform_doc
masked_data-Written_example =
    masked_data-Written (arr (cons (obj ann) nil)) Action.find analyst "users" none "email"
      (str "***masked***") refl (inr (refl, tt)) (inl (inr (inr (inl (refl, refl)))))
