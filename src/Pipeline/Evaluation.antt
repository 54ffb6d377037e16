-- ===== src/Pipeline/Evaluation.antt =====
-- What `evaluate` lets pass: each gate by a description that is independent of the code.
pub mod Mongo
use guardmcp.Prelude.{
  ℕ, String, ◌≡◌, ◌≢◌, ◌↔◌, refl, inl, inr, true, Option, none, some, List, [], ◌∷◌, arith, Member,
  Bool-cases, if◌then◌else◌, subst, sym, ◌∙◌,
}
use guardmcp.Json.{Value, get, is_truthy, truthy_option}
use guardmcp.Domain.{denied, Decision, Request}
use guardmcp.Policy.{Policy, DatabaseScope, scope_for, database_permitted, mask_fields_for}
use guardmcp.Policy.Engine.{Trace, collection_permitted}
use guardmcp.Policy.Engine
use guardmcp.Policy.Engine.Laws.{
  Permits, collection_permitted_iff, IsClear, lists_of_status, status_of_lists,
}
use guardmcp.Guard.Keys.{RefersTo}
use guardmcp.Guard.References.{
  HasPath, extract_pipeline_collections_iff, find_masked_field_references_iff,
}
use guardmcp.Backend.{Backend, referenced_collections, masked_field_references}
use guardmcp.Guard.{extract_pipeline_collections, find_masked_field_references}
use guardmcp.Pipeline.{
  Env, EvalResult, chosen, check_temporal, has_window, first_forbidden, guard_refs, guard_leaks,
  refs_of, leaks_of, guard_aggregation, decide, after_guard, after_window, after_temporal,
  with_policy, evaluate,
}
use guardmcp.Pipeline.Temporal.{InWindow, check_temporal_iff}
use guardmcp.Pipeline.Clear.{PipelineIsClear, guard_aggregation_iff}

-- What a policy asks of a request at a time, apart from approvals.
pub record Admits (env : Env) (request : Request) (policy : Policy) : Type 0 where
  pub window : InWindow env.now policy
  pub database : database_permitted policy request.database ≡ true
  pub pipeline : PipelineIsClear env.executor request policy
  pub clear : IsClear request policy (scope_for policy request.database)

-- The chosen policy, if there is one, admits the request.
abbrev pub Admitted : Env → Request → Option Policy → Type 0
Admitted env request o = (policy : Policy) × (o ≡ some policy) × Admits env request policy

guard_aggregation-denied :
    (backend : Backend) (request : Request) (policy : Policy) (d : Decision)
    → guard_aggregation backend request policy ≡ some d
    → d.status ≡ denied
unfolding guard_aggregation guard_refs guard_leaks
guard_aggregation-denied backend request policy d e = ground arith

check_temporal-denied :
    (now : ℕ) (agent : String) (policy : Policy) (d : Decision)
    → check_temporal now agent policy ≡ some d
    → d.status ≡ denied
unfolding check_temporal
check_temporal-denied now agent policy d e = ground arith

module _ (env : Env) (request : Request) where
  guard_step :
      (policy : Policy) (o : Option Decision) (trace : Trace)
      → guard_aggregation env.executor request policy ≡ o
      → ((after_guard request policy o trace).0.decision.status ≢ denied) ↔ (
          PipelineIsClear env.executor request policy
          × IsClear request policy (scope_for policy request.database))
  unfolding after_guard decide
  guard_step policy none trace e = (
    (λ h. (
      (guard_aggregation_iff env.executor request policy).0 e,
      lists_of_status request policy _ _ request.database h,
    )),
    (λ h. status_of_lists request policy _ _ request.database h.1),
  )
  guard_step policy (some d) trace e = (
    (λ h. absurd (h (guard_aggregation-denied env.executor request policy d e))),
    (λ h. cc (e, (guard_aggregation_iff env.executor request policy).1 h.0)),
  )

  window_step :
      (policy : Policy) (o : Option Decision) (trace : Trace)
      → check_temporal env.now request.agent policy ≡ o
      → ((after_temporal env request policy o trace).0.decision.status ≢ denied)
        ↔ Admits env request policy
  unfolding after_temporal after_window
  window_step policy none trace e = elim (Bool-cases (database_permitted policy request.database)) [
    | inl hit ↦
        let (to, from) =
          guard_step policy (guard_aggregation env.executor request policy)
            (if has_window policy
              then Engine.add "pipeline" "temporal_window" Engine.passed trace
              else trace)
            refl in
        (
          (λ h.
              let (p, c) = to (rw hit at h) in
              record {
                window = (check_temporal_iff env.now request.agent policy).0 e;
                database = hit;
                pipeline = p;
                clear = c;
              }),
          (λ h. rw hit (from (h.pipeline, h.clear))),
        )
    | inr miss ↦ ((λ h. ground arith), (λ h. cc (miss, h.database)))
  ]
  window_step policy (some d) trace e = (
    (λ h. absurd (h (check_temporal-denied env.now request.agent policy d e))),
    (λ h. cc (e, (check_temporal_iff env.now request.agent policy).1 h.window)),
  )

  policy_step :
      (o : Option Policy) (trace : Trace)
      → ((with_policy env request o trace).0.decision.status ≢ denied) ↔ Admitted env request o
  unfolding with_policy
  policy_step none trace = ((λ h. absurd (h refl)), (λ h. cc (h.1)))
  policy_step (some policy) trace =
      let (to, from) =
        window_step policy (check_temporal env.now request.agent policy) trace refl in
      ((λ h. (policy, refl, to h)), (λ h. from (subst (Admits env request) (cc h.1) h.2)))

-- An evaluation does not deny exactly when there is a policy, the override or the one that is loaded
-- for the agent, which admits the request: the time is in its window, it permits the database, its
-- pipeline, as the backend reads it, names no collection outside the scope and no masked field, and
-- mode, collection and action are clear. An empty list of collections permits none.
pub evaluate-Admitted_iff :
    (env : Env) (request : Request) (trace : Trace) (policy_override : Option Policy)
    → ((evaluate env request trace policy_override).0.decision.status ≢ denied)
      ↔ Admitted env request (chosen policy_override (env.policies request.agent))
unfolding evaluate
evaluate-Admitted_iff env request trace policy_override =
    policy_step env request (chosen policy_override (env.policies request.agent)) trace

-- An evaluation keeps its request and names the policy that it used.
abbrev pub Keeps : Request → Option Policy → EvalResult → Type 0
Keeps request policy result = (result.request ≡ request) × (result.policy ≡ policy)

module _ (env : Env) (request : Request) where
  guard-Keeps :
      (policy : Policy) (o : Option Decision) (trace : Trace)
      → Keeps request (some policy) (after_guard request policy o trace).0
  unfolding after_guard decide
  guard-Keeps policy none trace = (refl, refl)
  guard-Keeps policy (some d) trace = (refl, refl)

  window-Keeps :
      (policy : Policy) (o : Option Decision) (trace : Trace)
      → Keeps request (some policy) (after_temporal env request policy o trace).0
  unfolding after_temporal after_window
  window-Keeps policy none trace = elim (Bool-cases (database_permitted policy request.database)) [
    | inl hit ↦ rw hit (guard-Keeps policy (guard_aggregation env.executor request policy) _)
    | inr miss ↦ rw miss (refl, refl)
  ]
  window-Keeps policy (some d) trace = (refl, refl)

  policy-Keeps :
      (o : Option Policy) (trace : Trace) → Keeps request o (with_policy env request o trace).0
  unfolding with_policy
  policy-Keeps none trace = (refl, refl)
  policy-Keeps (some policy) trace =
      window-Keeps policy (check_temporal env.now request.agent policy) trace

pub evaluate-Keeps :
    (env : Env) (request : Request) (trace : Trace) (policy_override : Option Policy)
    → Keeps request
        (chosen policy_override (env.policies request.agent))
        (evaluate env request trace policy_override).0
unfolding evaluate
evaluate-Keeps env request trace policy_override =
    policy-Keeps env request (chosen policy_override (env.policies request.agent)) trace
