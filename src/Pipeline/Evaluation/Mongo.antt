-- ===== src/Pipeline/Evaluation/Mongo.antt =====
-- What an aggregation pipeline may reach, where the active backend is MongoDB's
-- (plugins/mongodb/executor.py, plugins/mongodb/guard.py).
use guardmcp.Prelude.{String, ◌≡◌, ◌≢◌, true, Option, some, List, Member, subst, sym, ◌∙◌}
use guardmcp.Json.{Value, get, is_truthy}
use guardmcp.Domain.{denied, Request}
use guardmcp.Policy.{Policy, scope_for, mask_fields_for}
use guardmcp.Policy.Engine.{Trace}
use guardmcp.Policy.Engine.Laws.{Permits}
use guardmcp.Guard.Keys.{RefersTo}
use guardmcp.Guard.References.{
  HasPath, extract_pipeline_collections_iff, find_masked_field_references_iff,
}
use guardmcp.Backend.{Backend, referenced_collections, masked_field_references}
use guardmcp.Guard.{extract_pipeline_collections, find_masked_field_references}
use guardmcp.Pipeline.{Env, chosen, refs_of, leaks_of, evaluate}
use guardmcp.Pipeline.Clear.{PipelineIsClear}
use guardmcp.Pipeline.Evaluation.{evaluate-Admitted_iff}

-- Every collection that the pipeline names is permitted in the scope of the request's database, and
-- none of its field paths has a first name, up to its first dot, that is an entry of the masks of the
-- request's collection.
abbrev pub ReachesOnly : Policy → Request → Value → Type 0
ReachesOnly policy request pipeline =
    ((c : String) → RefersTo c pipeline → Permits (scope_for policy request.database).collections c)
    × ((f : String)
        → Member f (mask_fields_for policy request.collection request.database)
        → ¬ HasPath f pipeline)

module _ (backend : Backend) (request : Request) (policy : Policy) (pipeline : Value)
    (refs : backend.referenced_collections ≡ some referenced_collections)
    (leaks : backend.masked_field_references ≡ some masked_field_references)
    (given : get "pipeline" request.params ≡ some pipeline)
    (truthy : is_truthy pipeline ≡ true) where
  refs_of-mongo : refs_of backend request.params ≡ extract_pipeline_collections pipeline
  unfolding referenced_collections
  refs_of-mongo = rw (refs, given, truthy)

  leaks_of-mongo :
      (fields : List String)
      → leaks_of backend request.params fields ≡ find_masked_field_references pipeline fields
  unfolding masked_field_references
  leaks_of-mongo fields = rw (leaks, given, truthy)

  mongo_clear : PipelineIsClear backend request policy → ReachesOnly policy request pipeline
  mongo_clear clear =
      let masked = mask_fields_for policy request.collection request.database in
      let (permitted, unleaked) = clear (rw (given, truthy)) in
      (
        (λ c r. permitted c (
            subst (Member c) (sym refs_of-mongo)
              ((extract_pipeline_collections_iff c pipeline).1 r))),
        (λ f m p.
            subst (Member f) (sym (leaks_of-mongo masked) ∙ unleaked)
              ((find_masked_field_references_iff f pipeline masked).1 (p, m))),
      )

-- Where the active backend is MongoDB's, a pipeline that an evaluation does not deny names, at any
-- depth of stages and sub-pipelines, only collections that the scope of its database permits, and
-- has no text that begins with a dollar and whose first name, up to the first dot, is an entry of the
-- masks of its collection.  An entry with a dot is no first name: paths to it are not looked for.
pub evaluate-pipeline :
    (env : Env) (request : Request) (trace : Trace) (policy_override : Option Policy)
    (pipeline : Value)
    → env.executor.referenced_collections ≡ some referenced_collections
    → env.executor.masked_field_references ≡ some masked_field_references
    → get "pipeline" request.params ≡ some pipeline
    → is_truthy pipeline ≡ true
    → (evaluate env request trace policy_override).0.decision.status ≢ denied
    → (policy : Policy) × (chosen policy_override (env.policies request.agent) ≡ some policy)
      × ReachesOnly policy request pipeline
evaluate-pipeline env request trace policy_override pipeline refs leaks given truthy h =
    let (policy, e, admits) = (evaluate-Admitted_iff env request trace policy_override).0 h in
    (
      policy,
      e,
      mongo_clear env.executor request policy pipeline refs leaks given truthy admits.pipeline,
    )
