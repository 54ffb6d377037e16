-- ===== src/Planning/Pipeline.antt =====
-- core/planning/pipeline.py: `PlanningPipeline.plan`. Its notes, and the graph of relationships that it
-- passes on, are left out.
use guardmcp.Prelude.{
  String, Bool, true, false, Option, none, some, List, [], ◌∷◌, ◌&&◌, ◌||◌, elem, ◌===◌,
  if◌then◌else◌, map, rstrip,
}
use guardmcp.Json.{Value, str, natural, obj, arr, Fields, end, field}
use guardmcp.Dict.{Dict}
use guardmcp.Domain.{find}
use guardmcp.Cost.{CostEstimate}
use guardmcp.Capability.{Capability}
use guardmcp.Backend.{Backend}
use guardmcp.Pipeline.{Env, EvalResult, evaluate_capability}
use guardmcp.Connections.{Session, discover_collections}
use guardmcp.Connections.Describe.{SchemaOf, Description, describe_collection}
use guardmcp.Planning.{PlanRequest, Interpretation, AmbiguityReport, Plan, Index, indexed_fields}
use guardmcp.Planning.Intent.{lower, runs, is_letter}
use guardmcp.Planning.Ambiguity.{detect}
use guardmcp.Planning.Plans.{build, AlternativeRequest, expand, rank, first_open}

-- What the executor and the plugin give: schemas, indexes (`none` where it raises), and the plugin's
-- two optional methods.
pub record Tools : Type 0 where
  pub schema_of : SchemaOf
  pub indexes_of : String → Option (List Index)
  pub alternatives : Option (PlanRequest → List AlternativeRequest)
  pub estimate : Option (PlanRequest → Option CostEstimate)

abbrev pub singulars : List String → List String
singulars [] = []
singulars (t ∷ ts) = rstrip b's' t ∷ singulars ts

-- `rl in tokens or rl_sing in tokens or …`
abbrev pub is_named : (tokens : List String) → (name : String) → Bool
is_named tokens name =
    elem (lower name) tokens
    || elem (rstrip b's' (lower name)) tokens
    || (elem (lower name) (singulars tokens) || elem (rstrip b's' (lower name)) (singulars tokens))

abbrev pub named_or : (tokens : List String) → (default : String) → List String → String
named_or tokens default [] = default
named_or tokens default (r ∷ rs) =
    let rest = named_or tokens default rs in if is_named tokens r then r else rest

abbrev pub asked_for : Option String → List String → Bool
asked_for none allowed = false
asked_for (some r) allowed = not_empty r && elem r allowed
  where
    not_empty : String → Bool
    not_empty r = if r === "" then false else true

-- `_pick_resource`, of the collections `first ∷ rest`
unfoldable pub pick_resource :
    (intent : String) → Option String → (first : String) → List String → String
unfolding lower runs is_letter elem rstrip
pick_resource intent none first rest = named_or (runs is_letter (lower intent)) first (first ∷ rest)
pick_resource intent (some r) first rest =
    if asked_for (some r) (first ∷ rest)
    then r
    else named_or (runs is_letter (lower intent)) first (first ∷ rest)

abbrev pub names : Dict String → List String
names [] = []
names ((k, _) ∷ rest) = k ∷ names rest

abbrev pub fields_of : Option Description → List String
fields_of none = []
fields_of (some d) = names d.fields

abbrev pub indexes_or_none : Option (List Index) → List Index
indexes_or_none none = []
indexes_or_none (some indexes) = indexes

abbrev pub put_option : {A : Type 0} → (key : String) → (A → Value) → Option A → Fields → Fields
put_option key as_value none rest = rest
put_option key as_value (some a) rest = field key (as_value a) rest

abbrev pub capability_name : Capability → String
capability_name Capability.read = "read"
capability_name Capability.count = "count"
capability_name Capability.aggregate = "aggregate"
capability_name Capability.write_one = "write_one"
capability_name Capability.write_many = "write_many"
capability_name Capability.delete_one = "delete_one"
capability_name Capability.delete_many = "delete_many"
capability_name Capability.schema = "schema"
capability_name Capability.indexes = "indexes"
capability_name Capability.explain = "explain"
capability_name Capability.estimate = "estimate"
capability_name Capability.list_resources = "list_resources"
capability_name Capability.list_databases = "list_databases"
capability_name Capability.stats = "stats"
capability_name Capability.ddl_create = "ddl_create"
capability_name Capability.ddl_destroy = "ddl_destroy"
capability_name Capability.logs = "logs"

-- `request.model_dump(exclude_none=True)`
abbrev pub dump : PlanRequest → Fields
dump r = field "capability" (str (capability_name r.capability)) (
    field "resource" (str r.resource) (
      put_option "filter" obj r.filter (
        put_option "pipeline" arr r.pipeline (
          field "options" (obj end)
            (put_option "limit" natural r.limit (put_option "sort" obj r.sort end))))))

-- `evaluate_capability` of a plan's request, for the agent.
unfoldable pub judged : Env → (agent : String) → PlanRequest → EvalResult
judged env agent r =
    evaluate_capability env
      (record {
        request_id = "";
        agent = agent;
        collection = r.resource;
        action = find;
        params = dump r;
        database = none;
      })
      r.capability none

abbrev pub estimated :
    Option (PlanRequest → Option CostEstimate) → PlanRequest → Option CostEstimate
estimated none r = none
estimated (some estimate) r = estimate r

unfoldable pub enrich : Env → Tools → (agent : String) → Plan → Plan
enrich env tools agent plan =
    let ev = judged env agent plan.request in
    record plan {
      est_cost = estimated tools.estimate plan.request;
      governance = some (ev.decision.status, ev.decision.reason);
      risk_level = ev.decision.risk;
    }

pub record PlannerResult : Type 0 where
  pub ambiguity : AmbiguityReport
  pub plans : List Plan
  pub recommended_plan : Option Plan

abbrev pub clear_report : AmbiguityReport
clear_report = record { ambiguous = false; confidence = 100; interpretations = [] }

abbrev pub first_of : List Interpretation → Option Interpretation
first_of [] = none
first_of (i ∷ _) = some i

-- The plans of an intent that is not ambiguous.
unfoldable pub planned :
    Env
    → Tools
    → (agent intent resource : String) → (fields : List String) → List Index
    → AmbiguityReport
    → PlannerResult
planned env tools agent intent resource fields indexes report =
    let base = build intent resource fields indexes (first_of report.interpretations) in
    let ranked = rank (map (enrich env tools agent) (expand base tools.alternatives)) in
    record { ambiguity = report; plans = ranked; recommended_plan = first_open ranked }

abbrev pub unless_ambiguous : AmbiguityReport → PlannerResult → PlannerResult
unless_ambiguous report result =
    if report.ambiguous
    then record { ambiguity = report; plans = []; recommended_plan = none }
    else result

-- `plan`, of the collections that discovery allows.
unfoldable pub plan_among :
    Env → Tools → (agent intent : String) → Option String → (allowed : List String) → PlannerResult
unfolding planned pick_resource
plan_among env tools agent intent resource [] = record {
  ambiguity = clear_report;
  plans = [];
  recommended_plan = none;
}
plan_among env tools agent intent resource (first ∷ rest) =
    let chosen = pick_resource intent resource first rest in
    let desc = (describe_collection (env.policies agent) tools.schema_of agent chosen none).0 in
    let indexes = indexes_or_none (tools.indexes_of chosen) in
    let report = detect intent (fields_of desc) (indexed_fields indexes) in
    unless_ambiguous report (planned env tools agent intent chosen (fields_of desc) indexes report)

-- `plan`
unfoldable pub plan :
    Env
    → Session
    → (default : Backend) → Tools
    → (agent intent : String) → Option String
    → PlannerResult
unfolding plan_among
plan env s default tools agent intent resource =
    plan_among env tools agent intent resource
      (discover_collections (env.policies agent) s default agent none).0
